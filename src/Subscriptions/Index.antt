-- ===== src/Subscriptions/Index.antt =====
-- hermes_agent_a2a/subscription_store.py: the index by task agrees with the store.
use hermes_agent_a2a.Prelude.{
  ℕ, String, ◌≡◌, sym, ap, ◌∙◌, true, none, some, List, [], ◌∷◌, arith, eq_iff, ltb, ◌==◌, length,
  contains, Bool-cases, Option-cases, inl, inr,
}
use hermes_agent_a2a.Dict.{get, IsDistinct}
use hermes_agent_a2a.Dict.Laws.{get-put, get-remove, put-IsDistinct, remove-IsDistinct}
use hermes_agent_a2a.Dict.Sweep.{keys_where}
use hermes_agent_a2a.Subscriptions.{
  Subscription, SubscriptionStore, init, ids_of, remove_subscription, remove_ids, is_expired,
  cleanup_expired, tidy, insert, add_subscription,
}
use hermes_agent_a2a.Subscriptions.Links.{contains-unlink, contains-link, some-inj, no_entry}

-- Every subscription is filed under its own id and indexed under its own task, and the index holds
-- no other id.
pub record IsIndexed (s : SubscriptionStore) : Type 0 where
  pub distinct : IsDistinct s.store
  pub named : (i : String) (sub : Subscription) → get i s.store ≡ some sub → sub.subscription_id ≡ i
  pub linked :
      (i : String) (sub : Subscription)
      → get i s.store ≡ some sub
      → contains i (ids_of sub.task_id s.by_task) ≡ true
  pub stored :
      (t i : String)
      → contains i (ids_of t s.by_task) ≡ true
      → (sub : Subscription) × (get i s.store ≡ some sub) × (sub.task_id ≡ t)

pub init-IsIndexed : IsIndexed init
unfolding init get IsDistinct
init-IsIndexed = record {
  distinct = tt;
  named = λ i sub h. cc;
  linked = λ i sub h. cc;
  stored = λ t i h. absurd (ground (arith, h));
}

written :
    (sub : Subscription) (s : SubscriptionStore) (j : String) (x : Subscription)
    → (sub.subscription_id == j) ≡ true
    → get j (insert sub s).store ≡ some x
    → sub ≡ x
unfolding insert
written sub s j x same h =
    some-inj (sym (ground (arith, get-put sub.subscription_id j sub s.store, same)) ∙ h)

remove-IsIndexed :
    (i : String) {s : SubscriptionStore} → IsIndexed s → IsIndexed (remove_subscription i s).0
unfolding remove_subscription
remove-IsIndexed i {s} w = elim (Option-cases (get i s.store)) [
  | inl absent ↦ rw (absent, remove_subscription) w
  | inr (sub, there) ↦
      rw (there, remove_subscription)
        (record {
          distinct = remove-IsDistinct i s.store w.distinct;
          named = λ j x h. ground (arith, get-remove i j s.store, h, w.named j x);
          linked = λ j x h. ground (
            arith,
            get-remove i j s.store,
            h,
            w.linked j x,
            contains-unlink sub.task_id x.task_id i j s.by_task,
          );
          stored = λ t j h. elim (Bool-cases (i == j)) [
            | inl same ↦
                let ij : i ≡ j = (eq_iff i j).0 same in
                let seen : contains j (ids_of t s.by_task) ≡ true =
                  ground (arith, h, contains-unlink sub.task_id t i j s.by_task) in
                let (x, found, task) = w.stored t j seen in
                let one : sub ≡ x =
                  some-inj (sym there ∙ ap (λ (y : String). get y s.store) ij ∙ found) in
                let own : sub.task_id ≡ t = ap (λ (y : Subscription). y.task_id) one ∙ task in
                absurd (
                  ground (
                    arith,
                    h,
                    contains-unlink sub.task_id t i j s.by_task,
                    (eq_iff sub.task_id t).1 own,
                    same,
                  ))
            | inr other ↦
                let (x, found, task) =
                  w.stored t j
                    (ground (arith, h, other, contains-unlink sub.task_id t i j s.by_task)) in
                (x, ground (arith, get-remove i j s.store, found, other), task)
          ];
        })
]

insert-IsIndexed :
    (sub : Subscription) {s : SubscriptionStore}
    → get sub.subscription_id s.store ≡ none
    → IsIndexed s
    → IsIndexed (insert sub s)
unfolding insert
insert-IsIndexed sub {s} fresh w =
    let i = sub.subscription_id in
    record {
      distinct = put-IsDistinct i sub s.store w.distinct;
      named = λ j x h. elim (Bool-cases (i == j)) [
        | inl same ↦
            ap (λ (y : Subscription). y.subscription_id) (sym (written sub s j x same h))
            ∙ (eq_iff i j).0 same
        | inr other ↦ w.named j x (ground (arith, get-put i j sub s.store, h, other))
      ];
      linked = λ j x h. elim (Bool-cases (i == j)) [
        | inl same ↦
            let one : sub.task_id ≡ x.task_id =
              ap (λ (y : Subscription). y.task_id) (written sub s j x same h) in
            ground (
              arith,
              contains-link sub.task_id x.task_id i j s.by_task,
              (eq_iff sub.task_id x.task_id).1 one,
              same,
            )
        | inr other ↦ ground (
          arith,
          w.linked j x (ground (arith, get-put i j sub s.store, h, other)),
          other,
          contains-link sub.task_id x.task_id i j s.by_task,
        )
      ];
      stored = λ t j h. elim (Bool-cases (i == j)) [
        | inl same ↦ elim (Bool-cases (sub.task_id == t)) [
          | inl own ↦
              (sub, ground (arith, get-put i j sub s.store, same), (eq_iff sub.task_id t).0 own)
          | inr foreign ↦
              let (x, found, task) =
                w.stored t j
                  (ground (arith, h, foreign, contains-link sub.task_id t i j s.by_task)) in
              let absent : get j s.store ≡ none =
                ap (λ (y : String). get y s.store) (sym ((eq_iff i j).0 same)) ∙ fresh in
              absurd (no_entry (sym absent ∙ found))
        ]
        | inr other ↦
            let (x, found, task) =
              w.stored t j (ground (arith, h, other, contains-link sub.task_id t i j s.by_task)) in
            (x, ground (arith, get-put i j sub s.store, found, other), task)
      ];
    }

remove_ids-IsIndexed :
    (ids : List String) {s : SubscriptionStore} → IsIndexed s → IsIndexed (remove_ids ids s)
unfolding remove_ids
remove_ids-IsIndexed [] w = w
remove_ids-IsIndexed (i ∷ ids) w = remove_ids-IsIndexed ids (remove-IsIndexed i w)

cleanup-IsIndexed :
    (max_age now : ℕ) {s : SubscriptionStore}
    → IsIndexed s
    → IsIndexed (cleanup_expired max_age now s).0
unfolding cleanup_expired
cleanup-IsIndexed max_age now {s} w =
    remove_ids-IsIndexed (keys_where (is_expired max_age now) s.store) w

remove_keeps_absent :
    (i j : String) (s : SubscriptionStore)
    → get j s.store ≡ none
    → get j (remove_subscription i s).0.store ≡ none
unfolding remove_subscription
remove_keeps_absent i j s h = elim (Option-cases (get i s.store)) [
  | inl absent ↦ ground (arith, absent, h)
  | inr (sub, there) ↦ ground (arith, there, h, get-remove i j s.store)
]

remove_ids_keeps_absent :
    (ids : List String) (j : String) (s : SubscriptionStore)
    → get j s.store ≡ none
    → get j (remove_ids ids s).store ≡ none
unfolding remove_ids
remove_ids_keeps_absent [] j s h = h
remove_ids_keeps_absent (i ∷ ids) j s h =
    remove_ids_keeps_absent ids j (remove_subscription i s).0 (remove_keeps_absent i j s h)

tidy-IsIndexed :
    (max_age now : ℕ) {s : SubscriptionStore} → IsIndexed s → IsIndexed (tidy max_age now s)
unfolding tidy
tidy-IsIndexed max_age now {s} w = elim (Bool-cases (ltb 10 (length s.store))) [
  | inl many ↦ rw many (cleanup-IsIndexed max_age now w)
  | inr few ↦ rw few w
]

tidy_keeps_absent :
    (max_age now : ℕ) (j : String) (s : SubscriptionStore)
    → get j s.store ≡ none
    → get j (tidy max_age now s).store ≡ none
unfolding tidy cleanup_expired
tidy_keeps_absent max_age now j s h = elim (Bool-cases (ltb 10 (length s.store))) [
  | inl many ↦ rw many (remove_ids_keeps_absent (keys_where (is_expired max_age now) s.store) j s h)
  | inr few ↦ rw few h
]

-- A step of the store: a call of one of its operations, where the UUID drawn is not in use.
pub data Step : SubscriptionStore → SubscriptionStore → Type 0 where
  subscribe :
      {s : SubscriptionStore} (max_age now : ℕ) (id task url key : String)
      → get id s.store ≡ none
      → Step s (add_subscription max_age now id task url key s).0
  unsubscribe : {s : SubscriptionStore} (id : String) → Step s (remove_subscription id s).0
  expire : {s : SubscriptionStore} (max_age now : ℕ) → Step s (cleanup_expired max_age now s).0

pub data Reach : SubscriptionStore → Type 0 where
  start : Reach init
  next : {s s' : SubscriptionStore} → Reach s → Step s s' → Reach s'

Step-IsIndexed : {s s' : SubscriptionStore} → Step s s' → IsIndexed s → IsIndexed s'
unfolding add_subscription
Step-IsIndexed {s} (subscribe max_age now id task url key fresh) w =
    insert-IsIndexed
      (record { subscription_id = id; task_id = task; url = url; hmac_key = key; created_at = now })
      (tidy_keeps_absent max_age now id s fresh) (tidy-IsIndexed max_age now w)
Step-IsIndexed (unsubscribe id) w = remove-IsIndexed id w
Step-IsIndexed (expire max_age now) w = cleanup-IsIndexed max_age now w

-- In every store that calls can reach from a new one, each subscription is filed under its own id and
-- indexed under its own task, and the index holds no id but those of stored subscriptions.
pub Reach-IsIndexed : {s : SubscriptionStore} → Reach s → IsIndexed s
Reach-IsIndexed start = init-IsIndexed
Reach-IsIndexed (next r st) = Step-IsIndexed st (Reach-IsIndexed r)
