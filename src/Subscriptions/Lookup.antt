-- ===== src/Subscriptions/Lookup.antt =====
-- hermes_agent_a2a/subscription_store.py: what `get` returns.
use mathlib.Core.List.{Memᴰ}
use hermes_agent_a2a.Prelude.{
  String, ◌≡◌, refl, sym, ap, ◌∙◌, ◌⊎◌, ◌↔◌, true, Option, none, some, List, [], ◌∷◌, arith, eq_iff,
  eq_refl, ◌==◌, contains, Bool-cases, Option-cases, inl, inr,
}
use hermes_agent_a2a.Dict.{Dict, get}
use hermes_agent_a2a.Subscriptions.{
  Subscription, SubscriptionStore, ids_of, pick, get_subscriptions,
}
use hermes_agent_a2a.Subscriptions.Links.{some-inj}
use hermes_agent_a2a.Subscriptions.Index.{Reach, Reach-IsIndexed}

mem_cons_cases :
    {x y : Subscription} {ys : List Subscription} → Memᴰ x (y ∷ ys) → (x ≡ y) ⊎ Memᴰ x ys
mem_cons_cases (Memᴰ.head e) = inl e
mem_cons_cases (Memᴰ.tail m) = inr m

pick_cons :
    (i : String) (ids : List String) (d : Dict Subscription) (o : Option Subscription)
    → get i d ≡ o
    → pick (i ∷ ids) d ≡ elim o [ none ↦ pick ids d | some x ↦ x ∷ pick ids d ]
unfolding pick
pick_cons i ids d none e = ground (arith, e)
pick_cons i ids d (some x) e = ground (arith, e)

pick_sound :
    (x : Subscription) (ids : List String) (d : Dict Subscription)
    → Memᴰ x (pick ids d)
    → (i : String) × (contains i ids ≡ true) × (get i d ≡ some x)
unfolding pick
pick_sound x [] d m = elim m [ ]
pick_sound x (i ∷ ids) d m = elim (Option-cases (get i d)) [
  | inl absent ↦
      let (j, h, there) = pick_sound x ids d (rw (pick_cons i ids d none absent) at m) in
      (j, ground (arith, h), there)
  | inr (y, found) ↦ elim (mem_cons_cases (rw (pick_cons i ids d (some y) found) at m)) [
    | inl same ↦
        (i, ground (arith, eq_refl i), found ∙ ap (λ (z : Subscription). some z) (sym same))
    | inr rest ↦ let (j, h, there) = pick_sound x ids d rest in (j, ground (arith, h), there)
  ]
]

pick_complete :
    (x : Subscription) (i : String) (ids : List String) (d : Dict Subscription)
    → contains i ids ≡ true
    → get i d ≡ some x
    → Memᴰ x (pick ids d)
unfolding pick
pick_complete x i [] d h there = absurd (ground (arith, h))
pick_complete x i (j ∷ ids) d h there = elim (Bool-cases (j == i)) [
  | inl same ↦
      rw (pick_cons j ids d (some x) (ap (λ (y : String). get y d) ((eq_iff j i).0 same) ∙ there))
        (Memᴰ.head refl)
  | inr other ↦
      let rest = pick_complete x i ids d (ground (arith, h, other)) there in
      elim (Option-cases (get j d)) [
        | inl absent ↦ rw (pick_cons j ids d none absent) rest
        | inr (y, found) ↦ rw (pick_cons j ids d (some y) found) (Memᴰ.tail rest)
      ]
]

-- In every store that calls can reach from a new one, `get` returns exactly the stored subscriptions of
-- the task.
pub get_subscriptions_exact :
    (task : String) (s : SubscriptionStore) (x : Subscription)
    → Reach s
    → Memᴰ x (get_subscriptions task s)
      ↔ ((get x.subscription_id s.store ≡ some x) × (x.task_id ≡ task))
unfolding get_subscriptions
get_subscriptions_exact task s x r =
    let w = Reach-IsIndexed r in
    (
      λ m.
          let (i, listed, there) = pick_sound x (ids_of task s.by_task) s.store m in
          let (y, found, own) = w.stored task i listed in
          let one : y ≡ x = some-inj (sym found ∙ there) in
          (
            ap (λ (j : String). get j s.store) (w.named i x there) ∙ there,
            ap (λ (z : Subscription). z.task_id) (sym one) ∙ own,
          ),
      λ (there, own).
          pick_complete x x.subscription_id (ids_of task s.by_task) s.store
            (ap (λ (t : String). contains x.subscription_id (ids_of t s.by_task)) (sym own)
              ∙ w.linked x.subscription_id x there)
            there,
    )
