-- ===== src/Subscriptions.antt =====
-- hermes_agent_a2a/subscription_store.py: `SubscriptionStore`, with its index by task. Each call is the
-- block under the lock, with the clock read once. The sets of ids are lists; `add_subscription` takes
-- the UUID that the call draws.
pub mod Links
pub mod Index
pub mod Lookup
use hermes_agent_a2a.Prelude.{
  ℕ, ◌+◌, String, Bool, true, false, Option, none, some, List, [], ◌∷◌, ltb, if◌then◌else◌, length,
  add, discard,
}
use hermes_agent_a2a.Dict.{Dict, get, put, remove}
use hermes_agent_a2a.Dict.Sweep.{keys_where}

pub record Subscription : Type 0 where
  pub subscription_id : String
  pub task_id : String
  pub url : String
  pub hmac_key : String
  pub created_at : ℕ

pub record SubscriptionStore : Type 0 where
  pub store : Dict Subscription
  pub by_task : Dict (List String)

unfoldable pub init : SubscriptionStore
init = record { store = []; by_task = [] }

-- `by_task.get(task_id, set())`
abbrev pub or_empty : Option (List String) → List String
or_empty none = []
or_empty (some ids) = ids

abbrev pub ids_of : String → Dict (List String) → List String
ids_of task_id by_task = or_empty (get task_id by_task)

-- `by_task.get(task_id, set()).discard(sid)`: no entry is made for a task without one
unfoldable pub unlink : String → String → Dict (List String) → Dict (List String)
unlink task_id sid by_task = elim (get task_id by_task) [
  | none ↦ by_task
  | some ids ↦ put task_id (discard sid ids) by_task
]

-- `remove(subscription_id)`, and the body of the loop of the cleanup
unfoldable pub remove_subscription : String → SubscriptionStore → SubscriptionStore × Bool
unfolding unlink
remove_subscription sid s = elim (get sid s.store) [
  | none ↦ (s, false)
  | some sub ↦
      (record { store = remove sid s.store; by_task = unlink sub.task_id sid s.by_task }, true)
]

unfoldable pub remove_ids : List String → SubscriptionStore → SubscriptionStore
unfolding remove_subscription
remove_ids [] s = s
remove_ids (sid ∷ sids) s = remove_ids sids (remove_subscription sid s).0

-- now - created_at > max_age
abbrev pub is_expired : ℕ → ℕ → Subscription → Bool
is_expired max_age now sub = ltb (sub.created_at + max_age) now

unfoldable pub cleanup_expired : ℕ → ℕ → SubscriptionStore → SubscriptionStore × ℕ
unfolding remove_ids
cleanup_expired max_age now s =
    let expired_ids = keys_where (is_expired max_age now) s.store in
    (remove_ids expired_ids s, length expired_ids)

-- The store once the lazy cleanup is done, before the new subscription is put into it.
unfoldable pub tidy : ℕ → ℕ → SubscriptionStore → SubscriptionStore
unfolding cleanup_expired
tidy max_age now s = if ltb 10 (length s.store) then (cleanup_expired max_age now s).0 else s

-- `self._store[sub_id] = sub; self._by_task.setdefault(task_id, set()).add(sub_id)`
unfoldable pub insert : Subscription → SubscriptionStore → SubscriptionStore
insert sub s = record {
  store = put sub.subscription_id sub s.store;
  by_task = put sub.task_id (add sub.subscription_id (ids_of sub.task_id s.by_task)) s.by_task;
}

unfoldable pub add_subscription :
    ℕ → ℕ → String → String → String → String → SubscriptionStore → SubscriptionStore × String
unfolding tidy insert
add_subscription max_age now sub_id task_id url hmac_key s =
    let sub : Subscription = record {
      subscription_id = sub_id;
      task_id = task_id;
      url = url;
      hmac_key = hmac_key;
      created_at = now;
    } in
    (insert sub (tidy max_age now s), sub_id)

-- `[store[sid] for sid in sids if sid in store]`
unfoldable pub pick : List String → Dict Subscription → List Subscription
pick [] store = []
pick (sid ∷ sids) store =
    let rest = pick sids store in elim (get sid store) [ none ↦ rest | some sub ↦ sub ∷ rest ]

unfoldable pub get_subscriptions : String → SubscriptionStore → List Subscription
unfolding pick
get_subscriptions task_id s = pick (ids_of task_id s.by_task) s.store
