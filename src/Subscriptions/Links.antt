-- ===== src/Subscriptions/Links.antt =====
-- hermes_agent_a2a/subscription_store.py: the ids of a task, after an id is taken out or put in.
use hermes_agent_a2a.Prelude.{
  String, ◌≡◌, true, false, none, some, List, arith, eq_iff, ◌==◌, if◌then◌else◌, contains, add,
  discard, contains-add, contains-discard, Bool-cases, Option-cases, inl, inr,
}
use hermes_agent_a2a.Dict.{Dict, get, put}
use hermes_agent_a2a.Dict.Laws.{get-put}
use hermes_agent_a2a.Subscriptions.{Subscription, ids_of, unlink}

-- The index after an id is taken out of one task.
pub contains-unlink :
    (t u i j : String) (b : Dict (List String))
    → contains j (ids_of u (unlink t i b)) ≡ (
        if t == u
        then (if i == j then false else contains j (ids_of u b))
        else contains j (ids_of u b))
unfolding unlink
contains-unlink t u i j b = elim (Option-cases (get t b)) [
  | inl absent ↦ ground (arith, absent, eq_iff t u)
  | inr (ids, there) ↦
      ground (arith, there, get-put t u (discard i ids) b, contains-discard i j ids, eq_iff t u)
]

pub contains-link :
    (t u i j : String) (b : Dict (List String))
    → contains j (ids_of u (put t (add i (ids_of t b)) b)) ≡ (
        if t == u
        then (if i == j then true else contains j (ids_of u b))
        else contains j (ids_of u b))
contains-link t u i j b = elim (Bool-cases (t == u)) [
  | inl same ↦ ground (
    arith,
    get-put t u (add i (ids_of t b)) b,
    same,
    contains-add i j (ids_of t b),
    (eq_iff t u).0 same,
  )
  | inr other ↦ ground (arith, get-put t u (add i (ids_of t b)) b, other)
]

pub some-inj : {x y : Subscription} → some x ≡ some y → x ≡ y
some-inj h = cc

pub no_entry : {x : Subscription} → none ≡ some x → ⊥
no_entry h = ground (arith, h)
