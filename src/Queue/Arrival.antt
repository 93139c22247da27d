-- ===== src/Queue/Arrival.antt =====
-- hermes_agent_a2a/task_queue.py: the outcome of `enqueue`.
use hermes_agent_a2a.Prelude.{
  ℕ, inl, inr, ◌⊎◌, true, sym, ap, ◌∙◌, ◌+◌, ◌<◌, ◌≤◌, String, ◌≡◌, ◌≢◌, refl, Option, none, some,
  arith, eq_iff, ◌==◌, if◌then◌else◌, length,
}
use hermes_agent_a2a.Dict.{get, has}
use hermes_agent_a2a.Dict.Laws.{get-put, put_absent}
use hermes_agent_a2a.Json.{Fields}
use hermes_agent_a2a.Queue.State.{Ref, TaskQueue, new_task, submitted, max_pending}
use hermes_agent_a2a.Queue.Ops.{admit, count_enqueued, enqueue}
use hermes_agent_a2a.Queue.WellFormed.Enqueue.{enqueue_admits, enqueue_refuses, enqueue-cases}

-- With room in the queue and no pending task of that id, `enqueue` files a fresh unanswered task under
-- the id, in the state "submitted", and counts it; every other entry and object stays, so no
-- task is ever evicted for it.
pub enqueue_accepts :
    (now : ℕ) (k text : String) (m : Fields) (c : Option String) (q : TaskQueue)
    → length q.pending < max_pending
    → get k q.pending ≡ none
    → let (q', r) = enqueue now k text m c q in
      (r ≡ some q.next)
      × (q'.objects q.next ≡ new_task now k text m c)
      × ((j : String) → get j q'.pending ≡ (if k == j then some q.next else get j q.pending))
      × (get k q'.states ≡ some submitted)
      × (q'.enqueue_count ≡ q.enqueue_count + 1)
      × (length q'.pending ≡ length q.pending + 1)
      × ((s : Ref) → s ≢ q.next → q'.objects s ≡ q.objects s)
      × (q'.completed ≡ q.completed)
unfolding admit count_enqueued
enqueue_accepts now k text m c q room new = rw (enqueue_admits now k text m c q room new) (
  refl,
  ground arith,
  λ j. get-put k j q.next q.pending,
  ground (arith, get-put k k submitted q.states, eq_iff k k),
  omega arith,
  put_absent k q.next q.pending new,
  λ s ne. ground (arith, ne),
  refl,
)

-- From within its bound the queue does not grow past it by `enqueue`: at the bound, and for an id that is
-- pending, it answers None, and whenever it answers None it changes nothing.
pub enqueue_bounded :
    (now : ℕ) (k text : String) (m : Fields) (c : Option String) (q : TaskQueue)
    → length q.pending ≤ max_pending
    → (length (enqueue now k text m c q).0.pending ≤ max_pending)
      × ((enqueue now k text m c q).1 ≡ none → (enqueue now k text m c q).0 ≡ q)
      × ((max_pending ≤ length q.pending) ⊎ (has k q.pending ≡ true)
          → (enqueue now k text m c q).1 ≡ none)
enqueue_bounded now k text m c q bound =
    let refuses = enqueue_refuses now k text m c q in
    elim (enqueue-cases now k text m c q) [
      | inl (room, new, e) ↦ rw e (
        unfold admit count_enqueued in omega (arith, put_absent k q.next q.pending new),
        λ h. cc,
        λ h. ap (λ (x : TaskQueue × Option Ref). x.1) (sym e ∙ refuses h),
      )
      | inr e ↦ rw e (bound, λ h. refl, λ h. refl)
    ]
