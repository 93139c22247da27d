-- ===== src/Queue/WellFormed.antt =====
-- hermes_agent_a2a/task_queue.py: what holds of a `TaskQueue` between two operations.
pub mod Enqueue
pub mod Complete
use hermes_agent_a2a.Prelude.{
  ℕ, suc, ◌+◌, ◌-◌, ◌<◌, ◌≤◌, String, ◌≡◌, refl, Bool, true, false, ◌||◌, Option, none, some, List,
  [], ◌∷◌, arith, eq_iff, ◌==◌, eqb, leb, ltb, if◌then◌else◌, is_some, length, contains, add,
  discard, contains-add, contains-discard, Option-cases, inl, inr, Bool-cases,
}
use hermes_agent_a2a.Dict.{Dict, get, has, put, remove, IsDistinct}
use hermes_agent_a2a.Dict.Laws.{
  get-put, get-remove, length-remove, put_absent, put-IsDistinct, remove-IsDistinct,
}
use hermes_agent_a2a.Json.{Fields}
use hermes_agent_a2a.Queue.State.{
  TaskState, Ref, PendingTask, new_task, TaskQueue, init, task_cache_max, update, answer,
}
use hermes_agent_a2a.Queue.Evict.{evict, evict_within}
use hermes_agent_a2a.Queue.Ops.{
  set_auth_required, set_authenticated, transition, admit, count_enqueued, enqueue, requeue_tasks,
  mark_processing, trim_completed, finish, complete, retire, cancel, drop_processing,
}

pub record IsWellFormed (q : TaskQueue) : Type 0 where
  pub pending_distinct : IsDistinct q.pending
  pub completed_distinct : IsDistinct q.completed
  -- the counters account for every task in the queue
  pub counted : q.enqueue_count ≡ q.complete_count + q.cancel_count + length q.pending
  -- a task being processed is pending
  pub processing_pending : (k : String) → contains k q.processing ≡ true → has k q.pending ≡ true
  -- every entry is filed under the id of its object, which is on the heap
  pub pending_named : (k : String) (r : Ref) → get k q.pending ≡ some r → (q.objects r).task_id ≡ k
  pub pending_fresh : (k : String) (r : Ref) → get k q.pending ≡ some r → r < q.next
  pub completed_named :
      (k : String) (r : Ref) → get k q.completed ≡ some r → (q.objects r).task_id ≡ k
  pub completed_fresh : (k : String) (r : Ref) → get k q.completed ≡ some r → r < q.next
  -- every task that was ever enqueued has a state
  pub stated : (r : Ref) → r < q.next → has (q.objects r).task_id q.states ≡ true

pub init-IsWellFormed : IsWellFormed init
unfolding init get IsDistinct
init-IsWellFormed = record {
  pending_distinct = tt;
  completed_distinct = tt;
  counted = omega arith;
  processing_pending = λ k h. cc;
  pending_named = λ k r h. cc;
  pending_fresh = λ k r h. cc;
  completed_named = λ k r h. cc;
  completed_fresh = λ k r h. cc;
  stated = λ r h. absurd (omega arith);
}

pub has-put_grows :
    (k j : String) (s : TaskState) (d : Dict TaskState) → has j d ≡ true → has j (put k s d) ≡ true
has-put_grows k j s d h = ground (arith, get-put k j s d)

-- A write of a state, whatever the id, keeps the rest.
states-IsWellFormed :
    (k : String) (s : TaskState) {q : TaskQueue}
    → IsWellFormed q
    → IsWellFormed (record q { states = put k s q.states })
states-IsWellFormed k s {q} w = record {
  pending_distinct = w.pending_distinct;
  completed_distinct = w.completed_distinct;
  counted = w.counted;
  processing_pending = w.processing_pending;
  pending_named = w.pending_named;
  pending_fresh = w.pending_fresh;
  completed_named = w.completed_named;
  completed_fresh = w.completed_fresh;
  stated = λ r h. has-put_grows k (q.objects r).task_id s q.states (w.stated r h);
}

pub set_auth_required-IsWellFormed :
    (k : String) {q : TaskQueue} → IsWellFormed q → IsWellFormed (set_auth_required k q)
unfolding set_auth_required
set_auth_required-IsWellFormed k w = states-IsWellFormed k _ w

pub set_authenticated-IsWellFormed :
    (k : String) {q : TaskQueue} → IsWellFormed q → IsWellFormed (set_authenticated k q)
unfolding set_authenticated
set_authenticated-IsWellFormed k w = states-IsWellFormed k _ w

pub transition-IsWellFormed :
    (k : String) (s : TaskState) {q : TaskQueue}
    → IsWellFormed q
    → IsWellFormed (transition k s q).0
unfolding transition
transition-IsWellFormed k s {q} w = ground (arith, states-IsWellFormed k s w)
