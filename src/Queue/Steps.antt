-- ===== src/Queue/Steps.antt =====
-- hermes_agent_a2a/task_queue.py, hermes_agent_a2a/server.py, hermes_agent_a2a/hooks.py: the threads
-- that share one queue, as interleavings of the blocks that run under its lock and of the writes to
-- task objects. Whatever the interleaving, the queue stays well-formed.
use hermes_agent_a2a.Prelude.{
  ℕ, ◌-◌, String, ◌≡◌, refl, ◌∙◌, ◌*◌, Bool, true, Option, List, [], ◌∷◌, arith, length,
  Option-cases, inl, inr, Bool-cases,
}
use hermes_agent_a2a.Dict.{values}
use hermes_agent_a2a.Json.{Fields}
use hermes_agent_a2a.Queue.State.{TaskState, Ref, PendingTask, TaskQueue, init, update}
use hermes_agent_a2a.Queue.Ops.{
  set_auth_required, set_authenticated, transition, enqueue, requeue_tasks, mark_processing,
  complete, cancel,
}
use hermes_agent_a2a.Queue.Reads.{find_task_by_id, pending_count}
use hermes_agent_a2a.Queue.Waiters.{
  webhook_failure, wake, mark_returned, write_answer, orphan, orphan_all, orphan_scan, is_young,
  watchdog,
}
use hermes_agent_a2a.Queue.WellFormed.{
  IsWellFormed, init-IsWellFormed, set_auth_required-IsWellFormed, set_authenticated-IsWellFormed,
  transition-IsWellFormed,
}
use hermes_agent_a2a.Queue.WellFormed.Enqueue.{
  enqueue-IsWellFormed, AllBelow, requeue_tasks-IsWellFormed, mark_processing-IsWellFormed,
}
use hermes_agent_a2a.Queue.WellFormed.Complete.{
  complete-IsWellFormed, cancel-IsWellFormed, task_id-update,
}

-- `requeues` says whether some thread may call `requeue_tasks`. Three threads test an object and then
-- write to it without the lock; `give_up` and `overwrite` are their writes alone, at any later time.
pub data Step (requeues : Bool) : TaskQueue → TaskQueue → Type 0 where
  require_auth : {q : TaskQueue} (k : String) → Step requeues q (set_auth_required k q)
  authenticate : {q : TaskQueue} (k : String) → Step requeues q (set_authenticated k q)
  move : {q : TaskQueue} (k : String) (s : TaskState) → Step requeues q (transition k s q).0
  arrive :
      {q : TaskQueue} (now : ℕ) (k text : String) (m : Fields) (c : Option String)
      → Step requeues q (enqueue now k text m c q).0
  requeue :
      {q : TaskQueue} (tasks : List Ref)
      → requeues ≡ true
      → AllBelow q.next tasks
      → Step requeues q (requeue_tasks tasks q)
  start : {q : TaskQueue} (k : String) → Step requeues q (mark_processing k q)
  respond : {q : TaskQueue} (k response : String) → Step requeues q (complete k response q)
  withdraw : {q : TaskQueue} (k : String) → Step requeues q (cancel k q)
  lose : {q : TaskQueue} (k : String) → Step requeues q (webhook_failure k q)
  await : {q : TaskQueue} (r : Ref) → Step requeues q (wake r q).0
  give_up : {q : TaskQueue} (r : Ref) → Step requeues q (mark_returned r q)
  overwrite : {q : TaskQueue} (r : Ref) (text : String) → Step requeues q (write_answer r text q)
  watch : {q : TaskQueue} (timeout now : ℕ) → Step requeues q (watchdog timeout now q)

pub data Reach (requeues : Bool) (q : TaskQueue) : TaskQueue → Type 0 where
  here : Reach requeues q q
  next : {p p' : TaskQueue} → Reach requeues q p → Step requeues p p' → Reach requeues q p'

-- Writes to objects that keep their ids keep the queue well-formed.
objects-IsWellFormed :
    {q : TaskQueue} (objects : Ref → PendingTask)
    → ((s : Ref) → (objects s).task_id ≡ (q.objects s).task_id)
    → IsWellFormed q
    → IsWellFormed (record q { objects = objects })
objects-IsWellFormed {q} objects same w = record {
  pending_distinct = w.pending_distinct;
  completed_distinct = w.completed_distinct;
  counted = w.counted;
  processing_pending = w.processing_pending;
  pending_named = λ k r h. ground (arith, same r, w.pending_named k r h);
  pending_fresh = w.pending_fresh;
  completed_named = λ k r h. ground (arith, same r, w.completed_named k r h);
  completed_fresh = w.completed_fresh;
  stated = λ r h. ground (arith, same r, w.stated r h);
}

webhook_failure-IsWellFormed :
    (k : String) {q : TaskQueue} → IsWellFormed q → IsWellFormed (webhook_failure k q)
unfolding webhook_failure
webhook_failure-IsWellFormed k {q} w = elim (Option-cases (find_task_by_id k q)) [
  | inl lost ↦ rw (lost, webhook_failure) w
  | inr (r, found) ↦ rw (found, webhook_failure) (objects-IsWellFormed _ (λ s. ground arith) w)
]

wake-IsWellFormed : (r : Ref) {q : TaskQueue} → IsWellFormed q → IsWellFormed (wake r q).0
unfolding wake
wake-IsWellFormed r {q} w = elim (Option-cases (q.objects r).response) [
  | inl silent ↦ rw (silent, wake) (objects-IsWellFormed _ (λ s. ground arith) w)
  | inr (s, answered) ↦ rw (answered, wake) w
]

mark_returned-IsWellFormed :
    (r : Ref) {q : TaskQueue} → IsWellFormed q → IsWellFormed (mark_returned r q)
unfolding mark_returned
mark_returned-IsWellFormed r w = objects-IsWellFormed _ (λ s. ground arith) w

write_answer-IsWellFormed :
    (r : Ref) (text : String) {q : TaskQueue}
    → IsWellFormed q
    → IsWellFormed (write_answer r text q)
unfolding write_answer
write_answer-IsWellFormed r text w = objects-IsWellFormed _ (λ s. ground arith) w

task_id-orphan : (cutoff : ℕ) (t : PendingTask) → (orphan cutoff t).task_id ≡ t.task_id
task_id-orphan cutoff t = ground arith

task_id-orphan_all :
    (cutoff : ℕ) (rs : List Ref) (objects : Ref → PendingTask) (s : Ref)
    → (orphan_all cutoff rs objects s).task_id ≡ (objects s).task_id
unfolding orphan_all
task_id-orphan_all cutoff [] objects s = refl
task_id-orphan_all cutoff (r ∷ rs) objects s =
    task_id-orphan_all cutoff rs (update objects r (orphan cutoff (objects r))) s
    ∙ task_id-update objects r s _ (task_id-orphan cutoff (objects r))

watchdog-IsWellFormed :
    (timeout now : ℕ) {q : TaskQueue} → IsWellFormed q → IsWellFormed (watchdog timeout now q)
unfolding watchdog orphan_scan
watchdog-IsWellFormed timeout now {q} w =
    elim (Bool-cases (is_young (now - 2 * timeout) q.oldest_pending_time)) [
      | inl young ↦ rw young w
      | inr old ↦ rw old (
          objects-IsWellFormed _
            (task_id-orphan_all (now - 2 * timeout) (values q.pending) q.objects) w)
    ]

pub Step-IsWellFormed :
    {requeues : Bool} {q q' : TaskQueue} → Step requeues q q' → IsWellFormed q → IsWellFormed q'
Step-IsWellFormed (require_auth k) w = set_auth_required-IsWellFormed k w
Step-IsWellFormed (authenticate k) w = set_authenticated-IsWellFormed k w
Step-IsWellFormed (move k s) w = transition-IsWellFormed k s w
Step-IsWellFormed (arrive now k text m c) w = enqueue-IsWellFormed now k text m c w
Step-IsWellFormed (requeue tasks _ below) w = requeue_tasks-IsWellFormed tasks below w
Step-IsWellFormed (start k) w = mark_processing-IsWellFormed k w
Step-IsWellFormed (respond k response) w = complete-IsWellFormed k response w
Step-IsWellFormed (withdraw k) w = cancel-IsWellFormed k w
Step-IsWellFormed (lose k) w = webhook_failure-IsWellFormed k w
Step-IsWellFormed (await r) w = wake-IsWellFormed r w
Step-IsWellFormed (give_up r) w = mark_returned-IsWellFormed r w
Step-IsWellFormed (overwrite r text) w = write_answer-IsWellFormed r text w
Step-IsWellFormed (watch timeout now) w = watchdog-IsWellFormed timeout now w

-- From a well-formed queue, every interleaving of the threads leads to a well-formed queue: the ids
-- in each dictionary are distinct, every task being processed is pending, every entry is filed under
-- the id of its object, every enqueued id has a state, and the counters account for each pending task.
pub Reach-IsWellFormed :
    {requeues : Bool} {q q' : TaskQueue} → IsWellFormed q → Reach requeues q q' → IsWellFormed q'
Reach-IsWellFormed w here = w
Reach-IsWellFormed w (next r st) = Step-IsWellFormed st (Reach-IsWellFormed w r)

-- In every queue that the threads can reach from a new one, the count that `pending_count` computes
-- from the three counters is the number of tasks in the queue.
pub pending_count_exact :
    {requeues : Bool} (q : TaskQueue) → Reach requeues init q → pending_count q ≡ length q.pending
unfolding pending_count
pending_count_exact q r = omega (arith, (Reach-IsWellFormed init-IsWellFormed r).counted)
