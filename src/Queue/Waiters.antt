-- ===== src/Queue/Waiters.antt =====
-- hermes_agent_a2a/server.py: what other threads write to the task objects: the request thread that
-- gives up, the callback of a failed webhook, and the watchdog for orphaned tasks.
use hermes_agent_a2a.Prelude.{
  ℕ, ◌-◌, ◌*◌, String, Bool, true, false, not, ◌&&◌, ◌||◌, Option, none, some, List, [], ◌∷◌, ltb,
  leb, is_some, if◌then◌else◌,
}
use hermes_agent_a2a.Dict.{values}
use hermes_agent_a2a.Queue.State.{Ref, PendingTask, TaskQueue, update, answer}
use hermes_agent_a2a.Queue.Reads.{find_task_by_id}

abbrev pub write : Ref → PendingTask → TaskQueue → TaskQueue
write r t q = record q { objects = update q.objects r t }

abbrev pub answer_if_silent : String → PendingTask → PendingTask
answer_if_silent response t = if is_some t.response then t else answer response t

-- `_on_webhook_failure(tid)`
unfoldable pub webhook_failure : String → TaskQueue → TaskQueue
webhook_failure tid q = elim (find_task_by_id tid q) [
  | none ↦ q
  | some r ↦ write r (answer_if_silent "(webhook delivery failed)" (q.objects r)) q
]

-- task._returned = True. The request thread takes no lock, so another thread may have answered since it
-- read the response.
unfoldable pub mark_returned : Ref → TaskQueue → TaskQueue
mark_returned r q = write r (record (q.objects r) { returned = true }) q

-- task.response = text; task.ready.set(), as the failure callback and the watchdog write it, also
-- without the lock.
unfoldable pub write_answer : Ref → String → TaskQueue → TaskQueue
write_answer r text q = write r (answer text (q.objects r)) q

-- What `_enqueue_and_await_task` does once the wait is over, with no other thread in between: the
-- response, or a timeout, after which the object is marked as returned.
unfoldable pub wake : Ref → TaskQueue → TaskQueue × Option String
unfolding mark_returned
wake r q = elim (q.objects r).response [ some s ↦ (q, some s) | none ↦ (mark_returned r q, none) ]

-- `task.ready.wait(timeout)` and what follows: the thread waits on until the event is set or the time is up.
unfoldable pub await_response : Bool → Ref → TaskQueue → Option (TaskQueue × Option String)
unfolding wake
await_response timed_out r q = if (q.objects r).ready || timed_out then some (wake r q) else none

abbrev pub orphan : ℕ → PendingTask → PendingTask
orphan cutoff t =
    if ltb t.created_at cutoff && not (is_some t.response)
    then answer "(orphaned — no response)" t
    else t

-- The scan over `list(task_queue._pending.values())`.
unfoldable pub orphan_all : ℕ → List Ref → (Ref → PendingTask) → Ref → PendingTask
orphan_all cutoff [] objects = objects
orphan_all cutoff (r ∷ rs) objects =
    orphan_all cutoff rs (update objects r (orphan cutoff (objects r)))

unfoldable pub orphan_scan : ℕ → TaskQueue → TaskQueue
unfolding orphan_all
orphan_scan cutoff q = record q { objects = orphan_all cutoff (values q.pending) q.objects }

abbrev pub is_young : ℕ → Option ℕ → Bool
is_young cutoff none = false
is_young cutoff (some t) = leb cutoff t

-- One round of the watchdog at the time `now`. A negative cutoff and the cutoff 0 that `-` gives
-- are the same to it, since no task was created before 0.
unfoldable pub watchdog : ℕ → ℕ → TaskQueue → TaskQueue
watchdog response_timeout now q =
    let cutoff = now - 2 * response_timeout in
    if is_young cutoff q.oldest_pending_time then q else orphan_scan cutoff q
