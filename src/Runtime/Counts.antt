-- ===== src/Runtime/Counts.antt =====
-- hermes_agent_a2a/runtime_state.py and task_queue.py: the recorded counters against the queue's own.
use hermes_agent_a2a.Prelude.{ℕ, ◌+◌, ◌≤◌, String, ◌≡◌, Bool, Option}
use hermes_agent_a2a.Queue.Ops.{transition, mark_processing}
use hermes_agent_a2a.Json.{Fields}
use hermes_agent_a2a.Queue.State.{TaskState, TaskQueue, init}
use hermes_agent_a2a.Runtime.{
  A2aMetrics, enqueue_recorded, complete_recorded, cancel_recorded, record_webhook_result,
  init as start_metrics,
}

-- A run from a new queue with new counters, in which tasks arrive, are completed, canceled, processed
-- and moved, and webhooks are delivered, in any order.
pub data Recorded : TaskQueue → A2aMetrics → Type 0 where
  begin : (now : ℕ) → Recorded init (start_metrics now)
  arrives :
      {q : TaskQueue} {m : A2aMetrics} (now : ℕ) (k text : String) (fs : Fields) (c : Option String)
      → Recorded q m
      → Recorded
          (enqueue_recorded now k text fs c (q, m)).0.0
          (enqueue_recorded now k text fs c (q, m)).0.1
  completes :
      {q : TaskQueue} {m : A2aMetrics} (k response : String)
      → Recorded q m
      → Recorded (complete_recorded k response (q, m)).0 (complete_recorded k response (q, m)).1
  cancels :
      {q : TaskQueue} {m : A2aMetrics} (k : String)
      → Recorded q m
      → Recorded (cancel_recorded k (q, m)).0 (cancel_recorded k (q, m)).1
  starts :
      {q : TaskQueue} {m : A2aMetrics} (k : String)
      → Recorded q m
      → Recorded (mark_processing k q) m
  moves :
      {q : TaskQueue} {m : A2aMetrics} (k : String) (s : TaskState)
      → Recorded q m
      → Recorded (transition k s q).0 m
  delivers :
      {q : TaskQueue} {m : A2aMetrics} (success : Bool)
      → Recorded q m
      → Recorded q (record_webhook_result success m)

-- The counters against the queue's, with the well-formedness that relates those to its tasks.
abbrev Agrees : TaskQueue → A2aMetrics → Type 0
Agrees q m =
    (q.enqueue_count ≡ m.tasks_received)
    × (q.complete_count ≤ m.tasks_completed)
    × (q.cancel_count ≤ m.tasks_canceled)
    × (m.webhook_attempts ≡ m.webhook_successes + m.webhook_failures)
