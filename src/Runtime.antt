-- ===== src/Runtime.antt =====
-- hermes_agent_a2a/runtime_state.py: the counters of `A2AMetrics`, and the operations of task_queue.py
-- with the counters that they record once the queue's lock is released. The singleton that holds
-- them is left out; times are whole seconds.
pub mod Counts
use hermes_agent_a2a.Prelude.{
  ℕ, ◌+◌, ◌-◌, String, Bool, true, false, Option, none, some, if◌then◌else◌,
}
use hermes_agent_a2a.Json.{Fields}
use hermes_agent_a2a.Queue.State.{Ref, TaskQueue}
use hermes_agent_a2a.Queue.Ops.{enqueue, complete, cancel}
use hermes_agent_a2a.Queue.Reads.{pending_count}

pub record A2aMetrics : Type 0 where
  pub webhook_attempts : ℕ
  pub webhook_successes : ℕ
  pub webhook_failures : ℕ
  pub tasks_received : ℕ
  pub tasks_completed : ℕ
  pub tasks_canceled : ℕ
  pub tasks_failed : ℕ
  pub start_time : ℕ

abbrev pub init : ℕ → A2aMetrics
init now = record {
  webhook_attempts = 0;
  webhook_successes = 0;
  webhook_failures = 0;
  tasks_received = 0;
  tasks_completed = 0;
  tasks_canceled = 0;
  tasks_failed = 0;
  start_time = now;
}

abbrev pub record_webhook_attempt : A2aMetrics → A2aMetrics
record_webhook_attempt m = record m { webhook_attempts = m.webhook_attempts + 1 }

abbrev pub record_webhook_success : A2aMetrics → A2aMetrics
record_webhook_success m = record m { webhook_successes = m.webhook_successes + 1 }

abbrev pub record_webhook_failure : A2aMetrics → A2aMetrics
record_webhook_failure m = record m { webhook_failures = m.webhook_failures + 1 }

-- An attempt with its success or failure, in one step.
abbrev pub record_webhook_result : Bool → A2aMetrics → A2aMetrics
record_webhook_result success m =
    let m' = record_webhook_attempt m in
    if success then record_webhook_success m' else record_webhook_failure m'

abbrev pub record_task_received : A2aMetrics → A2aMetrics
record_task_received m = record m { tasks_received = m.tasks_received + 1 }

abbrev pub record_task_completed : A2aMetrics → A2aMetrics
record_task_completed m = record m { tasks_completed = m.tasks_completed + 1 }

abbrev pub record_task_canceled : A2aMetrics → A2aMetrics
record_task_canceled m = record m { tasks_canceled = m.tasks_canceled + 1 }

-- `enqueue` records a task that it has put into the queue.
abbrev pub after_enqueue :
    A2aMetrics → TaskQueue × Option Ref → (TaskQueue × A2aMetrics) × Option Ref
after_enqueue m (q, none) = ((q, m), none)
after_enqueue m (q, some r) = ((q, record_task_received m), some r)

unfoldable pub enqueue_recorded :
    ℕ
    → String
    → String
    → Fields
    → Option String
    → TaskQueue × A2aMetrics
    → (TaskQueue × A2aMetrics) × Option Ref
enqueue_recorded now task_id text metadata context_id (q, m) =
    after_enqueue m (enqueue now task_id text metadata context_id q)

-- `complete` and `cancel` record a task whatever its id.
unfoldable pub complete_recorded : String → String → TaskQueue × A2aMetrics → TaskQueue × A2aMetrics
complete_recorded task_id response (q, m) = (complete task_id response q, record_task_completed m)

unfoldable pub cancel_recorded : String → TaskQueue × A2aMetrics → TaskQueue × A2aMetrics
cancel_recorded task_id (q, m) = (cancel task_id q, record_task_canceled m)
