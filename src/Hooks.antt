-- ===== src/Hooks.antt =====
-- hermes_agent_a2a/hooks.py: the gateway's hooks around a turn of the model, and what a change of a
-- task's state sends out. The queue always exists (runtime_state.py makes it on demand); logging and
-- the saved conversation are left out. `py_str` is Python's `str` of a JSON value.
pub mod Turn
use Prim.Native.String.{◌++◌ as append}
use hermes_agent_a2a.Prelude.{
  ℕ, String, Bool, true, false, Option, none, some, List, [], ◌∷◌, ◌==◌, if◌then◌else◌, map,
}
use hermes_agent_a2a.Json.{Json, Fields, str, obj, end, field, lookup}
use hermes_agent_a2a.Queue.State.{
  TaskState, submitted, working, input_required, auth_required, authenticated, completed, failed,
  canceled, rejected, unknown, Ref, PendingTask, TaskQueue,
}
use hermes_agent_a2a.Queue.Ops.{transition, mark_processing, requeue_tasks, complete}
use hermes_agent_a2a.Queue.Reads.{Status, drain_pending, get_status, get_processing_tasks}
use hermes_agent_a2a.Subscriptions.{Subscription, SubscriptionStore, get_subscriptions}
use hermes_agent_a2a.Sse.{SseEvent, SseStreamer, push_event, get_stream_ids_for_task}

unfoldable pub state_text : TaskState → String
state_text submitted = "submitted"
state_text working = "working"
state_text input_required = "input_required"
state_text auth_required = "auth_required"
state_text authenticated = "authenticated"
state_text completed = "completed"
state_text failed = "failed"
state_text canceled = "canceled"
state_text rejected = "rejected"
state_text unknown = "unknown"

unfoldable pub event_name_for_state : TaskState → String
event_name_for_state working = "TaskStarted"
event_name_for_state completed = "TaskCompleted"
event_name_for_state failed = "TaskFailed"
event_name_for_state canceled = "TaskCanceled"
event_name_for_state rejected = "TaskRejected"
event_name_for_state auth_required = "TaskAuthRequired"
event_name_for_state authenticated = "TaskAuthenticated"
event_name_for_state submitted = "TaskSubmitted"
event_name_for_state _ = "TaskUpdated"

-- A call of `_trigger_state_change_hook`.
pub record Change : Type 0 where
  pub task_id : String
  pub old_state : TaskState
  pub new_state : TaskState
  pub context_id : Option String

-- `context_id or task_id`
abbrev pub context_or : Option String → String → String
context_or none task_id = task_id
context_or (some c) task_id = if c == "" then task_id else c

unfoldable pub event_of : Change → SseEvent
unfolding event_name_for_state state_text
event_of ch = record {
  task_id = ch.task_id;
  state = state_text ch.new_state;
  event = event_name_for_state ch.new_state;
  data_fields = end;
  id = none;
  context_id = some (context_or ch.context_id ch.task_id);
  kind = "status";
  artifact = none;
  metadata = none;
}

unfoldable pub notification : String → Change → Fields
unfolding event_name_for_state state_text
notification timestamp ch = field "taskId" (str ch.task_id) (
    field "contextId" (str (context_or ch.context_id ch.task_id)) (
      field "status"
        (obj
          (field "state" (str (state_text ch.new_state)) (field "timestamp" (str timestamp) end)))
        (field "event" (str (event_name_for_state ch.new_state)) end)))

module _ (dumps : Json → String) (decimal : ℕ → String) where
  -- The loop of `_push_sse`: one event object goes to all streams of the task.
  unfoldable pub push_to_streams : ℕ → String → List String → SseEvent → SseStreamer → SseStreamer
  push_to_streams now timestamp [] e s = s
  push_to_streams now timestamp (sid ∷ sids) e s =
      let (s', e') = push_event dumps decimal now timestamp sid e s in
      push_to_streams now timestamp sids e' s'

  unfoldable pub push_sse : ℕ → String → Change → SseStreamer → SseStreamer
  unfolding push_to_streams event_of
  push_sse now timestamp ch s =
      push_to_streams now timestamp (get_stream_ids_for_task ch.task_id s) (event_of ch) s

-- `_push_notifications`: the answer for each subscription. `deliver url payload key` is
-- `deliver_with_retry` of Push; a call that raises is a False.
unfoldable pub push_notifications :
    (String → Fields → String → Bool) → String → Change → SubscriptionStore → List (String × Bool)
unfolding notification
push_notifications deliver timestamp ch s =
    map
      (λ (sub : Subscription).
        (sub.subscription_id, deliver sub.url (notification timestamp ch) sub.hmac_key))
      (get_subscriptions ch.task_id s)

abbrev pub sender_of : (Json → String) → Option Json → String
sender_of py_str none = "unknown"
sender_of py_str (some j) = py_str j

abbrev pub context_of : (Json → String) → PendingTask → String
context_of py_str t = append "[A2A trigger]<" (
    append t.task_id (
      append ">|<" (
        append (sender_of py_str (lookup "sender_name" t.metadata)) (
          append ">|"
            (append t.text "\nUse the tools above to respond to this inbound A2A task.")))))

-- What `pre_llm_call` hands to the model, and the state change that it announces.
pub record Injection : Type 0 where
  pub context : String
  pub change : Change

-- `pending[0]` and `pending[1:]`
unfoldable pub take_up : (Json → String) → List Ref → TaskQueue → TaskQueue × Option Injection
take_up py_str [] q = (q, none)
take_up py_str (r ∷ rest) q =
    let t = q.objects r in
    let q' = mark_processing t.task_id (transition t.task_id working q).0 in
    (
      requeue_tasks rest q',
      some (record {
        context = context_of py_str t;
        change = record {
          task_id = t.task_id;
          old_state = submitted;
          new_state = working;
          context_id = t.context_id;
        };
      }),
    )

unfoldable pub pre_llm_call : (Json → String) → TaskQueue → TaskQueue × Option Injection
unfolding take_up
pre_llm_call py_str q = take_up py_str (drain_pending [] q) q

-- A text that is neither None nor "".
abbrev pub truthy : Option String → Option String
truthy none = none
truthy (some s) = if s == "" then none else some s

abbrev pub first : List String → Option String
first [] = none
first (x ∷ xs) = some x

abbrev pub target_or : Option String → Option String → Option String
target_or none fallback = fallback
target_or (some k) fallback = some k

-- `get_status`, `complete` and the hook. `none` is an exception of `get_status`.
unfoldable pub respond :
    (String → String) → String → String → TaskQueue → Option (TaskQueue × Option Change)
respond filter_outbound target response q = elim (get_status filter_outbound target q) [
  | none ↦ none
  | some st ↦ some (
    complete target response q,
    some (record {
      task_id = target;
      old_state = st.state;
      new_state = completed;
      context_id = some target;
    }),
  )
]

-- `post_llm_call` with its `assistant_response` and `task_id`. The processing tasks are a set, so which is
-- the first is up to the order of the list. With no target there is no processing task for the last
-- branch either.
unfoldable pub post_llm_call :
    (String → String)
    → Option String
    → Option String
    → TaskQueue
    → Option (TaskQueue × Option Change)
unfolding respond
post_llm_call filter_outbound assistant_response task_id q = elim (truthy assistant_response) [
  | none ↦ some (q, none)
  | some response ↦ elim (target_or (truthy task_id) (first (get_processing_tasks q))) [
    | some target ↦ respond filter_outbound target response q
    | none ↦ elim (first (get_processing_tasks q)) [
      | some target ↦ respond filter_outbound target response q
      | none ↦ some (q, none)
    ]
  ]
]
