-- ===== src/Queue/Reads.antt =====
-- hermes_agent_a2a/task_queue.py: the operations of `TaskQueue` that only read it.
use hermes_agent_a2a.Prelude.{
  ℕ, ◌-◌, String, Bool, false, ◌||◌, Option, none, some, List, [], ◌∷◌, ◌++◌, map, ◌==◌,
  if◌then◌else◌, contains,
}
use hermes_agent_a2a.Dict.{Dict, get, has, put, values}
use hermes_agent_a2a.Json.{Fields, end}
use hermes_agent_a2a.Queue.State.{
  TaskState, working, completed, canceled, unknown, Ref, PendingTask, TaskQueue,
}
use hermes_agent_a2a.Queue.Ops.{state_or}

-- max(0, enqueued - completed - canceled): `-` on numbers stops at 0 as well
unfoldable pub pending_count : TaskQueue → ℕ
pending_count q = q.enqueue_count - q.complete_count - q.cancel_count

-- `[t for t in self._pending.values() if t.task_id not in skip]`
unfoldable pub idle_tasks : (Ref → PendingTask) → List String → List String → Dict Ref → List Ref
idle_tasks objects exclude processing [] = []
idle_tasks objects exclude processing ((k, r) ∷ d) =
    let rest = idle_tasks objects exclude processing d in
    let tid = (objects r).task_id in
    if contains tid exclude || contains tid processing then rest else r ∷ rest

unfoldable pub drain_pending : List String → TaskQueue → List Ref
unfolding idle_tasks
drain_pending exclude q = idle_tasks q.objects exclude q.processing q.pending

-- The dictionary that `get_status` returns: its "state", and its "response" if it has one.
pub record Status : Type 0 where
  pub state : TaskState
  pub response : Option String

abbrev pub only_state : TaskState → Status
only_state s = record { state = s; response = none }

abbrev pub is_text : Option String → String → Bool
is_text none s = false
is_text (some t) s = t == s

-- `filter_outbound(task.response)` raises on a response that is None.
abbrev pub with_response : (String → String) → Option String → Option Status
with_response filter_outbound none = none
with_response filter_outbound (some s) =
    some (record { state = completed; response = some (filter_outbound s) })

abbrev status_completed : (String → String) → PendingTask → Option TaskState → Option Status
status_completed filter_outbound t known =
    if is_text t.response "(canceled)" then some (only_state canceled) else elim known [
      | some s ↦ some (only_state s)
      | none ↦ with_response filter_outbound t.response
    ]

-- `none` is an exception. `filter_outbound` is the redaction of security.py.
unfoldable pub get_status : (String → String) → String → TaskQueue → Option Status
get_status filter_outbound task_id q =
    if has task_id q.pending
    then some (only_state (state_or working (get task_id q.states)))
    else elim (get task_id q.completed) [
      | some r ↦ status_completed filter_outbound (q.objects r) (get task_id q.states)
      | none ↦ some (only_state (state_or unknown (get task_id q.states)))
    ]

unfoldable pub find_task_by_id : String → TaskQueue → Option Ref
find_task_by_id task_id q = elim (get task_id q.pending) [
  | some r ↦ some r
  | none ↦ get task_id q.completed
]

unfoldable pub get_task_metadata : String → TaskQueue → Fields
unfolding find_task_by_id
get_task_metadata task_id q = elim (find_task_by_id task_id q) [
  | some r ↦ (q.objects r).metadata
  | none ↦ end
]

-- The loop of `get_all_task_metadata`.
unfoldable pub collect_metadata : (Ref → PendingTask) → List Ref → Dict Fields → Dict Fields
collect_metadata objects [] result = result
collect_metadata objects (r ∷ rs) result =
    collect_metadata objects rs (put (objects r).task_id (objects r).metadata result)

unfoldable pub get_all_task_metadata : TaskQueue → Dict Fields
unfolding collect_metadata
get_all_task_metadata q = collect_metadata q.objects (values q.pending ++ values q.completed) []

unfoldable pub get_processing_tasks : TaskQueue → List String
get_processing_tasks q = q.processing

abbrev pub snapshot_entry : TaskQueue → Ref → ℕ × Ref × TaskState
snapshot_entry q r =
    let t = q.objects r in (t.created_at, r, state_or unknown (get t.task_id q.states))

unfoldable pub snapshot : TaskQueue → List (ℕ × Ref × TaskState)
snapshot q = map (snapshot_entry q) (values q.pending ++ values q.completed)
