-- ===== src/Protocol.antt =====
-- hermes_agent_a2a/payloads.py: the objects of the protocol that the server sends. `filter_outbound` is
-- the redaction of security.py; what the clock and `uuid4` give to a call comes in as a `Draws`.
pub mod Parse
pub mod RoundTrip
use hermes_agent_a2a.Prelude.{
  ℕ, String, Option, none, some, List, [], ◌∷◌, ◌==◌, if◌then◌else◌, map,
}
use hermes_agent_a2a.Json.{
  Json, Items, Fields, num, str, arr, obj, end, nil, cons, dict, array, assign,
}
use hermes_agent_a2a.Text.{filled, or_text}
use hermes_agent_a2a.Queue.State.{TaskState, PendingTask}
use hermes_agent_a2a.Hooks.{state_text, event_name_for_state}

pub record Draws : Type 0 where
  pub stamp : String
  pub message_id : String
  pub artifact_id : String

unfoldable pub build_status_update_payload : Draws → String → TaskState → Option String → Fields
unfolding state_text event_name_for_state
build_status_update_payload d task_id state context_id = dict (
    ("taskId", str task_id)
    ∷ ("contextId", str (or_text context_id task_id))
    ∷ ("status", obj (dict (("state", str (state_text state)) ∷ ("timestamp", str d.stamp) ∷ [])))
    ∷ ("event", str (event_name_for_state state))
    ∷ [])

unfoldable pub build_message_object : Draws → String → ℕ → Option String → Fields
build_message_object d text role message_id = dict (
    ("message_id", str (or_text message_id d.message_id))
    ∷ ("role", num role)
    ∷ ("parts", arr (if text == "" then nil else array (obj (dict (("text", str text) ∷ [])) ∷ [])))
    ∷ ("metadata", obj end)
    ∷ [])

-- if message_text: status["message"] = ...
unfoldable pub build_task_status : Draws → TaskState → Option String → Option String → Fields
unfolding state_text build_message_object
build_task_status d state message_text timestamp =
    let status : Fields =
      dict
        (("state", str (state_text state)) ∷ ("timestamp", str (or_text timestamp d.stamp)) ∷ []) in
    elim (filled message_text) [
      | none ↦ status
      | some text ↦ assign "message" (obj (build_message_object d text 2 none)) status
    ]

abbrev pub artifacts_of : Draws → String → Json
artifacts_of d text = arr (
    array (
      obj (
        dict (
          ("artifact_id", str d.artifact_id)
          ∷ ("parts", arr (array (obj (dict (("text", str text) ∷ [])) ∷ [])))
          ∷ ("index", num 0)
          ∷ []))
      ∷ []))

-- if filtered: task["artifacts"] = ...
abbrev pub with_artifacts : Draws → Option String → Fields → Fields
with_artifacts d none task = task
with_artifacts d (some text) task = assign "artifacts" (artifacts_of d text) task

module _ (filter_outbound : String → String) where
  abbrev pub filtered : Option String → Option String
  filtered response = elim (filled response) [
    | none ↦ none
    | some text ↦ some (filter_outbound text)
  ]

  -- `isoformat` is the time of a task as a text.
  module _ (isoformat : ℕ → String) where
    abbrev pub stamped : Option ℕ → Fields → Fields
    stamped none status = status
    stamped (some t) status = assign "timestamp" (str (isoformat t)) status

    unfoldable pub build_task_object :
        Draws → String → TaskState → Option String → Option String → Option ℕ → Fields
    unfolding build_task_status
    build_task_object d task_id state context_id response created_at =
        let text = filtered response in
        with_artifacts d (filled text) (
          dict (
            ("id", str task_id)
            ∷ ("context_id", str (or_text context_id task_id))
            ∷ ("status", obj (stamped created_at (build_task_status d state text none)))
            ∷ []))

    unfoldable pub build_task_list_item : Draws → PendingTask → TaskState → Fields
    unfolding build_task_object
    build_task_list_item d t state =
        build_task_object d t.task_id state t.context_id (filtered t.response) (some t.created_at)
