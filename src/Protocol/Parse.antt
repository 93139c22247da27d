-- ===== src/Protocol/Parse.antt =====
-- hermes_agent_a2a/a2a_spec/tasks.py: the payloads of a client, and how it reads a server's answer. An
-- exception is `none`. `py_str` is Python's `str` of a value.
use hermes_agent_a2a.Prelude.{
  ℕ, String, Bool, true, false, Option, none, some, List, [], ◌∷◌, ◌==◌, if◌then◌else◌,
}
use hermes_agent_a2a.Json.{
  Json, Fields, null, bool, num, neg, str, arr, obj, nil, end, dict, array, lookup, assign, as_dict,
  as_text, items, get_or, is_truthy, or_else,
}
use hermes_agent_a2a.Text.{join, strip, or_text}
use hermes_agent_a2a.Queue.State.{TaskState, completed, failed, canceled, rejected}

unfoldable pub is_terminal_state : TaskState → Bool
is_terminal_state completed = true
is_terminal_state failed = true
is_terminal_state canceled = true
is_terminal_state rejected = true
is_terminal_state _ = false

-- The arguments of `build_task_send_payload`.
pub record Sending : Type 0 where
  pub task_id : String
  pub message : String
  pub sender_name : String
  pub intent : String
  pub expected_action : String
  pub skill : Option String
  pub hermes : Option Fields
  pub request_id : Option String

abbrev pub with_skill : Option String → Fields → Fields
with_skill none metadata = metadata
with_skill (some s) metadata = if s == "" then metadata else assign "skill" (str s) metadata

abbrev pub with_hermes : Option Fields → Fields → Fields
with_hermes none metadata = metadata
with_hermes (some h) metadata =
    if is_truthy (obj h) then assign "hermes" (obj h) metadata else metadata

-- `request_uuid` and `message_uuid` are the UUIDs that the call draws.
unfoldable pub build_task_send_payload : String → String → Sending → Fields
build_task_send_payload request_uuid message_uuid s =
    let metadata : Fields = with_hermes s.hermes (
      with_skill s.skill (
        dict (
          ("intent", str s.intent)
          ∷ ("expected_action", str s.expected_action)
          ∷ ("context_scope", str "full")
          ∷ ("sender_name", str s.sender_name)
          ∷ []))) in
    dict (
      ("jsonrpc", str "2.0")
      ∷ ("id", str (or_text s.request_id request_uuid))
      ∷ ("method", str "SendMessage")
      ∷ (
        "params",
        obj (
            dict (
              ("id", str s.task_id)
              ∷ (
                "message",
                obj (
                    dict (
                      ("message_id", str message_uuid)
                      ∷ ("role", num 1)
                      ∷ ("parts", arr (array (obj (dict (("text", str s.message) ∷ [])) ∷ [])))
                      ∷ ("metadata", obj metadata)
                      ∷ [])),
              )
              ∷ [])),
      )
      ∷ [])

unfoldable pub build_task_get_payload : String → String → Option String → Fields
build_task_get_payload request_uuid task_id request_id = dict (
    ("jsonrpc", str "2.0")
    ∷ ("id", str (or_text request_id request_uuid))
    ∷ ("method", str "GetTask")
    ∷ ("params", obj (dict (("id", str task_id) ∷ [])))
    ∷ [])

unfoldable pub build_task_cancel_payload : String → String → Option String → Fields
build_task_cancel_payload request_uuid task_id request_id = dict (
    ("jsonrpc", str "2.0")
    ∷ ("id", str (or_text request_id request_uuid))
    ∷ ("method", str "CancelTask")
    ∷ ("params", obj (dict (("id", str task_id) ∷ [])))
    ∷ [])

-- The text of a part, if it is a dictionary with a text under "text".
abbrev pub part_text : Json → Option String
part_text part = elim (as_dict part) [
  | none ↦ none
  | some fs ↦ elim (lookup "text" fs) [ none ↦ none | some v ↦ as_text v ]
]

unfoldable pub part_texts : List Json → List String
part_texts [] = []
part_texts (p ∷ ps) =
    let rest = part_texts ps in elim (part_text p) [ none ↦ rest | some t ↦ t ∷ rest ]

-- What `for x in v or []` runs through; `none` for a number, and for True. The characters of a text and
-- the keys of a dictionary are texts, which the loops over them skip.
unfoldable pub elements : Json → Option (List Json)
unfolding is_truthy
elements null = some []
elements (bool b) = if b then none else some []
elements (num n) = if is_truthy (num n) then none else some []
elements (neg n) = if is_truthy (neg n) then none else some []
elements (str s) = some []
elements (arr js) = some (items js)
elements (obj fs) = some []

unfoldable pub extract_text_from_parts : Json → Option String
unfolding part_texts elements
extract_text_from_parts parts = elim (elements parts) [
  | none ↦ none
  | some ps ↦ some (strip (join "\n" (part_texts ps)))
]

-- if text: chunks.append(text)
abbrev pub add_chunk : Option String → Option (List String) → Option (List String)
add_chunk none chunks = none
add_chunk (some t) none = none
add_chunk (some t) (some ts) = some (if t == "" then ts else t ∷ ts)

-- The text of the parts of a dictionary, put in front of the chunks; another value adds nothing.
abbrev pub chunk_of : Json → Option (List String) → Option (List String)
chunk_of v chunks = elim (as_dict v) [
  | none ↦ chunks
  | some fs ↦ add_chunk (extract_text_from_parts (get_or "parts" (arr nil) fs)) chunks
]

unfoldable pub artifact_chunks : List Json → Option (List String) → Option (List String)
artifact_chunks [] chunks = chunks
artifact_chunks (v ∷ vs) chunks = chunk_of v (artifact_chunks vs chunks)

-- v.get(k, default) if isinstance(v, dict) else default
abbrev pub field_of : String → Json → Json → Json
field_of k d v = elim (as_dict v) [ none ↦ d | some fs ↦ get_or k d fs ]

pub record TaskResult : Type 0 where
  pub task_id : Json
  pub state : Json
  pub response : String
  pub raw_result : Json

abbrev pub result_of : Json → Json → Json → Option (List String) → Option TaskResult
result_of task_id state raw none = none
result_of task_id state raw (some chunks) = some (record {
  task_id = task_id;
  state = state;
  response = strip (join "\n" chunks);
  raw_result = raw;
})

-- `inner.get("artifacts", [])` raises on a value that is not a dictionary.
unfoldable pub parse_task_result : String → Json → Option TaskResult
unfolding is_truthy elements artifact_chunks
parse_task_result default_task_id answer =
    let rpc_result = or_else answer (obj end) in
    let task = field_of "task" (obj end) rpc_result in
    let inner = or_else task rpc_result in
    let status = field_of "status" (obj end) inner in
    elim (as_dict inner) [
      | none ↦ none
      | some fs ↦ elim (elements (get_or "artifacts" (arr nil) fs)) [
        | none ↦ none
        | some artifacts ↦
            result_of (get_or "id" (str default_task_id) fs)
              (field_of "state" (str "unknown") status) rpc_result
              (artifact_chunks artifacts (
                chunk_of (field_of "message" (obj end) status)
                  (chunk_of (get_or "message" (obj end) fs) (some []))))
      ]
    ]

module _ (py_str : Json → String) where
  -- rpc_error.get("message") or str(rpc_error)
  abbrev pub message_of : Fields → Json
  message_of e = or_else (get_or "message" null e) (str (py_str (obj e)))

  abbrev pub error_text : Json → Json
  error_text e =
      if is_truthy e
      then elim (as_dict e) [ none ↦ str (py_str e) | some fs ↦ message_of fs ]
      else str ""

  unfoldable pub parse_json_rpc_error : Json → Json
  unfolding is_truthy
  parse_json_rpc_error response = error_text (field_of "error" null response)

abbrev pub with_entry : String → Json → Fields → Fields
with_entry k null e = e
with_entry k v e = assign k v e

-- `code` n stands for -n.
unfoldable pub build_error_response : ℕ → String → Json → Json → Fields
build_error_response code message extra rpc_id = with_entry "id" rpc_id (
    with_entry "data" extra
      (dict (("jsonrpc", str "2.0") ∷ ("code", neg code) ∷ ("message", str message) ∷ [])))
