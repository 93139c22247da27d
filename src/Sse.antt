-- ===== src/Sse.antt =====
-- hermes_agent_a2a/sse_handler.py: the streams of server-sent events. Each call is the block under the
-- lock. `dumps` is the JSON text of a value and `decimal` that of a number; the UUID that
-- `open_stream` draws and the timestamp of a rendered line are arguments.
pub mod Fifo
pub mod Idle
use Prim.Native.String.{◌++◌ as append}
use hermes_agent_a2a.Prelude.{
  ℕ, ◌+◌, String, Bool, true, false, not, ◌&&◌, Option, none, some, List, [], ◌∷◌, ◌++◌, ltb, ◌==◌,
  if◌then◌else◌, contains, is_some,
}
use hermes_agent_a2a.Dict.{Dict, get, put, remove}
use hermes_agent_a2a.Dict.Sweep.{keys_where}
use hermes_agent_a2a.Json.{Json, Fields, str, arr, obj, nil, end, field, lookup}

pub record SseEvent : Type 0 where
  pub task_id : String
  pub state : String
  pub event : String
  pub data_fields : Fields
  pub id : Option String
  pub context_id : Option String
  pub kind : String
  pub artifact : Option Fields
  pub metadata : Option Fields

-- `x or y`, on texts: None and "" are false
abbrev pub text_or : Option String → String → String
text_or none y = y
text_or (some x) y = if x == "" then y else x

-- `x or {}`
abbrev pub fields_or_empty : Option Fields → Fields
fields_or_empty none = end
fields_or_empty (some fs) = fs

abbrev pub value_or : Option Json → Json → Json
value_or none d = d
value_or (some j) d = j

unfoldable pub payload : String → SseEvent → Json
payload timestamp e =
    if e.kind == "artifact"
    then obj (
        field "contextId" (str (text_or e.context_id e.task_id)) (
          field "taskId" (str e.task_id) (
            field "artifact" (obj (fields_or_empty e.artifact))
              (field "metadata" (obj (fields_or_empty e.metadata)) end))))
    else obj (
        field "taskId" (str e.task_id) (
          field "contextId" (str (text_or e.context_id e.task_id)) (
            field "status"
              (obj (
                field "state" (str e.state) (
                  field "message"
                    (value_or (lookup "message" e.data_fields)
                      (obj (field "role" (str "agent") (field "parts" (arr nil) end))))
                    (field "timestamp" (str timestamp) end))))
              (field "metadata" (value_or (lookup "metadata" e.data_fields) (obj end)) end))))

-- `"\n".join(parts) + "\n\n"`; the part of the id is there if the id is neither None nor ""
abbrev pub id_part : Option String → String
id_part none = ""
id_part (some i) = if i == "" then "" else append "id: " (append i "\n")

pub record Stream : Type 0 where
  pub stream_id : String
  pub task_id : String
  pub closed : Bool
  pub last_activity : ℕ
  pub pending : List String
  pub sequence_counter : ℕ
  pub last_id : Option String

pub record SseStreamer : Type 0 where
  pub streams : Dict Stream
  pub by_task : Dict (List String)

abbrev pub or_empty : Option (List String) → List String
or_empty none = []
or_empty (some ids) = ids

-- `list.remove`, which takes the first occurrence
unfoldable pub remove_first : String → List String → List String
remove_first i [] = []
remove_first i (j ∷ js) = let rest = remove_first i js in if j == i then js else j ∷ rest

-- `task_streams = by_task.get(task_id, []); if stream_id in task_streams: task_streams.remove(stream_id)`
unfoldable pub unlink : String → String → Dict (List String) → Dict (List String)
unfolding remove_first
unlink task_id stream_id by_task = elim (get task_id by_task) [
  | none ↦ by_task
  | some ids ↦
      if contains stream_id ids then put task_id (remove_first stream_id ids) by_task else by_task
]

unfoldable pub open_stream : ℕ → String → String → SseStreamer → SseStreamer × String
open_stream now stream_id task_id s =
    let stream : Stream = record {
      stream_id = stream_id;
      task_id = task_id;
      closed = false;
      last_activity = now;
      pending = [];
      sequence_counter = 0;
      last_id = none;
    } in
    (
      record {
        streams = put stream_id stream s.streams;
        by_task = put task_id (or_empty (get task_id s.by_task) ++ stream_id ∷ []) s.by_task;
      },
      stream_id,
    )

unfoldable pub close_stream : String → SseStreamer → SseStreamer
unfolding unlink
close_stream stream_id s = elim (get stream_id s.streams) [
  | none ↦ s
  | some stream ↦ record {
    streams = remove stream_id s.streams;
    by_task = unlink stream.task_id stream_id s.by_task;
  }
]

unfoldable pub get_pending : String → SseStreamer → SseStreamer × List String
get_pending stream_id s = elim (get stream_id s.streams) [
  | none ↦ (s, [])
  | some stream ↦ (
    record s { streams = put stream_id (record stream { pending = [] }) s.streams },
    stream.pending,
  )
]

unfoldable pub is_closed : String → SseStreamer → Bool
is_closed stream_id s = elim (get stream_id s.streams) [ none ↦ true | some stream ↦ stream.closed ]

unfoldable pub get_stream_ids_for_task : String → SseStreamer → List String
get_stream_ids_for_task task_id s = or_empty (get task_id s.by_task)

-- One round of the cleanup at the time `now`: the streams that it closes, and the loop over them.
abbrev pub is_idle : ℕ → ℕ → Stream → Bool
is_idle idle_timeout now stream = not stream.closed && ltb (stream.last_activity + idle_timeout) now

unfoldable pub close_all : List String → SseStreamer → SseStreamer
unfolding close_stream
close_all [] s = s
close_all (i ∷ ids) s = close_all ids (close_stream i s)

unfoldable pub close_idle_streams : ℕ → ℕ → SseStreamer → SseStreamer
unfolding close_all
close_idle_streams idle_timeout now s =
    close_all (keys_where (is_idle idle_timeout now) s.streams) s

unfoldable pub emit_artifact_event : String → String → Fields → Option Fields → SseEvent
emit_artifact_event task_id context_id artifact metadata = record {
  task_id = task_id;
  state = "artifact";
  event = "TaskArtifactUpdate";
  data_fields = end;
  id = none;
  context_id = some context_id;
  kind = "artifact";
  artifact = some artifact;
  metadata = metadata;
}

module _ (dumps : Json → String) (decimal : ℕ → String) where
  unfoldable pub to_sse_line : String → SseEvent → String
  unfolding payload
  to_sse_line timestamp e = append (id_part e.id) (
      append (append "event: " e.event)
        (append "\ndata: " (append (dumps (payload timestamp e)) "\n\n")))

  -- f"{stream.task_id}_{stream.sequence_counter}"
  abbrev pub sequence_id : String → ℕ → String
  sequence_id task_id n = append task_id (append "_" (decimal n))

  -- The event with its id, which the call writes into the event object, and the counter after it.
  unfoldable pub assign_id : Stream → SseEvent → SseEvent × ℕ
  assign_id stream e = elim e.id [
    | some i ↦ (e, stream.sequence_counter)
    | none ↦
        let n = stream.sequence_counter + 1 in
        (record e { id = some (sequence_id stream.task_id n) }, n)
  ]

  abbrev pub deliver : ℕ → String → Stream → SseEvent × ℕ → Stream
  deliver now timestamp stream (e, n) = record stream {
    last_activity = now;
    sequence_counter = n;
    last_id = e.id;
    pending = stream.pending ++ to_sse_line timestamp e ∷ [];
  }

  -- The streamer, and the event object as the call leaves it.
  unfoldable pub push_event : ℕ → String → String → SseEvent → SseStreamer → SseStreamer × SseEvent
  unfolding assign_id to_sse_line
  push_event now timestamp stream_id e s = elim (get stream_id s.streams) [
    | none ↦ (s, e)
    | some stream ↦ if stream.closed then (s, e) else (
      record s {
        streams = put stream_id (deliver now timestamp stream (assign_id stream e)) s.streams;
      },
      (assign_id stream e).0,
    )
  ]
