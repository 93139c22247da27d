-- ===== src/Tests/Streams.antt =====
-- hermes_agent_a2a/sse_handler.py: the theorems on the streams, at a concrete streamer.
use hermes_agent_a2a.Json.{dict, obj, str, end, Json}
use hermes_agent_a2a.Queue.State.{completed, canceled}
use hermes_agent_a2a.Http.Stream.Cached.{cached_state, cached_text}
use hermes_agent_a2a.Prelude.{
  ℕ, ◌+◌, String, ◌≡◌, ◌≢◌, refl, false, none, some, List, [], ◌∷◌, ◌++◌, arith, eq_iff,
}
use hermes_agent_a2a.Dict.{get, IsDistinct}
use hermes_agent_a2a.Sse.{SseEvent, Stream, SseStreamer, sequence_id, push_event, get_pending}
use hermes_agent_a2a.Sse.Fifo.{Push, push_all, lines_of, pending_in_order, shared_event_keeps_id}

abbrev stream : String → String → Stream
stream sid task = record {
  stream_id = sid;
  task_id = task;
  closed = false;
  last_activity = 10;
  pending = [];
  sequence_counter = 0;
  last_id = none;
}

-- Two streams of the task "t1".
abbrev streamer : SseStreamer
streamer = record {
  streams = ("a", stream "a" "t1") ∷ ("b", stream "b" "t1") ∷ [];
  by_task = ("t1", "a" ∷ "b" ∷ []) ∷ [];
}

abbrev event : SseEvent
event = record {
  task_id = "t1";
  state = "working";
  event = "TaskWorking";
  data_fields = end;
  id = none;
  context_id = none;
  kind = "status";
  artifact = none;
  metadata = none;
}

abbrev dumps : Json → String
dumps j = "{}"

abbrev decimal : ℕ → String
decimal n = "1"

abbrev pushes : List Push
pushes =
    (record { now = 11; timestamp = "T"; target = "a"; event = event })
    ∷ (record { now = 12; timestamp = "T"; target = "b"; event = event })
    ∷ []

at_a : get "a" streamer.streams ≡ some (stream "a" "t1")
unfolding get
at_a = refl

at_b : get "b" streamer.streams ≡ some (stream "b" "t1")
unfolding get
at_b = refl

pending_in_order_example :
    let s' : SseStreamer = push_all dumps decimal pushes streamer in
    ((get_pending "a" s').1 ≡ [] ++ lines_of dumps decimal "a" "t1" 0 pushes)
    × ((get_pending "a" (get_pending "a" s').0).1 ≡ [])
pending_in_order_example =
    pending_in_order dumps decimal pushes "a" streamer (stream "a" "t1") at_a refl

abbrev first_stream : String
first_stream = "a"

a_not_b : first_stream ≢ "b"
a_not_b e = ground (arith, (eq_iff first_stream "b").1 e)

shared_event_keeps_id_example :
    let (s', e') = push_event dumps decimal 11 "T" "a" event streamer in
    let s'' : SseStreamer = (push_event dumps decimal 12 "T" "b" e' s').0 in
    (st : Stream) × (get "b" s''.streams ≡ some st)
    × (st.last_id ≡ some (sequence_id dumps decimal "t1" (0 + 1)))
    × (st.sequence_counter ≡ 0)
shared_event_keeps_id_example =
    shared_event_keeps_id dumps decimal 11 12 "T" "T" "a" "b" event streamer (stream "a" "t1")
      (stream "b" "t1") a_not_b refl at_a refl at_b refl

streams-IsDistinct : IsDistinct streamer.streams
unfolding IsDistinct get
streams-IsDistinct = (refl, (refl, tt))

-- A result that names no state, and the ways to read its id.
cached_defaults :
    (cached_state end ≡ completed)
    × (cached_text "id" end "ctx" ≡ "ctx")
    × (cached_state (dict (("status", obj (dict (("state", str "canceled") ∷ []))) ∷ []))
        ≡ canceled)
unfolding cached_state cached_text
cached_defaults = (refl, refl, refl)
