-- ===== src/Http/Stream.antt =====
-- hermes_agent_a2a/server.py: the SSE endpoints: `_sse_emit`, `_sse_poll_until_terminal`,
-- `_stream_task_sse`, `_handle_send_subscribe` and the stream of `_rest_send_message_stream`. A write to a client that is
-- gone fails; `alive n` says whether the n-th one succeeds, and `sent` whether the headers go out. The loop polls once for each entry of a list,
-- which is what the other threads do to the stores before that poll; at the end of the list the deadline
-- has passed.
pub mod Cached
pub mod Closing
use Prim.Native.String.{◌++◌ as append}
use hermes_agent_a2a.Prelude.{
  ℕ, ◌+◌, String, Bool, true, false, Option, none, some, List, [], ◌∷◌, ◌++◌, ◌==◌, if◌then◌else◌,
}
use hermes_agent_a2a.Queue.Reads.{Status}
use hermes_agent_a2a.Protocol.Parse.{build_error_response, is_terminal_state}
use hermes_agent_a2a.Http.{json, error_reply, Env, App, Reply}
use hermes_agent_a2a.Json.{
  dict, text_of, Json, Fields, str, obj, end, lookup, null, get_or, as_dict, text_at, fields_at,
}
use hermes_agent_a2a.Text.{strip, or_text}
use hermes_agent_a2a.Queue.State.{TaskState, working, completed, failed, unknown, same_state}
use hermes_agent_a2a.Sse.{SseStreamer, open_stream, close_stream, get_pending, is_closed}
use hermes_agent_a2a.Hooks.{event_name_for_state}
use hermes_agent_a2a.Protocol.{Draws, build_status_update_payload}
use hermes_agent_a2a.Http.Tasks.{status_of}

-- The lines that the client got, and how many writes were tried.
pub record Wire : Type 0 where
  pub lines : List String
  pub tried : ℕ

abbrev pub fresh_wire : Wire
fresh_wire = record { lines = []; tried = 0 }

abbrev pub with_streamer : SseStreamer → App → App
with_streamer s a = record a { streamer = s }

abbrev pub closed : String → App → App
closed stream_id a = with_streamer (close_stream stream_id a.streamer) a

-- What a streaming handler leaves: the stores, what the client got, and whether it ends in an exception.
pub record Streamed : Type 0 where
  pub app : App
  pub wire : Wire
  pub raised : Bool

abbrev pub finished : App → Wire → Streamed
finished a w = record { app = a; wire = w; raised = false }

-- What a request for a stream comes to: another reply, a stream, or an exception before it.
pub data SseAnswer : Type 0 where
  replied : Reply → SseAnswer
  streamed : Streamed → SseAnswer
  broke : SseAnswer

-- The headers of a stream are written after it is opened; if that fails, the handler ends in an exception.
abbrev pub after_headers : Bool → App → Streamed → Streamed
after_headers true a rest = rest
after_headers false a rest = record { app = a; wire = fresh_wire; raised = true }

module _ (alive : ℕ → Bool) where
  abbrev pub send_line : String → Wire → Wire × Bool
  send_line line w =
      if alive w.tried
      then (record { lines = w.lines ++ line ∷ []; tried = w.tried + 1 }, true)
      else (record w { tried = w.tried + 1 }, false)

  -- The lines in order, up to the first write that fails.
  unfoldable pub send_lines : List String → Wire → Wire × Bool
  send_lines [] w = (w, true)
  send_lines (line ∷ lines) w =
      let (w', ok) = send_line line w in
      let rest = send_lines lines w' in if ok then rest else (w', false)

  module _ (e : Env) where
    abbrev pub event_lines : Draws → String → TaskState → Option String → List String
    event_lines d task_id state context_id =
        append "event: " (append (event_name_for_state state) "\n")
        ∷ append "data: "
            (append (e.dumps (obj (build_status_update_payload d task_id state context_id))) "\n\n")
        ∷ []

    unfoldable pub sse_emit : Draws → String → TaskState → Option String → Bool → Wire → Wire × Bool
    unfolding send_lines build_status_update_payload
    sse_emit d task_id state context_id with_id w =
        let lines = event_lines d task_id state context_id in
        send_lines (if with_id then append "id: " (append d.message_id "\n") ∷ lines else lines) w

    abbrev pub timed_out : String
    timed_out = "event: error\ndata: {\"code\": -38000, \"message\": \"SSE stream timed out\"}\n\n"

    -- One poll, once the pending lines are taken and sent; `rest` is the rest of the loop.
    abbrev pub after_flush :
        Draws → String → String → Option String → App → (Wire → Streamed) → Wire × Bool → Streamed
    after_flush d stream_id task_id context_id a rest (w, false) = finished (closed stream_id a) w
    after_flush d stream_id task_id context_id a rest (w, true) =
        if is_closed stream_id a.streamer then finished a w else elim (status_of e task_id a) [
          | none ↦ record { app = a; wire = w; raised = true }
          | some status ↦
              if is_terminal_state status.state
              then finished (closed stream_id a)
                  (sse_emit d task_id status.state context_id false w).0
              else rest w
        ]

    unfoldable pub sse_poll_until_terminal :
        Draws → String → String → Option String → List (App → App) → App → Wire → Streamed
    unfolding sse_emit is_terminal_state get_pending close_stream is_closed
    sse_poll_until_terminal d stream_id task_id context_id [] a w =
        finished (closed stream_id a) (send_line timed_out w).0
    sse_poll_until_terminal d stream_id task_id context_id (others ∷ rounds) a w =
        let a' = others a in
        let (s, pending) = get_pending stream_id a'.streamer in
        let a'' = with_streamer s a' in
        after_flush d stream_id task_id context_id a''
          (sse_poll_until_terminal d stream_id task_id context_id rounds a'') (send_lines pending w)

    -- The stream of a task from its first event on.
    abbrev pub after_first :
        Draws
        → String
        → String
        → TaskState
        → Option String
        → List (App → App)
        → App
        → Wire × Bool
        → Streamed
    after_first d stream_id task_id state context_id rounds a (w, false) =
        finished (closed stream_id a) w
    after_first d stream_id task_id state context_id rounds a (w, true) =
        if is_terminal_state state
        then finished (closed stream_id a) w
        else sse_poll_until_terminal d stream_id task_id context_id rounds a w

    abbrev pub opened : ℕ → String → String → App → App
    opened now stream_id task_id a =
        with_streamer (open_stream now stream_id task_id a.streamer).0 a

    -- `_stream_task_sse` of a task with this state on record, which is not "unknown".
    unfoldable pub stream_known :
        Bool → ℕ → Draws → String → String → TaskState → List (App → App) → App → Streamed
    unfolding sse_poll_until_terminal open_stream
    stream_known sent now d stream_id task_id state rounds a =
        let a' = opened now stream_id task_id a in
        after_headers sent a' (
          after_first d stream_id task_id state none rounds a'
            (sse_emit d task_id state none true fresh_wire))

    -- `_rest_send_message_stream` once its task is taken in.
    unfoldable pub stream_message :
        Bool → ℕ → Draws → String → String → String → List (App → App) → App → Streamed
    unfolding sse_poll_until_terminal open_stream
    stream_message sent now d stream_id task_id context_id rounds a =
        let a' = opened now stream_id task_id a in
        after_headers sent a' (
          after_first d stream_id task_id working (some context_id) rounds a'
            (sse_emit d task_id working (some context_id) true fresh_wire))

    -- `_stream_task_sse`; a task that is not known gets a 404 instead.
    abbrev pub of_status :
        Bool → ℕ → Draws → String → String → List (App → App) → App → Option Status → SseAnswer
    of_status sent now d stream_id task_id rounds a none = broke
    of_status sent now d stream_id task_id rounds a (some status) =
        if same_state status.state unknown
        then replied (error_reply 404 38000 (append "Task not found: " task_id))
        else streamed (stream_known sent now d stream_id task_id status.state rounds a)

    unfoldable pub stream_task_sse :
        Bool → ℕ → Draws → String → String → List (App → App) → App → SseAnswer
    unfolding stream_known
    stream_task_sse sent now d stream_id task_id rounds a =
        of_status sent now d stream_id task_id rounds a (status_of e task_id a)

    abbrev pub rpc_refused : Json → ℕ → String → SseAnswer
    rpc_refused rpc_id code message = replied (
        json 200 (
          dict (
            ("jsonrpc", str "2.0")
            ∷ ("id", rpc_id)
            ∷ ("error", obj (build_error_response code message null rpc_id))
            ∷ [])))

    -- The JSON-RPC side of SubscribeToTask: an unknown task is told in a JSON-RPC error.
    abbrev pub of_rpc_status :
        Bool
        → ℕ
        → Draws
        → String
        → String
        → Json
        → List (App → App)
        → App
        → Option Status
        → SseAnswer
    of_rpc_status sent now d stream_id task_id rpc_id rounds a none = broke
    of_rpc_status sent now d stream_id task_id rpc_id rounds a (some status) =
        if same_state status.state unknown
        then rpc_refused rpc_id 38000 (append "Task not found: " task_id)
        else stream_task_sse sent now d stream_id task_id rounds a

    unfoldable pub handle_send_subscribe :
        Bool → ℕ → Draws → String → Fields → Json → List (App → App) → App → SseAnswer
    unfolding stream_task_sse build_error_response
    handle_send_subscribe sent now d stream_id params rpc_id rounds a =
        let task_id = text_of "taskId" params in
        if task_id == ""
        then rpc_refused rpc_id 32600 "Invalid Request: taskId is required"
        else of_rpc_status sent now d stream_id task_id rpc_id rounds a (status_of e task_id a)
