-- ===== src/Http/Send.antt =====
-- hermes_agent_a2a/server.py: SendMessage over JSON-RPC (`_handle_task_send`, `_rpc_send_message`) and over
-- REST (`_rest_send_message`). A handler is two steps, before and after its wait for the answer, between
-- which other threads run. The webhook that wakes the agent is Webhook's; a message for a remote worker is
-- handed to tool_handlers.py; a result's delivery to webhook subscribers changes no store and is left out.
pub mod Answered
pub mod Lost
use Prim.Native.String.{◌++◌ as append}
use hermes_agent_a2a.Prelude.{
  ℕ, String, Bool, true, false, ◌||◌, Option, none, some, List, [], ◌∷◌, ◌==◌, if◌then◌else◌,
}
use hermes_agent_a2a.Int.{pos}
use hermes_agent_a2a.Json.{
  Json, Fields, null, bool, num, str, arr, obj, end, dict, array, lookup, items, get_or, as_dict,
  is_truthy, text_at, text_of, fields_at,
}
use hermes_agent_a2a.Text.{strip, or_text}
use hermes_agent_a2a.Queue.State.{TaskState, working, completed, failed, Ref}
use hermes_agent_a2a.Queue.Reads.{find_task_by_id}
use hermes_agent_a2a.Sse.{SseStreamer, get_stream_ids_for_task, emit_artifact_event}
use hermes_agent_a2a.Hooks.{state_text, push_to_streams}
use hermes_agent_a2a.Inbound.{
  Server, Request, Times, Outcome, conflict, busy, replayed, enqueued, prepare_and_enqueue,
  finish_wait,
}
use hermes_agent_a2a.Protocol.{Draws, build_task_object}
use hermes_agent_a2a.Http.{Env, App, Moment, Reply, json, rpc_error, plain_error}
use hermes_agent_a2a.Http.Artifacts.{emit_result}
use hermes_agent_a2a.Http.Messages.{extract_text_parts, resolve_sender_name, payload_of, or_end}

-- How the first step ends: in an exception; with the reply of an error already sent; with a task object at
-- once; with the result of an earlier request; handed to a remote worker; or waiting for the task at a
-- reference.
pub data Begun : Type 0 where
  fails remote : Begun
  replied : Reply → Begun
  early earlier : Fields → Begun
  waiting : Request → Ref → Begun

abbrev pub processing : String
processing = "(processing — poll with tasks/get)"

-- `say` is the envelope of an error.
abbrev pub error_sent : (ℕ → String → Fields) → ℕ → ℕ → String → Begun
error_sent say code status message = replied (json status (say code message))

-- The envelope of `_send_rpc_error`, and the one without an id.
abbrev pub rpc_say : Json → ℕ → String → Fields
rpc_say rpc_id code message = rpc_error code message rpc_id null

abbrev pub with_server : Server → App → App
with_server s a = record a { server = s }

-- contextId or metadata["context_id"] or task_id
abbrev pub context_id_of : Fields → Fields → String → String
context_id_of source metadata task_id =
    or_text (text_at "contextId" source) (or_text (text_at "context_id" metadata) task_id)

module _ (e : Env) where
  abbrev pub task_object : Draws → String → TaskState → Option String → String → Fields
  task_object d task_id state context_id response =
      build_task_object e.filter_outbound e.isoformat d task_id state context_id (some response)
        none

  abbrev pub request_of : String → String → String → Fields → Fields → String → Request
  request_of client_ip task_id user_text metadata source context_id =
      let named = resolve_sender_name e.is_alnum metadata source client_ip in
      record {
        task_id = task_id;
        user_text = user_text;
        metadata = named;
        context_id = some context_id;
        idem_key = text_at "idempotencyKey" source;
        idem_payload = payload_of source named;
      }

  abbrev pub after_prepare : (ℕ → String → Fields) → Request → App → Server × Outcome → App × Begun
  after_prepare say req a (s, conflict code status message) =
      (with_server s a, error_sent say code status message)
  after_prepare say req a (s, busy code status message) =
      (with_server s a, error_sent say code status message)
  after_prepare say req a (s, replayed fs) = (with_server s a, earlier fs)
  after_prepare say req a (s, enqueued r) = (with_server s a, waiting req r)

  abbrev pub submit : Moment → (ℕ → String → Fields) → Request → App → App × Begun
  submit m say req a =
      after_prepare say req a (prepare_and_enqueue e.sanitize_inbound e.hash m.times req a.server)

  -- worker_at == "target" or hermes_meta.get("execution") == "remote_subprocess"
  abbrev pub is_remote : Fields → Bool
  is_remote metadata =
      text_of "worker_at" metadata == "target"
      || text_of "execution" (or_end (fields_at "hermes" metadata)) == "remote_subprocess"

  -- The part of `_handle_task_send` after the text of the message.
  abbrev pub send_text : Moment → String → Fields → Json → App → Option String → App × Begun
  send_text m client_ip params rpc_id a none = (a, fails)
  send_text m client_ip params rpc_id a (some user_text) =
      let task_id : String = elim (text_at "id" params) [ some i ↦ i | none ↦ m.task_uuid ] in
      let message = or_end (fields_at "message" params) in
      let metadata = or_end (fields_at "metadata" message) in
      let context_id = context_id_of params metadata task_id in
      if strip user_text == ""
      then (a, early (task_object m.draws task_id failed none "Empty message"))
      else if is_remote metadata
      then (a, remote)
      else if is_truthy
          (get_or "return_immediately" (bool false) (or_end (fields_at "configuration" params)))
      then (a, early (task_object m.draws task_id working (some context_id) processing))
      else submit m (rpc_say rpc_id)
          (request_of client_ip task_id user_text metadata params context_id) a

  unfoldable pub begin_task_send : Moment → String → Fields → Json → App → App × Begun
  unfolding extract_text_parts strip is_truthy resolve_sender_name payload_of prepare_and_enqueue
  begin_task_send m client_ip params rpc_id a =
      send_text m client_ip params rpc_id a
        (extract_text_parts (or_end (fields_at "message" params)))

  -- The answer built at the end of a wait.
  abbrev pub built : Draws → String → Option String → String → Fields
  built d task_id context_id filtered = task_object d task_id completed context_id filtered

  abbrev pub after_wait : App → Server × Option Fields → App × Option Fields
  after_wait a (s, o) = (with_server s a, o)

  -- `_enqueue_and_await_task` once the wait is over, with the time `now` at which a result is kept.
  unfoldable pub end_wait : ℕ → ℕ → Draws → Request → Ref → App → App × Option Fields
  unfolding finish_wait
  end_wait ttl now d req r a =
      after_wait a
        (finish_wait e.sanitize_inbound e.hash e.filter_outbound (built d) ttl now req r a.server)

  -- The rest of `_handle_task_send`.
  unfoldable pub end_task_send : Moment → String → String → Option Fields → App → App × Fields
  unfolding emit_result
  end_task_send m task_id context_id none a =
      (a, task_object m.draws task_id working (some context_id) processing)
  end_task_send m task_id context_id (some answer) a =
      (emit_result e m task_id context_id answer a, answer)

  abbrev pub rest_body : String → TaskState → String → Fields
  rest_body task_id state text = dict (
      ("id", str task_id)
      ∷ ("status", obj (dict (("state", str (state_text state)) ∷ [])))
      ∷ (
        "artifacts",
        arr (
            array (
              obj (
                dict (
                  ("parts", arr (array (obj (dict (("text", str text) ∷ [])) ∷ [])))
                  ∷ ("index", num 0)
                  ∷ []))
              ∷ [])),
      )
      ∷ [])

  abbrev pub rest_text :
      (ℕ → String → Fields) → Moment → String → Fields → App → Option String → App × Begun
  rest_text say m client_ip body a none = (a, fails)
  rest_text say m client_ip body a (some user_text) =
      let message = or_end (fields_at "message" body) in
      let metadata = or_end (fields_at "metadata" message) in
      let task_id = or_text (text_at "id" body) m.task_uuid in
      if strip user_text == ""
      then (a, replied (json 200 (rest_body m.task_uuid failed "Empty message")))
      else submit m say
          (request_of client_ip task_id user_text metadata body
            (context_id_of body metadata task_id))
          a

  -- `_rest_send_message` up to the wait.
  unfoldable pub begin_rest_send : Moment → String → Fields → App → App × Begun
  unfolding extract_text_parts strip resolve_sender_name payload_of prepare_and_enqueue
  begin_rest_send m client_ip body a =
      rest_text (rpc_say null) m client_ip body a
        (extract_text_parts (or_end (fields_at "message" body)))

  -- `_rest_send_message_stream` up to the opening of its stream.
  unfoldable pub begin_rest_stream : Moment → String → Fields → App → App × Begun
  unfolding extract_text_parts strip resolve_sender_name payload_of prepare_and_enqueue
  begin_rest_stream m client_ip body a =
      rest_text plain_error m client_ip body a
        (extract_text_parts (or_end (fields_at "message" body)))

  -- The reply of `_rest_send_message` once it has a result, or has none.
  unfoldable pub rest_send_reply : String → Option Fields → Reply
  rest_send_reply task_id none = json 200 (rest_body task_id working processing)
  rest_send_reply task_id (some answer) =
      json 200 (rest_body task_id completed (text_of "response" answer))
