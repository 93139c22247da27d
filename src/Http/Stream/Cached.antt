-- ===== src/Http/Stream/Cached.antt =====
-- hermes_agent_a2a/server.py: `_stream_cached_result`, the stream of a request that is answered from the
-- idempotency store.
use hermes_agent_a2a.Prelude.{
  ℕ, String, Bool, true, false, Option, none, some, List, [], ◌∷◌, ◌==◌, if◌then◌else◌,
}
use hermes_agent_a2a.Json.{Fields, lookup, as_dict, as_text, text_at, fields_at}
use hermes_agent_a2a.Text.{or_text}
use hermes_agent_a2a.Queue.State.{
  TaskState, submitted, working, input_required, auth_required, authenticated, completed, failed,
  canceled, rejected, unknown,
}
use hermes_agent_a2a.Hooks.{state_text}
use hermes_agent_a2a.Protocol.{Draws}
use hermes_agent_a2a.Http.{Env, App}
use hermes_agent_a2a.Http.Stream.{
  Wire, Streamed, closed, finished, fresh_wire, after_headers, sse_emit, opened,
}

unfoldable pub named_state : List TaskState → String → TaskState
unfolding state_text
named_state [] name = unknown
named_state (s ∷ ss) name =
    let rest = named_state ss name in if state_text s == name then s else rest

abbrev pub all_states : List TaskState
all_states =
    submitted ∷ working ∷ input_required ∷ auth_required ∷ authenticated ∷ completed ∷ failed
    ∷ canceled ∷ rejected ∷ []

-- cached_result.get("status", {}).get("state", "completed"); a text that names no state is read as
-- "unknown", and the results that the server keeps have none.
abbrev pub state_in : Option Fields → TaskState
state_in none = completed
state_in (some status) = elim (text_at "state" status) [
  | none ↦ completed
  | some name ↦ named_state all_states name
]

unfoldable pub cached_state : Fields → TaskState
unfolding named_state lookup as_dict as_text
cached_state result = state_in (fields_at "status" result)

unfoldable pub cached_text : String → Fields → String → String
unfolding lookup as_text
cached_text key result fallback = or_text (text_at key result) fallback

module _ (alive : ℕ → Bool) (e : Env) where
  abbrev pub after_working :
      Draws → String → String → String → TaskState → App → Wire × Bool → Streamed
  after_working d stream_id task_id context_id state a (w, false) = finished (closed stream_id a) w
  after_working d stream_id task_id context_id state a (w, true) =
      finished (closed stream_id a) (sse_emit alive e d task_id state (some context_id) false w).0

  unfoldable pub stream_cached_result : Bool → ℕ → Draws → String → Fields → String → App → Streamed
  unfolding sse_emit cached_state cached_text
  stream_cached_result sent now d stream_id result fallback a =
      let task_id = cached_text "id" result fallback in
      let context_id = cached_text "context_id" result fallback in
      let a' = opened alive e now stream_id task_id a in
      after_headers sent a' (
        after_working d stream_id task_id context_id (cached_state result) a'
          (sse_emit alive e d task_id working (some context_id) true fresh_wire))
