-- ===== src/Http/Stream/Closing.antt =====
-- hermes_agent_a2a/server.py: no stream outlives the handler that opened it.
use hermes_agent_a2a.Json.{Fields}
use hermes_agent_a2a.Http.Stream.Cached.{
  stream_cached_result, after_working, cached_text, cached_state,
}
use hermes_agent_a2a.Prelude.{
  ℕ, String, ◌≡◌, ◌⊎◌, refl, Bool, true, false, Option, none, some, List, [], ◌∷◌, arith, inl, inr,
  Option-cases, Bool-cases, eq_iff, if◌then◌else◌,
}
use hermes_agent_a2a.Dict.{get}
use hermes_agent_a2a.Dict.Laws.{get-remove}
use hermes_agent_a2a.Queue.State.{TaskState, working}
use hermes_agent_a2a.Queue.Reads.{Status}
use hermes_agent_a2a.Sse.{SseStreamer, close_stream, is_closed, get_pending}
use hermes_agent_a2a.Protocol.{Draws}
use hermes_agent_a2a.Protocol.Parse.{is_terminal_state}
use hermes_agent_a2a.Http.{Env, App}
use hermes_agent_a2a.Http.Tasks.{status_of}
use hermes_agent_a2a.Http.Stream.{
  Wire, Streamed, closed, fresh_wire, after_headers, with_streamer, send_lines, sse_emit,
  after_flush, sse_poll_until_terminal, after_first, stream_known, stream_message, opened,
}

closed_lem :
    (stream_id : String) (s : SseStreamer) → is_closed stream_id (close_stream stream_id s) ≡ true
unfolding close_stream is_closed
closed_lem k s = elim (Option-cases (get k s.streams)) [
  | inl absent ↦ ground (arith, absent)
  | inr (stream, there) ↦ ground (arith, there, get-remove k k s.streams, eq_iff k k)
]

abbrev pub EndsClosed : String → Streamed → Type 0
EndsClosed stream_id x = (x.raised ≡ true) ⊎ (is_closed stream_id x.app.streamer ≡ true)

module _ (alive : ℕ → Bool) (e : Env) (d : Draws) (stream_id task_id : String)
    (context_id : Option String) where
  of_state :
      (a : App) (w : Wire) (rest : Wire → Streamed) (o : Option Status) (b : Bool)
      → is_closed stream_id a.streamer ≡ b
      → ((v : Wire) → EndsClosed stream_id (rest v))
      → EndsClosed stream_id (
          if b then record { app = a; wire = w; raised = false } else elim o [
            | none ↦ record { app = a; wire = w; raised = true }
            | some status ↦
                if is_terminal_state status.state
                then record {
                  app = closed stream_id a;
                  wire = (sse_emit alive e d task_id status.state context_id false w).0;
                  raised = false;
                }
                else rest w
          ])
  of_state a w rest o true h k = inr h
  of_state a w rest none false h k = inl refl
  of_state a w rest (some status) false h k = elim (Bool-cases (is_terminal_state status.state)) [
    | inl e1 ↦ rw e1 (inr (closed_lem stream_id a.streamer))
    | inr e1 ↦ rw e1 (k w)
  ]

  flush_ends :
      (a : App) (rest : Wire → Streamed) (x : Wire × Bool)
      → ((v : Wire) → EndsClosed stream_id (rest v))
      → EndsClosed stream_id (after_flush alive e d stream_id task_id context_id a rest x)
  flush_ends a rest (w, false) k = inr (closed_lem stream_id a.streamer)
  flush_ends a rest (w, true) k =
      of_state a w rest (status_of e task_id a) (is_closed stream_id a.streamer) refl k

  poll_ends :
      (rounds : List (App → App)) (a : App) (w : Wire)
      → EndsClosed stream_id
          (sse_poll_until_terminal alive e d stream_id task_id context_id rounds a w)
  unfolding sse_poll_until_terminal
  poll_ends [] a w = inr (closed_lem stream_id a.streamer)
  poll_ends (others ∷ rounds) a w =
      let x = get_pending stream_id (others a).streamer in
      let a'' : App = with_streamer x.0 (others a) in
      flush_ends a'' (sse_poll_until_terminal alive e d stream_id task_id context_id rounds a'')
        (send_lines alive x.1 w) (poll_ends rounds a'')

  first_ends :
      (state : TaskState) (rounds : List (App → App)) (a : App) (x : Wire × Bool)
      → EndsClosed stream_id (after_first alive e d stream_id task_id state context_id rounds a x)
  first_ends state rounds a (w, false) = inr (closed_lem stream_id a.streamer)
  first_ends state rounds a (w, true) = elim (Bool-cases (is_terminal_state state)) [
    | inl e1 ↦ rw e1 (inr (closed_lem stream_id a.streamer))
    | inr e1 ↦ rw e1 (poll_ends rounds a w)
  ]

cached_ends :
    (alive : ℕ → Bool) (e : Env) (d : Draws) (stream_id task_id context_id : String)
    (state : TaskState) (a : App) (x : Wire × Bool)
    → EndsClosed stream_id (after_working alive e d stream_id task_id context_id state a x)
cached_ends alive e d stream_id task_id context_id state a (w, false) =
    inr (closed_lem stream_id a.streamer)
cached_ends alive e d stream_id task_id context_id state a (w, true) =
    inr (closed_lem stream_id a.streamer)

headers_end :
    (stream_id : String) (sent : Bool) (a : App) (x : Streamed)
    → EndsClosed stream_id x
    → EndsClosed stream_id (after_headers sent a x)
headers_end stream_id true a x h = h
headers_end stream_id false a x h = inl refl

-- However writes fail, and whatever other threads do between the polls, a handler that streams a known
-- task, the task of a message it has taken in, or an earlier result, leaves its stream closed, unless it
-- ends in an exception.
pub streams_end_closed :
    (alive : ℕ → Bool) (e : Env) (sent : Bool) (now : ℕ) (d : Draws)
    (stream_id task_id context_id : String) (result : Fields) (state : TaskState)
    (rounds : List (App → App)) (a : App)
    → EndsClosed stream_id (stream_known alive e sent now d stream_id task_id state rounds a)
      × EndsClosed stream_id
          (stream_message alive e sent now d stream_id task_id context_id rounds a)
      × EndsClosed stream_id (stream_cached_result alive e sent now d stream_id result context_id a)
unfolding stream_known stream_message stream_cached_result
streams_end_closed alive e sent now d stream_id task_id context_id result state rounds a = (
  headers_end stream_id sent _ _ (
      first_ends alive e d stream_id task_id none state rounds
        (opened alive e now stream_id task_id a)
        (sse_emit alive e d task_id state none true fresh_wire)),
  headers_end stream_id sent _ _ (
      first_ends alive e d stream_id task_id (some context_id) working rounds
        (opened alive e now stream_id task_id a)
        (sse_emit alive e d task_id working (some context_id) true fresh_wire)),
  headers_end stream_id sent _ _ (
      cached_ends alive e d stream_id (cached_text "id" result context_id)
        (cached_text "context_id" result context_id) (cached_state result)
        (opened alive e now stream_id (cached_text "id" result context_id) a)
        (sse_emit alive e d (cached_text "id" result context_id) working
          (some (cached_text "context_id" result context_id)) true fresh_wire)),
)
