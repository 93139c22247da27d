-- ===== src/Sse/Fifo.antt =====
-- hermes_agent_a2a/sse_handler.py: a reader of a stream gets its lines in order, numbered, and once.
use Prim.Native.String.{◌++◌ as append}
use hermes_agent_a2a.Prelude.{
  ℕ, ◌+◌, String, ◌≡◌, ◌≢◌, refl, sym, ap, ◌∙◌, false, Option, none, some, List, [], ◌∷◌, ◌++◌,
  arith, eq_iff, eq_refl, ◌==◌, if◌then◌else◌, Bool-cases, Option-cases, inl, inr,
}
use hermes_agent_a2a.Dict.{get, put}
use hermes_agent_a2a.Dict.Laws.{get-put}
use hermes_agent_a2a.Json.{Json}
use hermes_agent_a2a.Sse.{
  SseEvent, Stream, SseStreamer, to_sse_line, sequence_id, assign_id, deliver, push_event,
  get_pending,
}

-- A push of an event, and the arguments of the call.
pub record Push : Type 0 where
  pub now : ℕ
  pub timestamp : String
  pub target : String
  pub event : SseEvent

append_assoc : (xs ys zs : List String) → (xs ++ ys) ++ zs ≡ xs ++ (ys ++ zs)
append_assoc [] ys zs = refl
append_assoc (x ∷ xs) ys zs = ap (λ (l : List String). x ∷ l) (append_assoc xs ys zs)

append_nil : (xs : List String) → xs ++ [] ≡ xs
append_nil [] = refl
append_nil (x ∷ xs) = ap (λ (l : List String). x ∷ l) (append_nil xs)

module _ (dumps : Json → String) (decimal : ℕ → String) where
  unfoldable pub push_all : List Push → SseStreamer → SseStreamer
  push_all [] s = s
  push_all (p ∷ ps) s =
      push_all ps (push_event dumps decimal p.now p.timestamp p.target p.event s).0

  -- The event as it is sent on a stream that has numbered `n` events, and the count after it: an
  -- event without an id gets the next number.
  abbrev pub numbered : String → ℕ → SseEvent → Option String → SseEvent × ℕ
  numbered task n e (some i) = (e, n)
  numbered task n e none =
      (record e { id = some (append task (append "_" (decimal (n + 1)))) }, n + 1)

  -- The lines that the pushes come to on the stream `sid`.
  unfoldable pub lines_of : String → String → ℕ → List Push → List String
  lines_of sid task n [] = []
  lines_of sid task n (p ∷ ps) =
      let (e, n') = numbered task n p.event p.event.id in
      let here = to_sse_line dumps decimal p.timestamp e ∷ lines_of sid task n' ps in
      let there = lines_of sid task n ps in if p.target == sid then here else there

  assign_numbered :
      (stream : Stream) (e : SseEvent)
      → assign_id dumps decimal stream e ≡ numbered stream.task_id stream.sequence_counter e e.id
  unfolding assign_id
  assign_numbered stream e = elim (Option-cases e.id) [
    | inl fresh ↦ rw fresh refl
    | inr (i, has_id) ↦ rw has_id refl
  ]

  push_hit :
      (now : ℕ) (timestamp sid : String) (e : SseEvent) (s : SseStreamer) (stream : Stream)
      → get sid s.streams ≡ some stream
      → stream.closed ≡ false
      → (push_event dumps decimal now timestamp sid e s).0.streams
        ≡ put sid
            (deliver dumps decimal now timestamp stream (assign_id dumps decimal stream e))
            s.streams
  unfolding push_event
  push_hit now timestamp sid e s stream there opened = ground (arith, there, opened)

  get-push_event :
      (p : Push) (sid : String) (s : SseStreamer) (stream : Stream)
      → get sid s.streams ≡ some stream
      → stream.closed ≡ false
      → get sid (push_event dumps decimal p.now p.timestamp p.target p.event s).0.streams ≡ (
          if p.target == sid
          then some (
              deliver dumps decimal p.now p.timestamp stream
                (assign_id dumps decimal stream p.event))
          else some stream)
  unfolding push_event
  get-push_event p sid s stream there opened = elim (Bool-cases (p.target == sid)) [
    | inl same ↦
        let next : Stream =
          deliver dumps decimal p.now p.timestamp stream (assign_id dumps decimal stream p.event) in
        ap
          (λ (t : String).
            get sid (push_event dumps decimal p.now p.timestamp t p.event s).0.streams)
          ((eq_iff p.target sid).0 same)
        ∙ ap (get sid) (push_hit p.now p.timestamp sid p.event s stream there opened)
        ∙ ground (arith, get-put sid sid next s.streams, eq_refl sid, same)
    | inr other ↦ elim (Option-cases (get p.target s.streams)) [
      | inl absent ↦ ground (arith, absent, there, other)
      | inr (st, found) ↦ elim (Bool-cases st.closed) [
        | inl shut ↦ ground (arith, found, shut, there, other)
        | inr live ↦ ground (
          arith,
          found,
          live,
          there,
          other,
          get-put p.target sid
              (deliver dumps decimal p.now p.timestamp st (assign_id dumps decimal st p.event))
              s.streams,
        )
      ]
    ]
  ]

  pushed :
      (ps : List Push) (sid : String) (s : SseStreamer) (stream : Stream)
      → get sid s.streams ≡ some stream
      → stream.closed ≡ false
      → (st : Stream) × (get sid (push_all ps s).streams ≡ some st)
        × (st.pending ≡ stream.pending ++ lines_of sid stream.task_id stream.sequence_counter ps)
  unfolding push_all lines_of
  pushed [] sid s stream there opened = (stream, there, sym (append_nil stream.pending))
  pushed (p ∷ ps) sid s stream there opened =
      let s' : SseStreamer = (push_event dumps decimal p.now p.timestamp p.target p.event s).0 in
      let task : String = stream.task_id in
      elim (Bool-cases (p.target == sid)) [
        | inl same ↦
            let next : Stream =
              deliver dumps decimal p.now p.timestamp stream
                (assign_id dumps decimal stream p.event) in
            let found : get sid s'.streams ≡ some next =
              ground (arith, get-push_event p sid s stream there opened, same) in
            let (st, there', lines) = pushed ps sid s' next found opened in
            let after : SseEvent × ℕ → List String = λ (x : SseEvent × ℕ).
              (stream.pending ++ to_sse_line dumps decimal p.timestamp x.0 ∷ [])
              ++ lines_of sid task x.1 ps in
            let num : SseEvent × ℕ = numbered task stream.sequence_counter p.event p.event.id in
            (
              st,
              there',
              lines
                  ∙ ap after (assign_numbered stream p.event)
                  ∙ append_assoc stream.pending (to_sse_line dumps decimal p.timestamp num.0 ∷ [])
                      (lines_of sid task num.1 ps)
                  ∙ rw same refl,
            )
        | inr other ↦
            let found : get sid s'.streams ≡ some stream =
              ground (arith, get-push_event p sid s stream there opened, other) in
            let (st, there', lines) = pushed ps sid s' stream found opened in
            (st, there', lines ∙ rw other refl)
      ]

  get_pending_twice :
      (sid : String) (s : SseStreamer) (st : Stream)
      → get sid s.streams ≡ some st
      → ((get_pending sid s).1 ≡ st.pending) × ((get_pending sid (get_pending sid s).0).1 ≡ [])
  unfolding get_pending
  get_pending_twice sid s st there =
      let empty : Stream = record st { pending = [] } in
      let left : (get_pending sid s).0 ≡ record s { streams = put sid empty s.streams } =
        ground (arith, there) in
      let found : get sid (get_pending sid s).0.streams ≡ some empty =
        ap (λ (x : SseStreamer). get sid x.streams) left
        ∙ ground (arith, get-put sid sid empty s.streams, eq_refl sid) in
      (ground (arith, there), ground (arith, found))

  -- Reading a stream after any pushes, to it and to others, gives what was pending on it and then the
  -- lines pushed to it, in order, each once: events without an id are numbered one after the other. A
  -- second read gives nothing. The stream is open, and each push is of an event object of its own.
  pub pending_in_order :
      (ps : List Push) (sid : String) (s : SseStreamer) (stream : Stream)
      → get sid s.streams ≡ some stream
      → stream.closed ≡ false
      → let s' = push_all ps s in
        ((get_pending sid s').1
          ≡ stream.pending ++ lines_of sid stream.task_id stream.sequence_counter ps)
        × ((get_pending sid (get_pending sid s').0).1 ≡ [])
  pending_in_order ps sid s stream there opened =
      let (st, found, lines) = pushed ps sid s stream there opened in
      let (first, second) = get_pending_twice sid (push_all ps s) st found in
      (first ∙ lines, second)

  -- An event object without an id that is pushed to two open streams keeps the id that the first gave
  -- it: the second stream sends it under the first stream's number, and does not count it.
  pub shared_event_keeps_id :
      (t1 t2 : ℕ) (ts1 ts2 a b : String) (e : SseEvent) (s : SseStreamer) (sa sb : Stream)
      → a ≢ b
      → e.id ≡ none
      → get a s.streams ≡ some sa
      → sa.closed ≡ false
      → get b s.streams ≡ some sb
      → sb.closed ≡ false
      → let (s', e') = push_event dumps decimal t1 ts1 a e s in
        let s'' : SseStreamer = (push_event dumps decimal t2 ts2 b e' s').0 in
        (st : Stream) × (get b s''.streams ≡ some st)
        × (st.last_id ≡ some (sequence_id dumps decimal sa.task_id (sa.sequence_counter + 1)))
        × (st.sequence_counter ≡ sb.sequence_counter)
  unfolding assign_id push_event
  shared_event_keeps_id t1 t2 ts1 ts2 a b e s sa sb apart fresh at_a open_a at_b open_b =
      let e1 : SseEvent = record e {
        id = some (sequence_id dumps decimal sa.task_id (sa.sequence_counter + 1));
      } in
      let s' : SseStreamer = (push_event dumps decimal t1 ts1 a e s).0 in
      let next : Stream = deliver dumps decimal t1 ts1 sa (assign_id dumps decimal sa e) in
      let sent : (push_event dumps decimal t1 ts1 a e s).1 ≡ e1 =
        ground (arith, at_a, open_a, fresh) in
      let at_b' : get b s'.streams ≡ some sb =
        ap (get b) (push_hit t1 ts1 a e s sa at_a open_a)
        ∙ ground (arith, get-put a b next s.streams, eq_iff a b, apart, at_b) in
      let st : Stream = deliver dumps decimal t2 ts2 sb (e1, sb.sequence_counter) in
      (
        st,
        ap (λ (x : SseEvent). get b (push_event dumps decimal t2 ts2 b x s').0.streams) sent
            ∙ ap (get b) (push_hit t2 ts2 b e1 s' sb at_b' open_b)
            ∙ ground (arith, get-put b b st s'.streams, eq_refl b),
        refl,
        refl,
      )
