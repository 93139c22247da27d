-- ===== src/Sse/Idle.antt =====
-- hermes_agent_a2a/sse_handler.py: which streams the idle cleanup closes.
use hermes_agent_a2a.Prelude.{
  ℕ, String, ◌≡◌, refl, ap, ◌∙◌, none, some, List, [], ◌∷◌, arith, if◌then◌else◌, Option-cases, inl,
  inr,
}
use hermes_agent_a2a.Dict.{get, remove, IsDistinct}
use hermes_agent_a2a.Dict.Laws.{remove_absent}
use hermes_agent_a2a.Dict.Sweep.{keys_where, remove_all, get-sweep}
use hermes_agent_a2a.Sse.{SseStreamer, close_stream, close_all, is_idle, close_idle_streams}

close_removes : (i : String) (s : SseStreamer) → (close_stream i s).streams ≡ remove i s.streams
unfolding close_stream
close_removes i s = elim (Option-cases (get i s.streams)) [
  | inl absent ↦ ground (arith, absent, remove_absent i s.streams absent)
  | inr (st, there) ↦ ground (arith, there)
]

close_all_removes :
    (ids : List String) (s : SseStreamer) → (close_all ids s).streams ≡ remove_all ids s.streams
unfolding close_all remove_all
close_all_removes [] s = refl
close_all_removes (i ∷ ids) s =
    close_all_removes ids (close_stream i s) ∙ ap (remove_all ids) (close_removes i s)

-- The cleanup closes exactly the streams that had no push for longer than the timeout: what is found
-- under a stream id afterwards is the same stream, unless it was idle. No id is used twice.
pub close_idle_exact :
    (idle_timeout now : ℕ) (sid : String) (s : SseStreamer)
    → IsDistinct s.streams
    → get sid (close_idle_streams idle_timeout now s).streams ≡ elim (get sid s.streams) [
      | none ↦ none
      | some st ↦ if is_idle idle_timeout now st then none else some st
    ]
unfolding close_idle_streams
close_idle_exact idle_timeout now sid s u =
    ap (get sid) (close_all_removes (keys_where (is_idle idle_timeout now) s.streams) s)
    ∙ get-sweep (is_idle idle_timeout now) sid s.streams u
