-- ===== src/Tests/Server.antt =====
-- hermes_agent_a2a/server.py, payloads.py and a2a_spec/tasks.py: the theorems at concrete inputs.
use hermes_agent_a2a.Http.Tasks.{
  sort_entries, Core, object, with_queue, cancel_task_core, get_task_core, not_cancelable,
  is_settled,
}
use hermes_agent_a2a.Queue.Reads.{snapshot}
use hermes_agent_a2a.Queue.State.{Ref, TaskQueue, working, completed, canceled, new_task}
use hermes_agent_a2a.Prelude.{
  List, ◌≤◌, ◌++◌, ℕ, zero, suc, ◌+◌, ◌-◌, ◌*◌, Bool-cases, eq_iff, ◌≡◌, refl, ap, inl, inr, Bool,
  true, false, none, some, [], ◌∷◌, length, arith, eqb, ◌==◌, if◌then◌else◌,
}
use mathlib.Core.List.{Memᴰ}
use hermes_agent_a2a.Http.Tasks.Pages.Arrivals.{entries, refs, Shows, walk_complete}
use hermes_agent_a2a.Dict.{get, values}
use hermes_agent_a2a.Workers.{cancel_worker, terminate}
use hermes_agent_a2a.Queue.Waiters.{wake}
use hermes_agent_a2a.Queue.Ops.{cancel}
use hermes_agent_a2a.Http.Tasks.Cancel.{cancel_pending}
use hermes_agent_a2a.Http.Tasks.Pages.{IsOffsetCode, walk}
use hermes_agent_a2a.Text.{occurs, is_space, text_length, between, strip}
use hermes_agent_a2a.Hooks.{state_text}
use hermes_agent_a2a.Text.Number.{ascii_digit}
use Prim.Native.Char.{Char, char, code}
use Prim.Native.String.{String, ◌++◌ as append}
use hermes_agent_a2a.Int.{pos}
use hermes_agent_a2a.Json.{null, str, end}
use hermes_agent_a2a.Protocol.{Draws, build_task_object}
use hermes_agent_a2a.Protocol.Parse.{parse_task_result}
use hermes_agent_a2a.Protocol.RoundTrip.{answer_of, parse-build}
use hermes_agent_a2a.Http.{Env, App}
use hermes_agent_a2a.Http.Routes.{get_config, get_route, path_of}
use hermes_agent_a2a.Http.Routes.RoundTrip.{url, query_part, get_route-address}

abbrev pub draws : Draws
draws = record { stamp = "2026-01-01T00:00:00Z"; message_id = "m1"; artifact_id = "x1" }

-- Offsets written with one letter for each unit, and one more.
abbrev pub strokes : ℕ → String
strokes zero = "o"
strokes (suc n) = String.◌∷◌ (char 111 tt) (strokes n)

abbrev pub is_letter : Char → Bool
is_letter c = between 97 122 (code c)

abbrev pub env : Env
env = record {
  filter_outbound = λ s. s;
  sanitize_inbound = λ s. s;
  hash = λ fs. "h";
  isoformat = λ n. "1970";
  show = λ z. "7";
  dumps = λ j. "{}";
  is_alnum = is_letter;
  digit_value = ascii_digit;
  encode_offset = strokes;
  decode_offset = λ s. some (pos (text_length s - 1));
  finished = λ p. false;
  obeys = λ p. true;
  dies = λ p. true;
  validate_webhook = λ url. some (true, "");
}

parse-build_example :
    parse_task_result "x" (
      answer_of
        (build_task_object (λ s. s) (λ n. "1970") draws "t1" completed none (some " hi ") none))
    ≡ some (record {
      task_id = str "t1";
      state = str "completed";
      response = "hi\nhi";
      raw_result =
          answer_of
            (build_task_object (λ s. s) (λ n. "1970") draws "t1" completed none (some " hi ") none);
    })
unfolding strip state_text is_space
parse-build_example =
    parse-build (λ s. s) (λ n. "1970") draws "t1" "x" completed none (some " hi ") none

get_route-address_example :
    get_route (path_of (append (url (get_config "t1" "c1")) (query_part (some "v=1"))))
    ≡ get_config "t1" "c1"
unfolding occurs
get_route-address_example =
    get_route-address (get_config "t1" "c1") (some "v=1") ((refl, refl, refl), (refl, refl, refl))

abbrev pub two_tasks : TaskQueue
two_tasks = record {
  objects = λ r. new_task (r * 10) (if eqb r 0 then "t0" else "t1") "hello" end none;
  next = 2;
  pending = ("t0", 0) ∷ ("t1", 1) ∷ [];
  completed = [];
  processing = [];
  enqueue_count = 2;
  complete_count = 0;
  cancel_count = 0;
  states = ("t0", working) ∷ ("t1", working) ∷ [];
  oldest_pending_time = some 0;
}

text_length-strokes : (n : ℕ) → text_length (strokes n) ≡ n + 1
unfolding text_length
text_length-strokes zero = omega arith
text_length-strokes (suc n) = omega (arith, text_length-strokes n)

strokes_not_empty : (n : ℕ) → (strokes n == "") ≡ false
unfolding text_length
strokes_not_empty n = elim (Bool-cases (strokes n == "")) [
  | inr e ↦ e
  | inl e ↦
      absurd (omega (arith, text_length-strokes n, ap text_length ((eq_iff (strokes n) "").0 e)))
]

strokes-IsOffsetCode : IsOffsetCode env
strokes-IsOffsetCode = record {
  decodes = λ n. ap (λ (m : ℕ). some (pos m)) (omega (arith, text_length-strokes n));
  not_empty = strokes_not_empty;
}

abbrev one_task : TaskQueue
one_task = record two_tasks { pending = ("t0", 0) ∷ [] }

-- The first request reads one task, the later ones two.
abbrev growing : ℕ → TaskQueue
growing zero = one_task
growing (suc n) = two_tasks

growing_bounded : (n : ℕ) → length (entries (growing n)) ≤ 2
unfolding snapshot sort_entries values get
growing_bounded zero = omega arith
growing_bounded (suc n) = omega arith

growing_arrivals : (n : ℕ) → (news : List Ref) × (refs (growing (suc n)) ≡ news ++ refs (growing n))
unfolding snapshot sort_entries values get
growing_arrivals zero = (1 ∷ [], refl)
growing_arrivals (suc n) = ([], refl)

there_at_first : Memᴰ 0 (refs (growing 0))
unfolding snapshot sort_entries values get
there_at_first = Memᴰ.head refl

walk_complete_example :
    Shows env (λ r. draws) 1 growing (walk env (λ r. draws) 1 growing 3 0 none) 0
walk_complete_example =
    walk_complete env (λ r. draws) 1 growing 2 0 strokes-IsOffsetCode (omega arith) growing_bounded
      growing_arrivals there_at_first

abbrev pub app : App
app = record {
  server = record { queue = two_tasks; idempotency = [] };
  limiter = record { buckets = []; requests_allowed = 0; requests_blocked = 0 };
  processes = ("t0", 5) ∷ [];
  configs = [];
  subscriptions = record { store = []; by_task = [] };
  streamer = record { streams = []; by_task = [] };
}

-- The worker of "t0" ends when it is asked to.
cancel_pending_example :
    let canceled_task : Core =
      object (build_task_object (λ s. s) (λ n. "1970") draws "t0" canceled none none none) in
    let a' = with_queue (cancel "t0" two_tasks) app in
    (cancel_task_core env draws "t0" null app ≡ (a', canceled_task))
    × ((wake 0 a'.server.queue).1 ≡ some "(canceled)")
    × (get_task_core env draws "t0" null a' ≡ canceled_task)
    × (cancel_task_core env draws "t0" null a' ≡ (a', not_cancelable canceled null))
unfolding get is_settled cancel_worker
cancel_pending_example =
    cancel_pending env draws draws "t0" null null app 0 (terminate 5 ∷ [], true) refl refl refl refl
