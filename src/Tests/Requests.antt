-- ===== src/Tests/Requests.antt =====
-- The webhook, the requests and the hooks (webhook_delivery.py, server.py, hooks.py): the theorems at
-- concrete inputs.
use hermes_agent_a2a.Prelude.{
  ap, false, Option, none, some, ◌==◌, ◌+◌, ◌≢◌, ℕ, String, ◌≡◌, refl, ◌⊎◌, Bool, true, [], ◌∷◌,
  arith, eqb, if◌then◌else◌,
}
use hermes_agent_a2a.Runtime.{
  A2aMetrics, enqueue_recorded, complete_recorded, init as start_metrics,
}
use hermes_agent_a2a.Inbound.{
  truthy, Server, Request, Times, replayed, key_conflict, prepare_and_enqueue, finish_wait,
}
use hermes_agent_a2a.Dict.{IsDistinct, get, put}
use hermes_agent_a2a.Idempotency.{evict_expired}
use hermes_agent_a2a.Inbound.Meanwhile.{Meanwhile}
use hermes_agent_a2a.Json.{Json, Fields, end}
use hermes_agent_a2a.Queue.State.{TaskQueue, init, completed}
use hermes_agent_a2a.Queue.Evict.{evict}
use hermes_agent_a2a.Queue.Ops.{admit, count_enqueued, enqueue, complete, finish}
use hermes_agent_a2a.Queue.Reads.{drain_pending}
use hermes_agent_a2a.Queue.Waiters.{wake}
use hermes_agent_a2a.Queue.WellFormed.{IsWellFormed, init-IsWellFormed}
use hermes_agent_a2a.Queue.Steps.{Step, Reach, Reach-IsWellFormed}
use hermes_agent_a2a.Webhook.{Call, trigger, trigger_async}
use hermes_agent_a2a.Webhook.Failure.{IsDelivered, on_failure_exact}
use hermes_agent_a2a.Inbound.Guards.{IsGuarded, prepare-IsGuarded}
use hermes_agent_a2a.Inbound.Idempotent.{repeat_is_replayed}
use hermes_agent_a2a.Hooks.{Change, pre_llm_call, post_llm_call}
use hermes_agent_a2a.Hooks.Turn.{IsTurn, pre_llm_call-IsTurn, post_llm_call_wakes}

abbrev dumps : Fields → String
dumps fs = "{}"

abbrev hmac : String → String → String
hmac key body = "sha256=00"

abbrev direct_call : String → String → String → String → Bool
direct_call url message task token = true

abbrev validate_host : String → Bool
validate_host host = host == "hooks.example.org"

-- The third attempt succeeds.
abbrev post : ℕ → String → String → String → Bool
post n url body signature = eqb n 2

abbrev webhook_call : Call
webhook_call = record {
  message = "hello";
  task_id = "t1";
  mode = none;
  deliver_only = true;
  retries = 3;
  base_delay = 1;
  has_on_failure = true;
  use_direct_a2a = false;
  target_url = "";
  auth_token = "";
  secret = "s";
  host = "hooks.example.org";
  port = "8644";
}

on_failure_exact_example :
    (((trigger dumps hmac direct_call validate_host post webhook_call).failures ≡ [])
        × IsDelivered dumps hmac direct_call validate_host post webhook_call
      ⊎ ((trigger dumps hmac direct_call validate_host post webhook_call).failures ≡ "t1" ∷ [])
        × (¬ IsDelivered dumps hmac direct_call validate_host post webhook_call))
    × (trigger_async dumps hmac direct_call validate_host post webhook_call
        ≡ trigger dumps hmac direct_call validate_host post webhook_call)
on_failure_exact_example =
    on_failure_exact dumps hmac direct_call validate_host post webhook_call refl

abbrev identity : String → String
identity s = s

abbrev build : String → Option String → String → Fields
build task_id context_id response = end

abbrev request : Request
request = record {
  task_id = "t1";
  user_text = "hello";
  metadata = end;
  context_id = none;
  idem_key = some "key";
  idem_payload = end;
}

abbrev times : Times
times = record { checked = 20; looked_up = 20; created = 20 }

-- A queue with one task, "t1".
abbrev one_task : TaskQueue
one_task = (enqueue 5 "t1" "hello" end none init).0

abbrev server : Server
server = record { queue = one_task; idempotency = [] }

abbrev answered : Server
answered = record { queue = complete "t1" "hi" one_task; idempotency = [] }

prepare-IsGuarded_example :
    IsGuarded identity dumps times request server
      (prepare_and_enqueue identity dumps times request server)
prepare-IsGuarded_example = prepare-IsGuarded identity dumps times request server

gets_result : (finish_wait identity dumps identity build 60 10 request 0 answered).1 ≡ some end
unfolding finish_wait wake complete finish enqueue admit count_enqueued evict get put init
gets_result = refl

-- Another client's request, under its own key.
abbrev other_request : Request
other_request = record request { task_id = "t2"; idem_key = some "other" }

-- The other request is taken in, its wait ends, and the cleanup runs.
abbrev later : Server
later =
    let s1 : Server =
      (prepare_and_enqueue identity dumps times other_request
        (finish_wait identity dumps identity build 60 10 request 0 answered).0).0 in
    let s2 : Server = (finish_wait identity dumps identity build 60 20 other_request 1 s1).0 in
    record s2 { idempotency = (evict_expired 30 s2.idempotency).0 }

other_key : truthy other_request.idem_key ≢ some "key"
other_key h =
    let tested : ("other" == "key") ≡ ("key" == "key") =
      ap (λ (o : Option String). elim o [ none ↦ false | some k ↦ k == "key" ]) h in
    ground (arith, tested)

others-Meanwhile :
    Meanwhile identity dumps identity build 60 "key"
      (10 + 60)
      (finish_wait identity dumps identity build 60 10 request 0 answered).0
      later
others-Meanwhile = Meanwhile.cleanup 30 (omega arith) (
    Meanwhile.answers 20 other_request 1 other_key
      (Meanwhile.takes_in times other_request (omega arith) (omega arith) Meanwhile.nothing))

empty-IsDistinct : IsDistinct answered.idempotency
unfolding IsDistinct
empty-IsDistinct = tt

repeat_is_replayed_example :
    prepare_and_enqueue identity dumps times request later
    ≡ (later, if dumps end == dumps end then replayed end else key_conflict "key")
repeat_is_replayed_example =
    repeat_is_replayed identity dumps identity build 60 10 request request 0 answered later "key"
      end times empty-IsDistinct refl refl gets_result others-Meanwhile (omega arith) (omega arith)

one-IsWellFormed : IsWellFormed one_task
one-IsWellFormed =
    let arrived : Reach false init one_task =
      Reach.next Reach.here (Step.arrive 5 "t1" "hello" end none) in
    Reach-IsWellFormed init-IsWellFormed arrived

abbrev py_str : Json → String
py_str j = "x"

pre_llm_call-IsTurn_example :
    IsTurn py_str (drain_pending [] one_task) one_task (pre_llm_call py_str one_task)
pre_llm_call-IsTurn_example = pre_llm_call-IsTurn py_str one_task one-IsWellFormed

pending_t1 : get "t1" one_task.pending ≡ some 0
unfolding enqueue admit count_enqueued evict get put init
pending_t1 = refl

waiting_t1 : (one_task.objects 0).returned ≡ false
unfolding enqueue admit count_enqueued evict get put init
waiting_t1 = refl

post_llm_call_wakes_example :
    (q' : TaskQueue) × (ch : Change) × (post_llm_call identity (some "hi") (some "t1") one_task
      ≡ some (q', some ch))
    × ((wake 0 q').1 ≡ some "hi")
    × (ch.task_id ≡ "t1")
    × (ch.new_state ≡ completed)
post_llm_call_wakes_example =
    post_llm_call_wakes identity "t1" "hi" 0 one_task refl refl pending_t1 waiting_t1

-- A task arrives, and another id, which is not pending, is completed.
abbrev received : TaskQueue × A2aMetrics
received = (enqueue_recorded 5 "t1" "hello" end none (init, start_metrics 0)).0

abbrev miscounted : TaskQueue × A2aMetrics
miscounted = complete_recorded "t2" "hi" received
