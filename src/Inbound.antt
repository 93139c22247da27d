-- ===== src/Inbound.antt =====
-- hermes_agent_a2a/server.py: how a request becomes a task, and what its caller gets: the part that
-- `_handle_task_send`, `_rest_send_message` and `_rest_send_message_stream` share. The text filters of
-- security.py, the payload hash and the builder of the task object are parameters; the audit log and
-- the thread that delivers the webhook (Webhook) are left out.
pub mod Guards
pub mod Idempotent
pub mod Meanwhile
use Prim.Native.String.{◌++◌ as append}
use hermes_agent_a2a.Prelude.{
  ℕ, String, Bool, true, false, Option, none, some, ◌==◌, if◌then◌else◌, is_some,
}
use hermes_agent_a2a.Json.{Fields, str, assign}
use hermes_agent_a2a.Queue.State.{Ref, TaskQueue}
use hermes_agent_a2a.Queue.Ops.{enqueue}
use hermes_agent_a2a.Queue.Reads.{find_task_by_id}
use hermes_agent_a2a.Queue.Waiters.{wake}
use hermes_agent_a2a.Idempotency.{IdempotencyStore, replay, check_conflict, record_result}

-- The two stores that a request goes through.
pub record Server : Type 0 where
  pub queue : TaskQueue
  pub idempotency : IdempotencyStore

pub record Request : Type 0 where
  pub task_id : String
  pub user_text : String
  pub metadata : Fields
  pub context_id : Option String
  pub idem_key : Option String
  pub idem_payload : Fields

-- The readings of the clock: in `check_conflict`, in `get`, and in `enqueue`.
pub record Times : Type 0 where
  pub checked : ℕ
  pub looked_up : ℕ
  pub created : ℕ

-- The pending task, or one of the sentinel tuples; a code n stands for -n.
pub data Outcome : Type 0 where
  conflict : ℕ → ℕ → String → Outcome
  busy : ℕ → ℕ → String → Outcome
  replayed : Fields → Outcome
  enqueued : Ref → Outcome

abbrev pub key_conflict : String → Outcome
key_conflict key = conflict 38004 409 (
    append "Non-idempotent task: idempotency key '"
      (append key "' already used with a different payload"))

abbrev pub id_conflict : Outcome
id_conflict = conflict 38004 409 "Task ID already in use"

abbrev pub agent_busy : Outcome
agent_busy = busy 32603 503 "Agent busy — too many pending tasks"

-- `if idem_key`: None and "" are false
abbrev pub truthy : Option String → Option String
truthy none = none
truthy (some k) = if k == "" then none else some k

module _ (sanitize_inbound : String → String) (hash : Fields → String) where
  abbrev pub of_enqueue : Server → TaskQueue × Option Ref → Server × Outcome
  of_enqueue s (q, none) = (record s { queue = q }, agent_busy)
  of_enqueue s (q, some r) = (record s { queue = q }, enqueued r)

  -- The part after the idempotency check.
  unfoldable pub admit : Times → Request → Server → Server × Outcome
  admit t req s =
      if is_some (find_task_by_id req.task_id s.queue)
      then (s, id_conflict)
      else of_enqueue s (
          enqueue t.created req.task_id (sanitize_inbound req.user_text)
            (assign "_a2a_origin" (str "peer") req.metadata) req.context_id s.queue)

  abbrev pub after_lookup :
      Times → Request → Server → IdempotencyStore × Option (String × Fields) → Server × Outcome
  after_lookup t req s (store, none) = admit t req (record s { idempotency = store })
  after_lookup t req s (store, some (task_id, result)) =
      (record s { idempotency = store }, replayed result)

  abbrev pub after_check :
      Times → Request → String → Server → IdempotencyStore × Bool × Option String → Server × Outcome
  after_check t req key s (store, true, _) = (record s { idempotency = store }, key_conflict key)
  after_check t req key s (store, false, _) =
      after_lookup t req (record s { idempotency = store }) (replay t.looked_up key store)

  unfoldable pub prepare_and_enqueue : Times → Request → Server → Server × Outcome
  unfolding admit
  prepare_and_enqueue t req s = elim (truthy req.idem_key) [
    | none ↦ admit t req s
    | some key ↦
        after_check t req key s (check_conflict hash t.checked key req.idem_payload s.idempotency)
  ]

  -- The end of `_enqueue_and_await_task`, once the wait for the task at `r` is over: None for a timeout,
  -- or the result, which is kept under the idempotency key. `now` is read when it is kept.
  module _ (filter_outbound : String → String)
      (build_task_object : String → Option String → String → Fields) (ttl : ℕ) where
    abbrev pub keep_result : ℕ → Request → Fields → Server → Server
    keep_result now req result s = elim (truthy req.idem_key) [
      | none ↦ s
      | some key ↦ record s {
        idempotency =
            record_result hash ttl now key req.task_id req.idem_payload result s.idempotency;
      }
    ]

    abbrev pub after_wake :
        ℕ → Request → Ref → Server → TaskQueue × Option String → Server × Option Fields
    after_wake now req r s (q, none) = (record s { queue = q }, none)
    after_wake now req r s (q, some response) =
        let result =
          build_task_object req.task_id (q.objects r).context_id (filter_outbound response) in
        (keep_result now req result (record s { queue = q }), some result)

    unfoldable pub finish_wait : ℕ → Request → Ref → Server → Server × Option Fields
    finish_wait now req r s = after_wake now req r s (wake r s.queue)
