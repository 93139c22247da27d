-- ===== src/Webhook.antt =====
-- hermes_agent_a2a/webhook_delivery.py: the webhook that wakes the agent, with its retries and its
-- failure callback. HTTP, JSON text, HMAC, the host check of security.py and the direct A2A call are
-- parameters; the settings are those of the arguments, or of the environment where an argument is None.
pub mod Failure
use Prim.Native.String.{◌++◌ as append}
use hermes_agent_a2a.Prelude.{
  ℕ, zero, suc, ◌+◌, ◌*◌, ◌^◌, String, Bool, true, false, not, ◌&&◌, Option, none, some, List, [],
  ◌∷◌, ltb, ◌==◌, if◌then◌else◌,
}
use hermes_agent_a2a.Json.{Json, Fields, bool, str, end, field, assign}

-- A call of `trigger`: its arguments, and the settings.
pub record Call : Type 0 where
  pub message : String
  pub task_id : String
  pub mode : Option String
  pub deliver_only : Bool
  pub retries : ℕ
  pub base_delay : ℕ
  pub has_on_failure : Bool
  pub use_direct_a2a : Bool
  pub target_url : String
  pub auth_token : String
  pub secret : String
  pub host : String
  pub port : String

-- What a call did: the bodies and signatures posted, the delays slept, the calls of `on_failure`.
pub record Run : Type 0 where
  pub posted : List (String × String × String)
  pub delays : List ℕ
  pub failures : List String

abbrev pub quiet : Run
quiet = record { posted = []; delays = []; failures = [] }

-- `if on_failure: on_failure(task_id)`
abbrev pub report : Call → Run
report c = record quiet { failures = if c.has_on_failure then c.task_id ∷ [] else [] }

abbrev pub with_mode : Option String → Fields → Fields
with_mode none fs = fs
with_mode (some mode) fs = assign "mode" (str mode) fs

abbrev pub with_deliver_only : Bool → Fields → Fields
with_deliver_only deliver_only fs =
    if deliver_only then assign "deliver_only" (bool true) fs else fs

unfoldable pub body_dict : Call → Fields
body_dict c = with_deliver_only c.deliver_only (
    with_mode c.mode (
      field "event_type" (str "a2a_inbound")
        (field "text" (str c.message) (field "task_id" (str c.task_id) end))))

abbrev pub webhook_url : Call → String
webhook_url c =
    append "http://" (append c.host (append ":" (append c.port "/webhooks/a2a_trigger")))

-- `call url message task_id token` says whether the result has no "error"; `validate_host h` whether
-- the host is accepted; `post n url body signature` whether the n-th POST raises nothing.
module _ (dumps : Fields → String) (hmac : String → String → String)
    (call : String → String → String → String → Bool) (validate_host : String → Bool)
    (post : ℕ → String → String → String → Bool) where
  -- The loop over the attempts, with `left` to go.
  unfoldable pub attempts : Call → String → String → ℕ → ℕ → Run
  attempts c body sig zero attempt = report c
  attempts c body sig (suc left) attempt =
      let rest = attempts c body sig left (suc attempt) in
      let sent : String × String × String = (webhook_url c, body, sig) in
      if post attempt (webhook_url c) body sig
      then record quiet { posted = sent ∷ [] }
      else record {
        posted = sent ∷ rest.posted;
        delays = if ltb 0 left then c.base_delay * 2 ^ attempt ∷ rest.delays else rest.delays;
        failures = rest.failures;
      }

  unfoldable pub trigger : Call → Run
  unfolding attempts body_dict
  trigger c =
      if c.use_direct_a2a && not (c.target_url == "")
      then (if call c.target_url c.message c.task_id c.auth_token then quiet else report c)
      else if c.secret == ""
      then report c
      else (let fields : Fields = body_dict c in
          if not (validate_host c.host)
          then report c
          else (let body : String = dumps fields in
              attempts c body (hmac c.secret body) c.retries 0))

  -- `trigger_async` builds the body after the check of the host.
  unfoldable pub trigger_async : Call → Run
  unfolding attempts body_dict
  trigger_async c =
      if c.use_direct_a2a && not (c.target_url == "")
      then (if call c.target_url c.message c.task_id c.auth_token then quiet else report c)
      else if c.secret == ""
      then report c
      else if not (validate_host c.host)
      then report c
      else (let body : String = dumps (body_dict c) in
          attempts c body (hmac c.secret body) c.retries 0)
