-- ===== src/Http.antt =====
-- hermes_agent_a2a/server.py: `A2ARequestHandler`, what it is given and what it answers. A handler is a
-- function from the stores to the stores, the replies written, and whether it ends in an exception. The
-- headers that every reply carries are left out, and so are the logs.
pub mod Access
pub mod Routes
pub mod Tasks
pub mod PushConfigs
pub mod Subscribe
pub mod Messages
pub mod Artifacts
pub mod Send
pub mod Stream
pub mod Dispatch
use Prim.Native.Char.{Char}
use hermes_agent_a2a.Prelude.{ℕ, String, Bool, true, false, Option, List, [], ◌∷◌}
use hermes_agent_a2a.Int.{ℤ}
use hermes_agent_a2a.Json.{Json, Fields, null, num, neg, str, obj, dict}
use hermes_agent_a2a.RateLimiter.{RateLimiter}
use hermes_agent_a2a.Workers.{Process, Processes}
use hermes_agent_a2a.Push.{ConfigStore}
use hermes_agent_a2a.Subscriptions.{SubscriptionStore}
use hermes_agent_a2a.Sse.{SseStreamer}
use hermes_agent_a2a.Inbound.{Server, Times}
use hermes_agent_a2a.Protocol.{Draws}

-- The settings of an `A2AServer`.
pub record Settings : Type 0 where
  pub require_auth : Bool
  pub auth_token : String
  pub hmac_key : Option String
  -- os.environ.get("A2A_HMAC_KEY"), read again at each check
  pub hmac_key_env : Option String

-- A request as its handler finds it: `headers.get`, and what `json.loads` makes of the first n bytes of
-- the body, or none if it raises.
pub record HttpRequest : Type 0 where
  pub path : String
  pub remote : String
  pub header : String → Option String
  pub payload : ℕ → Option Json

-- What the handlers call outside server.py and the stores: the filters of security.py, the payload hash,
-- the time of a task as a text, Python's `str` of an integer, `json.dumps` and `str.isalnum`, the base64 of an offset with its inverse
-- (none if it raises), the worker processes, and the check of a webhook's address (a reason if refused).
pub record Env : Type 0 where
  pub filter_outbound : String → String
  pub sanitize_inbound : String → String
  pub hash : Fields → String
  pub isoformat : ℕ → String
  pub show : ℤ → String
  pub dumps : Json → String
  pub is_alnum : Char → Bool
  pub digit_value : Char → Option ℕ
  pub encode_offset : ℕ → String
  pub decode_offset : String → Option ℤ
  pub finished : Process → Bool
  pub obeys : Process → Bool
  pub dies : Process → Bool
  pub validate_webhook : String → Option (Bool × String)

-- The clock and the UUIDs of one call.
pub record Moment : Type 0 where
  pub times : Times
  pub task_uuid : String
  pub draws : Draws
  pub emitted : ℕ

pub record App : Type 0 where
  pub server : Server
  pub limiter : RateLimiter
  pub processes : Processes
  pub configs : ConfigStore
  pub subscriptions : SubscriptionStore
  pub streamer : SseStreamer

-- A JSON body with its status, the 429 with its Retry-After, or a 204 without a body.
pub data Reply : Type 0 where
  json : ℕ → Fields → Reply
  rate_limited : ℕ → Fields → Reply
  no_content : Reply

pub record Handled : Type 0 where
  pub app : App
  pub sent : List Reply
  pub raised : Bool

abbrev pub answered : App → Reply → Handled
answered a r = record { app = a; sent = r ∷ []; raised = false }

abbrev pub crashed : App → Handled
crashed a = record { app = a; sent = []; raised = true }

-- The envelope of `_send_rpc_error`; `code` n stands for -n.
unfoldable pub rpc_error : ℕ → String → Json → Json → Fields
rpc_error code message rpc_id extra = dict (
    ("jsonrpc", str "2.0")
    ∷ ("error", obj (dict (("code", neg code) ∷ ("message", str message) ∷ ("data", extra) ∷ [])))
    ∷ ("id", rpc_id)
    ∷ [])

-- The envelope that some REST handlers write themselves, without "data" and "id".
unfoldable pub plain_error : ℕ → String → Fields
plain_error code message = dict (
    ("jsonrpc", str "2.0")
    ∷ ("error", obj (dict (("code", neg code) ∷ ("message", str message) ∷ [])))
    ∷ [])

-- `_send_rpc_error` with the defaults of `rpc_id` and `data`
abbrev pub error_reply : ℕ → ℕ → String → Reply
error_reply status code message = json status (rpc_error code message null null)

unfoldable pub json_rate_limited : ℕ → Reply
json_rate_limited retry_after = rate_limited retry_after (
    dict (
      ("jsonrpc", str "2.0")
      ∷ (
        "error",
        obj (
            dict (
              ("code", neg 32603)
              ∷ ("message", str "Rate limit exceeded")
              ∷ ("data", obj (dict (("retryAfter", num retry_after) ∷ [])))
              ∷ [])),
      )
      ∷ ("id", null)
      ∷ []))
