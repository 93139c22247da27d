-- ===== src/Http/Subscribe/Outside.antt =====
-- hermes_agent_a2a/server.py with security.py: which webhook addresses a subscription can have.
use hermes_agent_a2a.Urls.Safe.{LeadsOutside, webhook_endpoint-LeadsOutside}
use hermes_agent_a2a.Urls.{Address, ParsedUrl, Lookup, validate_webhook_endpoint}
use hermes_agent_a2a.Text.{starts_with, or_text}
use hermes_agent_a2a.Prelude.{
  ◌⊎◌, inl, inr, ℕ, ◌≡◌, refl, Bool, true, false, Option, none, some, arith,
}
use Prim.Native.String.{String}
use hermes_agent_a2a.Json.{Json, Fields, text_at, text_of}
use hermes_agent_a2a.Http.{Env, App, Char}
use hermes_agent_a2a.Http.Subscribe.{handle_push_subscribe}

-- The address that the parameters of a subscription name.
abbrev pub webhook_of : Fields → String
webhook_of params = or_text (text_at "url" params) (text_of "webhookUrl" params)

-- The stores after the call, where an exception changes nothing.
abbrev pub app_after : App → Option (App × Fields) → App
app_after a none = a
app_after a (some (b, answer)) = b

-- An address that is not accepted changes nothing.
after_refusal :
    (e : Env) (max_age now : ℕ) (sub_id reason : String) (params : Fields) (rpc_id : Json) (a : App)
    → e.validate_webhook (webhook_of params) ≡ some (false, reason)
    → app_after a (handle_push_subscribe e max_age now sub_id params rpc_id a) ≡ a
unfolding handle_push_subscribe
after_refusal e max_age now sub_id reason params rpc_id a h = ground (arith, h)

after_exception :
    (e : Env) (max_age now : ℕ) (sub_id : String) (params : Fields) (rpc_id : Json) (a : App)
    → e.validate_webhook (webhook_of params) ≡ none
    → app_after a (handle_push_subscribe e max_age now sub_id params rpc_id a) ≡ a
unfolding handle_push_subscribe
after_exception e max_age now sub_id params rpc_id a h = ground (arith, h)

module _ (ip_address : String → Option Address) (is_digit : Char → Bool) (lower : String → String)
    (urlparse : String → Option ParsedUrl) (resolve : String → Lookup) where
  -- The server with the check of security.py.
  abbrev pub checked : Env → Env
  checked e = record e {
    validate_webhook = validate_webhook_endpoint ip_address is_digit lower urlparse resolve;
  }

  answer-cases :
      (e : Env) (o : Option (Bool × String)) (max_age now : ℕ) (sub_id : String) (params : Fields)
      (rpc_id : Json) (a : App)
      → e.validate_webhook (webhook_of params) ≡ o
      → (app_after a (handle_push_subscribe e max_age now sub_id params rpc_id a) ≡ a)
        ⊎ ((reason : String) × (o ≡ some (true, reason)))
  answer-cases e none max_age now sub_id params rpc_id a h =
      inl (after_exception e max_age now sub_id params rpc_id a h)
  answer-cases e (some (false, reason)) max_age now sub_id params rpc_id a h =
      inl (after_refusal e max_age now sub_id reason params rpc_id a h)
  answer-cases e (some (true, reason)) max_age now sub_id params rpc_id a h = inr (reason, refl)

  -- With the check of security.py, a request for a webhook subscription either leaves the stores as they
  -- are, or the address that it names starts with "https://" in lower case and can be parsed, and its host
  -- is none of the refused names and is empty, or is no private address and either starts with a digit of
  -- any script or is a name found to have an address that is no private one.
  pub subscribe-LeadsOutside :
      (e : Env) (max_age now : ℕ) (sub_id : String) (params : Fields) (rpc_id : Json) (a : App)
      → (app_after a (handle_push_subscribe (checked e) max_age now sub_id params rpc_id a) ≡ a)
        ⊎ ((starts_with "https://" (lower (webhook_of params)) ≡ true)
            × LeadsOutside ip_address is_digit lower urlparse resolve (webhook_of params))
  subscribe-LeadsOutside e max_age now sub_id params rpc_id a =
      let url = webhook_of params in
      elim (answer-cases (checked e) ((checked e).validate_webhook url) max_age now sub_id params
        rpc_id a refl) [
          | inl same ↦ inl same
          | inr (reason, accepted) ↦ inr (
              webhook_endpoint-LeadsOutside ip_address is_digit lower urlparse resolve url reason
                accepted)
        ]
