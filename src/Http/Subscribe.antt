-- ===== src/Http/Subscribe.antt =====
-- hermes_agent_a2a/server.py: `_handle_push_subscribe` and `_handle_push_unsubscribe`, the handlers of
-- webhook subscriptions. The store of subscriptions is always there.
pub mod Outside
use Prim.Native.String.{◌++◌ as append}
use hermes_agent_a2a.Prelude.{
  ℕ, String, Bool, true, false, Option, none, some, [], ◌∷◌, ◌==◌, if◌then◌else◌,
}
use hermes_agent_a2a.Json.{Json, Fields, null, bool, str, dict, text_at, text_of}
use hermes_agent_a2a.Text.{or_text}
use hermes_agent_a2a.Queue.State.{unknown, same_state}
use hermes_agent_a2a.Subscriptions.{SubscriptionStore, add_subscription, remove_subscription}
use hermes_agent_a2a.Protocol.Parse.{build_error_response}
use hermes_agent_a2a.Http.{Env, App}
use hermes_agent_a2a.Http.Tasks.{status_of}

-- What `_handle_push_subscribe` and `_handle_push_unsubscribe` return.
abbrev pub invalid : String → Json → Fields
invalid message rpc_id = build_error_response 32600 (append "Invalid Request: " message) null rpc_id

abbrev pub subscribed : String → App → SubscriptionStore × String → App × Fields
subscribed tid a (store, sub_id) = (
  record a { subscriptions = store },
  dict (("subscriptionId", str sub_id) ∷ ("taskId", str tid) ∷ []),
)

-- `max_age` is the age at which the store drops a subscription, `sub_id` the UUID that it draws; an
-- exception of `get_status` is `none`.
unfoldable pub handle_push_subscribe :
    Env → ℕ → ℕ → String → Fields → Json → App → Option (App × Fields)
unfolding add_subscription build_error_response
handle_push_subscribe e max_age now sub_id params rpc_id a =
    let tid = text_of "taskId" params in
    let webhook_url = or_text (text_at "url" params) (text_of "webhookUrl" params) in
    let hmac_key = or_text (text_at "hmacKey" params) (text_of "hmac_key" params) in
    if tid == ""
    then some (a, invalid "taskId is required" rpc_id)
    else if webhook_url == ""
    then some (a, invalid "webhook url is required" rpc_id)
    else if hmac_key == ""
    then some (a, invalid "hmacKey is required" rpc_id)
    else elim (status_of e tid a) [
      | none ↦ none
      | some status ↦
          if same_state status.state unknown
          then some (a, build_error_response 38000 (append "Task not found: " tid) null rpc_id)
          else elim (e.validate_webhook webhook_url) [
            | none ↦ none
            | some (false, reason) ↦ some (
              a,
              build_error_response 38003 (append "Invalid webhook endpoint: " reason) null rpc_id,
            )
            | some (true, reason) ↦ some (
                subscribed tid a
                  (add_subscription max_age now sub_id tid webhook_url hmac_key a.subscriptions))
          ]
    ]

abbrev pub unsubscribed : String → Json → App → SubscriptionStore × Bool → App × Fields
unsubscribed subscription_id rpc_id a (store, false) = (
  record a { subscriptions = store },
  build_error_response 38000 (append "Subscription not found: " subscription_id) null rpc_id,
)
unsubscribed subscription_id rpc_id a (store, true) = (
  record a { subscriptions = store },
  dict (("subscriptionId", str subscription_id) ∷ ("removed", bool true) ∷ []),
)

unfoldable pub handle_push_unsubscribe : Fields → Json → App → App × Fields
unfolding remove_subscription build_error_response
handle_push_unsubscribe params rpc_id a =
    let subscription_id = text_of "subscriptionId" params in
    if subscription_id == ""
    then (a, invalid "subscriptionId is required" rpc_id)
    else unsubscribed subscription_id rpc_id a (remove_subscription subscription_id a.subscriptions)
