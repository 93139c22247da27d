-- ===== src/Push.antt =====
-- hermes_agent_a2a/push_delivery.py: the store of push configurations, and delivery with retries. HTTP,
-- JSON text and HMAC are parameters.
pub mod Configs
pub mod Retry
use hermes_agent_a2a.Prelude.{
  ℕ, zero, suc, ◌+◌, ◌-◌, ◌*◌, ◌^◌, String, Bool, true, false, not, ◌&&◌, Option, none, some, List,
  [], ◌∷◌, leb, ltb, ◌==◌, if◌then◌else◌, keep,
}
use hermes_agent_a2a.Dict.{Dict, get, put, remove, values}
use hermes_agent_a2a.Json.{Json, Fields}

pub record AuthenticationInfo : Type 0 where
  pub scheme : Option String
  pub credentials : Option String

pub record TaskPushNotificationConfig : Type 0 where
  pub id : String
  pub task_id : String
  pub url : String
  pub tenant : Option String
  pub token : Option String
  pub authentication : Option AuthenticationInfo
  pub metadata : Option Fields

abbrev pub ConfigStore : Type 0
ConfigStore = Dict TaskPushNotificationConfig

-- `config_id` is the UUID that the call draws.
unfoldable pub create_push_config :
    String
    → String
    → String
    → Option AuthenticationInfo
    → Option Fields
    → ConfigStore
    → ConfigStore × TaskPushNotificationConfig
create_push_config config_id task_id url authentication metadata s =
    let cfg : TaskPushNotificationConfig = record {
      id = config_id;
      task_id = task_id;
      url = url;
      tenant = none;
      token = none;
      authentication = authentication;
      metadata = metadata;
    } in
    (put config_id cfg s, cfg)

abbrev pub of_task : String → TaskPushNotificationConfig → Bool
of_task task_id cfg = cfg.task_id == task_id

unfoldable pub get_push_config : String → String → ConfigStore → Option TaskPushNotificationConfig
get_push_config task_id config_id s = elim (get config_id s) [
  | none ↦ none
  | some cfg ↦ if of_task task_id cfg then some cfg else none
]

unfoldable pub list_push_configs : String → ConfigStore → List TaskPushNotificationConfig
list_push_configs task_id s = keep (of_task task_id) (values s)

unfoldable pub delete_push_config : String → String → ConfigStore → ConfigStore × Option String
delete_push_config task_id config_id s = elim (get config_id s) [
  | none ↦ (s, none)
  | some cfg ↦ if not (of_task task_id cfg) then (s, none) else (remove config_id s, some config_id)
]

-- What a POST comes to: a response with its status code, or an exception of any kind.
pub data Outcome : Type 0 where
  response : ℕ → Outcome
  raised : Outcome

abbrev pub is_2xx : Outcome → Bool
is_2xx (response status) = leb 200 status && ltb status 300
is_2xx raised = false

-- The validation of the endpoint (security.py, in Urls) is a parameter as well.
unfoldable pub deliver_push_notification :
    (String → Bool) → (String → Fields → Outcome) → String → String → Fields → ConfigStore → Bool
unfolding get_push_config
deliver_push_notification validate_webhook_endpoint post task_id config_id payload s =
    elim (get_push_config task_id config_id s) [
      | none ↦ false
      | some cfg ↦
          if not (validate_webhook_endpoint cfg.url) then false else is_2xx (post cfg.url payload)
    ]

-- `dumps` gives the body of a payload and `hmac` the "sha256=..." signature of a key and a body.
module _ (dumps : Fields → String) (hmac : String → String → String) where
  unfoldable pub verify_hmac : Fields → Option String → String → Bool
  verify_hmac payload none hmac_key = false
  verify_hmac payload (some signature) hmac_key =
      if signature == "" then false else signature == hmac hmac_key (dumps payload)

  unfoldable pub sign : Fields → String → String
  sign payload hmac_key = hmac hmac_key (dumps payload)

  -- `post n url body signature` is what the n-th POST comes to.
  module _ (post : ℕ → String → String → String → Outcome) where
    unfoldable pub deliver : ℕ → String → Fields → String → Bool
    unfolding sign
    deliver n url payload hmac_key = is_2xx (post n url (dumps payload) (sign payload hmac_key))

    -- The loop of `deliver_with_retry`, with `left` attempts to go: the answer, and the delays slept.
    unfoldable pub retry : ℕ → ℕ → ℕ → String → Fields → String → Bool × List ℕ
    unfolding deliver
    retry base_delay zero attempt url payload hmac_key = (false, [])
    retry base_delay (suc left) attempt url payload hmac_key =
        let (answer, delays) = retry base_delay left (suc attempt) url payload hmac_key in
        if deliver attempt url payload hmac_key
        then (true, [])
        else (answer, if ltb 0 left then base_delay * 2 ^ attempt ∷ delays else delays)

    unfoldable pub deliver_with_retry : ℕ → ℕ → String → Fields → String → Bool × List ℕ
    unfolding retry
    deliver_with_retry base_delay max_attempts url payload hmac_key =
        retry base_delay max_attempts 0 url payload hmac_key
