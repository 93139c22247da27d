-- ===== src/Http/PushConfigs.antt =====
-- hermes_agent_a2a/server.py: the REST handlers of push configurations. The request and response classes of a2a_spec/push.py that the handlers build in
-- between only carry the values on.
pub mod Keyed
use Prim.Native.String.{◌++◌ as append}
use hermes_agent_a2a.Prelude.{
  ℕ, String, Bool, true, false, Option, none, some, List, [], ◌∷◌, map, ◌==◌, if◌then◌else◌,
}
use hermes_agent_a2a.Json.{
  text_at, text_of, fields_at, Json, Fields, null, bool, str, arr, obj, end, dict, array, lookup,
  get_or, as_dict, as_text, or_else, is_truthy, text_or_null,
}
use hermes_agent_a2a.Text.{or_text}
use hermes_agent_a2a.Queue.State.{TaskState, unknown, same_state}
use hermes_agent_a2a.Queue.Reads.{Status}
use hermes_agent_a2a.Push.{
  AuthenticationInfo, TaskPushNotificationConfig, ConfigStore, create_push_config, get_push_config,
  list_push_configs, delete_push_config,
}
use hermes_agent_a2a.Subscriptions.{SubscriptionStore, add_subscription, remove_subscription}
use hermes_agent_a2a.Protocol.Parse.{build_error_response}
use hermes_agent_a2a.Http.{
  Env, App, HttpRequest, Settings, Reply, json, no_content, Handled, answered, crashed, plain_error,
}
use hermes_agent_a2a.Http.Access.{check_hmac_push, unauthorized}
use hermes_agent_a2a.Http.Tasks.{Core, sent, object, broken, status_of, load_task, not_found}

abbrev pub authentication_json : Option AuthenticationInfo → Json
authentication_json none = null
authentication_json (some i) =
    obj
      (dict (("scheme", text_or_null i.scheme) ∷ ("credentials", text_or_null i.credentials) ∷ []))

abbrev pub metadata_json : Option Fields → Json
metadata_json none = null
metadata_json (some m) = obj m

unfoldable pub serialize_push_config : TaskPushNotificationConfig → Fields
serialize_push_config cfg = dict (
    ("id", str cfg.id)
    ∷ ("taskId", str cfg.task_id)
    ∷ ("url", str cfg.url)
    ∷ ("authentication", authentication_json cfg.authentication)
    ∷ ("metadata", metadata_json cfg.metadata)
    ∷ [])

abbrev pub with_configs : ConfigStore → App → App
with_configs s a = record a { configs = s }

-- What a handler does with the outcome of the guard on the task.
abbrev pub refused_task : App → Core → Handled
refused_task a (sent r) = answered a r
refused_task a _ = crashed a

-- a or b, on what `text_at` and `fields_at` give
abbrev pub or_text_at : Option String → Option String → Option String
or_text_at none b = b
or_text_at (some a) b = if a == "" then b else some a

abbrev pub or_fields_at : Option Fields → Option Fields → Option Fields
or_fields_at none b = b
or_fields_at (some a) b = if is_truthy (obj a) then some a else b

abbrev pub auth_info : Fields → AuthenticationInfo
auth_info raw = record {
  scheme =
      or_text_at (text_at "scheme" raw)
        (or_text_at (text_at "authType" raw) (text_at "auth_type" raw));
  credentials =
      or_text_at (text_at "credentials" raw)
        (or_text_at (text_at "authCode" raw) (text_at "auth_code" raw));
}

-- if raw_auth: auth_info = ...
abbrev pub authentication_of : Option Fields → Option AuthenticationInfo
authentication_of none = none
authentication_of (some raw) = if is_truthy (obj raw) then some (auth_info raw) else none

abbrev pub raw_auth : Fields → Option Fields
raw_auth body = or_fields_at (fields_at "authentication" body) (fields_at "auth" body)

abbrev pub bad_request : String → Reply
bad_request message = json 400 (plain_error 32600 message)

abbrev pub config_not_found : String → Reply
config_not_found config_id =
    json 404 (plain_error 38000 (append "Push notification config not found: " config_id))

abbrev pub config_reply : ℕ → TaskPushNotificationConfig → Reply
config_reply status cfg =
    json status (dict (("configId", str cfg.id) ∷ ("config", obj (serialize_push_config cfg)) ∷ []))

abbrev pub created : App → ConfigStore × TaskPushNotificationConfig → Handled
created a (s, cfg) = answered (with_configs s a) (config_reply 201 cfg)

abbrev pub deleted : String → App → ConfigStore × Option String → Handled
deleted config_id a (s, none) = answered (with_configs s a) (config_not_found config_id)
deleted config_id a (s, some _) = answered (with_configs s a) no_content

module _ (e : Env) (s : Settings) (r : HttpRequest) where
  -- `_check_hmac_push(required=True)` and `_load_task_or_404`, in front of the rest of a handler.
  abbrev pub for_task : String → App → (Status → Handled) → Handled
  for_task task_id a rest = load_task task_id null (refused_task a) rest (status_of e task_id a)

  abbrev pub keyed : App → Handled → Handled
  keyed a rest = if check_hmac_push s r true then rest else answered a unauthorized

  -- `config_id` is the UUID that the call draws.
  unfoldable pub rest_create_push_config : String → String → Fields → App → Handled
  unfolding check_hmac_push create_push_config serialize_push_config
  rest_create_push_config config_id task_id body a = keyed a (
      for_task task_id a (λ _.
        let url = text_of "url" body in
        let hmac_key = or_text (text_at "hmacKey" body) (text_of "hmac_key" body) in
        if url == ""
        then answered a (bad_request "url is required")
        else if hmac_key == ""
        then answered a (bad_request "hmacKey is required")
        else created a (
            create_push_config config_id task_id url (authentication_of (raw_auth body))
              (fields_at "metadata" body) a.configs)))

  unfoldable pub rest_get_push_config : String → String → App → Handled
  unfolding check_hmac_push get_push_config serialize_push_config
  rest_get_push_config task_id config_id a = keyed a (
      for_task task_id a (λ _. elim (get_push_config task_id config_id a.configs) [
        | none ↦ answered a (config_not_found config_id)
        | some cfg ↦ answered a (config_reply 200 cfg)
      ]))

  unfoldable pub rest_list_push_configs : String → App → Handled
  unfolding list_push_configs serialize_push_config
  rest_list_push_configs task_id a = for_task task_id a (λ _. answered a (
      json 200 (
        dict (
          (
            "items",
            arr (
                array (
                  map (λ cfg. obj (serialize_push_config cfg))
                    (list_push_configs task_id a.configs))),
          )
          ∷ []))))

  unfoldable pub rest_delete_push_config : String → String → App → Handled
  unfolding check_hmac_push delete_push_config
  rest_delete_push_config task_id config_id a = keyed a (
      for_task task_id a
        (λ _. deleted config_id a (delete_push_config task_id config_id a.configs)))
