-- ===== src/Http/PushConfigs/Keyed.antt =====
-- hermes_agent_a2a/server.py: the push configuration handlers, with and without the key of the server.
use hermes_agent_a2a.Prelude.{String, ◌≡◌, refl, ap, ◌∙◌, true, false, Option, none, some, ◌==◌}
use hermes_agent_a2a.Dict.{remove}
use hermes_agent_a2a.Json.{Fields, text_at, text_of, fields_at}
use hermes_agent_a2a.Text.{or_text}
use hermes_agent_a2a.Queue.State.{unknown, same_state}
use hermes_agent_a2a.Queue.Reads.{Status}
use hermes_agent_a2a.Push.{
  TaskPushNotificationConfig, create_push_config, get_push_config, delete_push_config,
}
use hermes_agent_a2a.Push.Configs.{own_config}
use hermes_agent_a2a.Http.{Env, App, HttpRequest, Settings, answered, no_content}
use hermes_agent_a2a.Http.Access.{check_hmac_push}
use hermes_agent_a2a.Http.Tasks.{status_of}
use hermes_agent_a2a.Http.PushConfigs.{
  rest_create_push_config, rest_get_push_config, rest_delete_push_config, config_reply,
  config_not_found, with_configs, authentication_of, raw_auth, created, deleted,
}

module _ (e : Env) (s : Settings) (r : HttpRequest) (task_id : String)
    (allowed : check_hmac_push s r true ≡ true) where
  create_allowed :
      (config_id : String) (body : Fields) (a : App) (st : Status)
      → status_of e task_id a ≡ some st
      → same_state st.state unknown ≡ false
      → (text_of "url" body == "") ≡ false
      → (or_text (text_at "hmacKey" body) (text_of "hmac_key" body) == "") ≡ false
      → rest_create_push_config e s r config_id task_id body a
        ≡ created a (
            create_push_config config_id task_id
              (text_of "url" body)
              (authentication_of (raw_auth body))
              (fields_at "metadata" body)
              a.configs)
  unfolding rest_create_push_config
  create_allowed config_id body a st known seen url key = rw (allowed, known, seen, url, key) refl

  get_allowed :
      (config_id : String) (a : App) (st : Status) (o : Option TaskPushNotificationConfig)
      → status_of e task_id a ≡ some st
      → same_state st.state unknown ≡ false
      → get_push_config task_id config_id a.configs ≡ o
      → rest_get_push_config e s r task_id config_id a ≡ elim o [
        | none ↦ answered a (config_not_found config_id)
        | some cfg ↦ answered a (config_reply 200 cfg)
      ]
  unfolding rest_get_push_config
  get_allowed config_id a st o known seen found = rw (allowed, known, seen, found) refl

  delete_allowed :
      (config_id : String) (a : App) (st : Status)
      → status_of e task_id a ≡ some st
      → same_state st.state unknown ≡ false
      → rest_delete_push_config e s r task_id config_id a
        ≡ deleted config_id a (delete_push_config task_id config_id a.configs)
  unfolding rest_delete_push_config
  delete_allowed config_id a st known seen = rw (allowed, known, seen) refl

-- With the right key, for a task that is known, a configuration with a URL and an HMAC key is created with
-- 201; GET then answers 200 with the same configuration, DELETE answers 204, and GET after it answers 404.
pub config_round_trip :
    (e : Env) (s : Settings) (r : HttpRequest) (task_id config_id : String) (body : Fields)
    (a : App) (st : Status)
    → check_hmac_push s r true ≡ true
    → status_of e task_id a ≡ some st
    → same_state st.state unknown ≡ false
    → (text_of "url" body == "") ≡ false
    → (or_text (text_at "hmacKey" body) (text_of "hmac_key" body) == "") ≡ false
    → let (store, cfg) =
        create_push_config config_id task_id
          (text_of "url" body)
          (authentication_of (raw_auth body))
          (fields_at "metadata" body)
          a.configs in
      let a' = with_configs store a in
      let a'' = with_configs (remove config_id store) a in
      (rest_create_push_config e s r config_id task_id body a ≡ answered a' (config_reply 201 cfg))
      × (rest_get_push_config e s r task_id config_id a' ≡ answered a' (config_reply 200 cfg))
      × (rest_delete_push_config e s r task_id config_id a' ≡ answered a'' no_content)
      × (rest_get_push_config e s r task_id config_id a''
          ≡ answered a'' (config_not_found config_id))
config_round_trip e s r task_id config_id body a st allowed known seen url key =
    let made =
      create_push_config config_id task_id (text_of "url" body) (authentication_of (raw_auth body))
        (fields_at "metadata" body) a.configs in
    let a' : App = with_configs made.0 a in
    let a'' : App = with_configs (remove config_id made.0) a in
    let (found, gone, absent) =
      own_config config_id task_id (text_of "url" body) (authentication_of (raw_auth body))
        (fields_at "metadata" body) a.configs in
    (
      create_allowed e s r task_id allowed config_id body a st known seen url key,
      get_allowed e s r task_id allowed config_id a' st (some made.1) known seen found,
      delete_allowed e s r task_id allowed config_id a' st known seen
          ∙ ap (deleted config_id a') gone,
      get_allowed e s r task_id allowed config_id a'' st none known seen absent,
    )
