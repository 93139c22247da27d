-- ===== src/Tests/Handlers.antt =====
-- hermes_agent_a2a/server.py: the theorems on the guards, the messages and the streams at concrete inputs.
use hermes_agent_a2a.Tests.Server.{is_letter, draws, env, app}
use hermes_agent_a2a.Prelude.{
  ◌≤◌, ℕ, String, ◌≡◌, ◌≢◌, refl, true, false, Option, none, some, [], ◌∷◌, ◌==◌, if◌then◌else◌,
}
use hermes_agent_a2a.Text.{text_length, is_space}
use hermes_agent_a2a.Http.Messages.{resolve_sender_name, is_name_char}
use hermes_agent_a2a.Http.Messages.Sender.{AllChars, sender_name_clean}
use hermes_agent_a2a.Http.Stream.Cached.{stream_cached_result}
use hermes_agent_a2a.Queue.Ops.{enqueue, complete}
use hermes_agent_a2a.Queue.Reads.{find_task_by_id, get_status, only_state}
use hermes_agent_a2a.Dict.{put, get, remove}
use hermes_agent_a2a.Json.{
  Fields, null, str, arr, obj, end, dict, array, lookup, items, as_dict, as_text,
}
use hermes_agent_a2a.Queue.State.{working, completed}
use hermes_agent_a2a.RateLimiter.{RateLimitConfig, RateLimiter, allow}
use hermes_agent_a2a.Push.{TaskPushNotificationConfig, create_push_config}
use hermes_agent_a2a.Inbound.{Request}
use hermes_agent_a2a.Http.{Settings, HttpRequest, Moment, json, answered, plain_error, no_content}
use hermes_agent_a2a.Http.Access.{admit_post, check_auth, check_hmac_push}
use hermes_agent_a2a.Http.Access.Guarded.{IsAdmitted, admit_post-IsAdmitted}
use hermes_agent_a2a.Http.Tasks.{with_queue}
use hermes_agent_a2a.Http.PushConfigs.{
  rest_create_push_config, rest_get_push_config, rest_delete_push_config, config_reply,
  config_not_found, with_configs,
}
use hermes_agent_a2a.Http.PushConfigs.Keyed.{config_round_trip}
use hermes_agent_a2a.Http.Send.{
  begin_task_send, request_of, end_wait, built, rest_send_reply, rest_body,
}
use hermes_agent_a2a.Http.Send.Answered.{send_answered}
use hermes_agent_a2a.Http.Send.Lost.{rest_reply_empty}
use hermes_agent_a2a.Http.Stream.{stream_known, stream_message}
use hermes_agent_a2a.Http.Stream.Closing.{EndsClosed, streams_end_closed}
use hermes_agent_a2a.Http.Dispatch.{Inputs, ended, do_post}
use hermes_agent_a2a.Http.Dispatch.Unauthorized.{unauthorized_post}

abbrev settings : Settings
settings = record {
  require_auth = false;
  auth_token = "tok";
  hmac_key = some "k";
  hmac_key_env = none;
}

abbrev limits : RateLimitConfig
limits = record {
  enabled = false;
  requests_per_window = 100;
  window_seconds = 60;
  burst_numerator = 2;
  burst_denominator = 1;
  header_name = "X-Forwarded-For";
  cleanup_interval_seconds = 300;
  max_entries = 10000;
}

abbrev limiter : ℕ → RateLimiter
limiter n = record { buckets = []; requests_allowed = n; requests_blocked = 0 }

-- A request from this host with a body of 12 bytes, and one from elsewhere without a token.
abbrev request : HttpRequest
request = record {
  path = "/message:send";
  remote = "127.0.0.1";
  header = λ n.
      if n == "Content-Length" then some "12" else if n == "X-HMAC-Key" then some "k" else none;
  payload = λ n. some (obj end);
}

abbrev stranger : HttpRequest
stranger = record {
  path = "/tasks/t0";
  remote = "10.0.0.1";
  header = λ n. none;
  payload = λ n. some (obj end);
}

admit_post-IsAdmitted_example :
    IsAdmitted settings limits 5 request (limiter 0) (limiter 1) (obj end)
unfolding admit_post allow is_space
admit_post-IsAdmitted_example =
    admit_post-IsAdmitted (λ z. "12") plain_error settings limits 5 request (limiter 0) (limiter 1)
      (obj end) refl

no_key : ◌≢◌ {A = Option String} none (some "k")
no_key e = cc e

abbrev config_body : Fields
config_body = dict (("url", str "https://hooks.example.org") ∷ ("hmacKey", str "secret") ∷ [])

abbrev made : TaskPushNotificationConfig
made = record {
  id = "c1";
  task_id = "t0";
  url = "https://hooks.example.org";
  tenant = none;
  token = none;
  authentication = none;
  metadata = none;
}

config_round_trip_example :
    let a' = with_configs (("c1", made) ∷ []) app in
    let a'' = with_configs [] app in
    (rest_create_push_config env settings request "c1" "t0" config_body app
      ≡ answered a' (config_reply 201 made))
    × (rest_get_push_config env settings request "t0" "c1" a' ≡ answered a' (config_reply 200 made))
    × (rest_delete_push_config env settings request "t0" "c1" a' ≡ answered a'' no_content)
    × (rest_get_push_config env settings request "t0" "c1" a''
        ≡ answered a'' (config_not_found "c1"))
unfolding get_status check_hmac_push get lookup as_text create_push_config remove put
config_round_trip_example =
    config_round_trip env settings request "t0" "c1" config_body app (only_state working) refl refl
      refl refl refl

abbrev moment : Moment
moment = record {
  times = record { checked = 1; looked_up = 2; created = 3 };
  task_uuid = "u1";
  draws = draws;
  emitted = 4;
}

abbrev message_params : Fields
message_params = dict (
    ("id", str "t9")
    ∷ (
      "message",
      obj (dict (("parts", arr (array (obj (dict (("text", str "hi") ∷ [])) ∷ []))) ∷ [])),
    )
    ∷ [])

abbrev message_request : Request
message_request = request_of env "10.0.0.1" "t9" "hi" end message_params "t9"

send_answered_example :
    (end_wait env 60 9 draws message_request 2 (
      with_queue
        (complete "t9" "yes"
          (begin_task_send env moment "10.0.0.1" message_params null app).0.server.queue)
        (begin_task_send env moment "10.0.0.1" message_params null app).0)).1
    ≡ some (built env draws "t9" (some "t9") "yes")
unfolding begin_task_send lookup as_dict items is_space find_task_by_id get as_text enqueue
send_answered_example =
    send_answered env moment "10.0.0.1" message_params null app
      (begin_task_send env moment "10.0.0.1" message_params null app).0 message_request 2 "yes" 60 9
      draws refl

rest_reply_empty_example :
    rest_send_reply env "t9" (some (built env draws "t9" none "yes"))
    ≡ json 200 (rest_body env "t9" completed "")
rest_reply_empty_example = rest_reply_empty env draws "t9" "yes" none

streams_end_closed_example :
    EndsClosed "s1"
      (stream_known (λ n. true) env true 5 draws "s1" "t0" working ((λ a. a) ∷ []) app)
    × EndsClosed "s1"
        (stream_message (λ n. true) env true 5 draws "s1" "t0" "ctx" ((λ a. a) ∷ []) app)
    × EndsClosed "s1" (
        stream_cached_result
          (λ n. true)
          env
          true
          5
          draws
          "s1"
          (built env draws "t9" none "yes")
          "ctx"
          app)
streams_end_closed_example =
    streams_end_closed (λ n. true) env true 5 draws "s1" "t0" "ctx"
      (built env draws "t9" none "yes") working ((λ a. a) ∷ []) app

abbrev inputs : Inputs
inputs = record {
  now = 5;
  moment = moment;
  config_id = "c1";
  item_draws = λ r. draws;
  page_size = none;
  continuation_token = none;
  exception_text = "";
}

unauthorized_post_example :
    (body : Fields) × (do_post env settings limits stranger inputs app
      ≡ ended (answered app (json 401 body)))
unfolding check_auth
unauthorized_post_example = unauthorized_post env settings limits stranger inputs app refl

abbrev strict : Settings
strict = record { require_auth = true; auth_token = "tok"; hmac_key = none; hmac_key_env = none }

abbrev local_get : HttpRequest
local_get = record {
  path = "/tasks/t0";
  remote = "127.0.0.1";
  header = λ n. none;
  payload = λ n. none;
}

sender_name_clean_example :
    (name : String) × (lookup "sender_name"
        (resolve_sender_name is_letter end (dict (("from", str "<bo>!") ∷ [])) "10.0.0.1")
      ≡ some (str name))
    × (text_length name ≤ 64)
    × AllChars (is_name_char is_letter) name
sender_name_clean_example =
    sender_name_clean is_letter end (dict (("from", str "<bo>!") ∷ [])) "10.0.0.1"
