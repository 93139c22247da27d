-- ===== src/Http/Dispatch.antt =====
-- hermes_agent_a2a/server.py: `do_GET`, `do_POST`, `do_DELETE`, `_do_rest_post` and `_do_json_rpc`: the
-- guards, the routes and the handlers put together. The agent cards and the health answer are constants of
-- the configuration and stand for themselves.
pub mod Unauthorized
use Prim.Native.String.{◌++◌ as append}
use hermes_agent_a2a.Prelude.{
  ℕ, String, Bool, true, false, not, ◌&&◌, Option, none, some, List, [], ◌∷◌, ◌==◌, if◌then◌else◌,
  contains,
}
use hermes_agent_a2a.Int.{ℤ, pos, sub_ℕ}
use hermes_agent_a2a.Json.{
  Json, Fields, null, bool, num, neg, str, arr, obj, end, dict, lookup, get_or, as_dict, is_truthy,
  text_of,
}
use hermes_agent_a2a.Queue.State.{Ref}
use hermes_agent_a2a.RateLimiter.{RateLimitConfig, RateLimiter}
use hermes_agent_a2a.Protocol.{Draws}
use hermes_agent_a2a.Http.{
  Env, Settings, HttpRequest, App, Moment, Reply, json, Handled, answered, crashed, rpc_error,
  plain_error, error_reply,
}
use hermes_agent_a2a.Http.Access.{
  Admission, refused, fails, admitted, admit_post, check_auth, unauthorized,
}
use hermes_agent_a2a.Http.Routes.{
  GetRoute, subscribe_to_task, get_config, list_configs, get_task, extended_agent_card, list_tasks,
  agent_json, health, not_found, PostRoute, message_send, message_stream, json_rpc, cancel_task,
  create_config, path_of, get_route, post_route, delete_route, is_guarded,
}
use hermes_agent_a2a.Http.Tasks.{
  Core, sent, object, broken, get_task_core, cancel_task_core, rest_list_tasks, rpc_list_tasks,
}
use hermes_agent_a2a.Http.Artifacts.{emit_get_task_artifacts}
use hermes_agent_a2a.Http.PushConfigs.{
  rest_create_push_config, rest_get_push_config, rest_list_push_configs, rest_delete_push_config,
}
use hermes_agent_a2a.Http.Send.{Begun, begin_task_send, begin_rest_send, begin_rest_stream}

-- Where a request ends up: an answer; a send handler that has begun, over JSON-RPC, REST or as a stream; a
-- stream for a task; or a document of the configuration.
pub data Served : Type 0 where
  ended : Handled → Served
  rpc_send : Json → App → Begun → Served
  rest_send rest_stream : App → Begun → Served
  rpc_subscribe : Fields → Json → App → Served
  rest_subscribe : String → App → Served
  document : GetRoute → App → Served

-- What one request is given: the readings of the clock and the UUIDs, and the draws of the items of a list.
pub record Inputs : Type 0 where
  pub now : ℕ
  pub moment : Moment
  pub config_id : String
  pub item_draws : Ref → Draws
  -- the first values of `page_size` and `continuation_token` in the query
  pub page_size : Option String
  pub continuation_token : Option String
  -- the text of an exception, and of a number as a method's name
  pub exception_text : String

abbrev pub with_limiter : RateLimiter → App → App
with_limiter l a = record a { limiter = l }

abbrev pub missing : Reply
missing = json 404 (dict (("error", str "Not found") ∷ []))

-- A core's outcome as a REST handler sends it.
abbrev pub rest_core : App × Core → Handled
rest_core (a, sent r) = answered a r
rest_core (a, object task) = answered a (json 200 (dict (("task", obj task) ∷ [])))
rest_core (a, broken) = crashed a

-- The outcome of a handler of `do_GET`, which answers 500 to an exception.
abbrev pub caught : Handled → Served
caught h = ended (if h.raised then answered h.app (error_reply 500 32603 "Internal error") else h)

abbrev pub begin_rest : (App → Begun → Served) → App × Begun → Served
begin_rest f (a, b) = f a b

module _ (e : Env) (s : Settings) (c : RateLimitConfig) (r : HttpRequest) (i : Inputs) where
  -- `_do_rest_post(handler)`
  abbrev pub after_admission : (Json → App → Served) → App → RateLimiter × Admission → Served
  after_admission handler a (l, refused reply) = ended (answered (with_limiter l a) reply)
  after_admission handler a (l, fails) = ended (crashed (with_limiter l a))
  after_admission handler a (l, admitted body) = handler body (with_limiter l a)

  unfoldable pub do_rest_post : (Json → App → Served) → App → Served
  unfolding admit_post
  do_rest_post handler a =
      after_admission handler a (admit_post e.show plain_error s c i.now r a.limiter)

  -- A handler whose body must be a dictionary: `.get` raises on another value.
  abbrev pub on_fields : (Fields → App → Served) → Json → App → Served
  on_fields f body a = elim (as_dict body) [ none ↦ ended (crashed a) | some fs ↦ f fs a ]

  -- The result of a JSON-RPC handler, in its envelope.
  abbrev pub rpc_result : Json → Fields → Reply
  rpc_result rpc_id result =
      json 200 (dict (("jsonrpc", str "2.0") ∷ ("result", obj result) ∷ ("id", rpc_id) ∷ []))

  abbrev pub rpc_core : Json → App × Core → Handled
  rpc_core rpc_id (a, sent reply) = answered a reply
  rpc_core rpc_id (a, object task) = answered a (rpc_result rpc_id (dict (("task", obj task) ∷ [])))
  rpc_core rpc_id (a, broken) = crashed a

  abbrev pub rpc_get : String → Json → App → Core → Handled
  rpc_get tid rpc_id a (object task) =
      rpc_core rpc_id (emit_get_task_artifacts e i.moment tid task a, object task)
  rpc_get tid rpc_id a other = rpc_core rpc_id (a, other)

  abbrev pub rpc_list : Json → App → Option Fields → Handled
  rpc_list rpc_id a none = crashed a
  rpc_list rpc_id a (some page) = answered a (rpc_result rpc_id page)

  abbrev pub is_method : String → Bool
  is_method name =
      contains name
        ("SendMessage" ∷ "GetTask" ∷ "CancelTask" ∷ "SubscribeToTask" ∷ "ListTasks" ∷ [])

  abbrev pub no_method : String → Json → App → Served
  no_method name rpc_id a =
      ended (answered a (json 404 (rpc_error 32601 (append "Method not found: " name) rpc_id null)))

  -- The table `_RPC_METHODS`.
  unfoldable pub run_method : String → Fields → Json → App → Served
  unfolding get_task_core cancel_task_core emit_get_task_artifacts rpc_list_tasks begin_task_send
  run_method name params rpc_id a =
      if name == "SendMessage"
      then begin_rest (rpc_send rpc_id) (begin_task_send e i.moment r.remote params rpc_id a)
      else if name == "GetTask"
      then ended (
          rpc_get (text_of "id" params) rpc_id a
            (get_task_core e i.moment.draws (text_of "id" params) rpc_id a))
      else if name == "CancelTask"
      then ended
          (rpc_core rpc_id (cancel_task_core e i.moment.draws (text_of "id" params) rpc_id a))
      else if name == "SubscribeToTask"
      then rpc_subscribe params rpc_id a
      else if name == "ListTasks"
      then ended (rpc_list rpc_id a (rpc_list_tasks e i.item_draws params a.server.queue))
      else no_method name rpc_id a

  -- Parameters that are no dictionary make a handler of the table raise.
  -- A method that is no text is not in the table; a list or a dictionary cannot even be looked up.
  abbrev pub run_named : Json → Json → Json → App → Served
  run_named (str name) params rpc_id a = elim (as_dict params) [
    | none ↦ if is_method name then ended (crashed a) else no_method name rpc_id a
    | some fs ↦ run_method name fs rpc_id a
  ]
  run_named (arr _) params rpc_id a = ended (crashed a)
  run_named (obj _) params rpc_id a = ended (crashed a)
  run_named _ params rpc_id a = no_method i.exception_text rpc_id a

  abbrev pub is_version_2 : Fields → Bool
  is_version_2 body = text_of "jsonrpc" body == "2.0"

  unfoldable pub run_rpc : Fields → App → Served
  unfolding run_method is_truthy
  run_rpc body a =
      let rpc_id = get_or "id" null body in
      let name = get_or "method" (str "") body in
      if not (is_version_2 body)
      then ended (
          answered a (
            json 400
              (rpc_error 32600 "Invalid Request: missing or invalid jsonrpc field" rpc_id null)))
      else if not (is_truthy name)
      then ended
          (answered a (json 400 (rpc_error 32600 "Invalid Request: missing method" rpc_id null)))
      else run_named name (get_or "params" (obj end) body) rpc_id a

  -- `_do_json_rpc` answers an exception with a 500.
  abbrev pub rescued : Served → Served
  rescued (ended h) = ended (
      if h.raised
      then answered h.app (error_reply 500 32603 (append "Internal error: " i.exception_text))
      else h)
  rescued other = other

  unfoldable pub do_json_rpc : App → Served
  unfolding admit_post run_rpc
  do_json_rpc a = rescued (
      after_admission (on_fields run_rpc) a (
        admit_post e.show (λ code message. rpc_error code message null null) s c i.now r a.limiter))

  abbrev pub serve_post : PostRoute → App → Served
  serve_post message_send a =
      do_rest_post
        (on_fields (λ body b. begin_rest rest_send (begin_rest_send e i.moment r.remote body b))) a
  serve_post message_stream a =
      do_rest_post
        (on_fields
          (λ body b. begin_rest rest_stream (begin_rest_stream e i.moment r.remote body b)))
        a
  serve_post (cancel_task task_id) a =
      do_rest_post (λ body b. ended (rest_core (cancel_task_core e i.moment.draws task_id null b)))
        a
  serve_post (create_config task_id) a =
      do_rest_post
        (on_fields (λ body b. ended (rest_create_push_config e s r i.config_id task_id body b))) a
  serve_post json_rpc a = do_json_rpc a

  unfoldable pub do_post : App → Served
  unfolding do_rest_post do_json_rpc post_route path_of
  do_post a = serve_post (post_route (path_of r.path)) a

  abbrev pub serve_get : GetRoute → App → Served
  serve_get (subscribe_to_task task_id) a = rest_subscribe task_id a
  serve_get (get_config task_id config_id) a =
      caught (rest_get_push_config e s r task_id config_id a)
  serve_get (list_configs task_id) a = caught (rest_list_push_configs e s r task_id a)
  serve_get (get_task task_id) a =
      caught (rest_core (a, get_task_core e i.moment.draws task_id null a))
  serve_get list_tasks a = ended (
      answered a
        (json 200 (rest_list_tasks e i.item_draws i.page_size i.continuation_token a.server.queue)))
  serve_get not_found a = ended (answered a missing)
  serve_get other a = document other a

  -- The guard of `do_GET`: authorisation is asked for only where the server requires it.
  abbrev pub guarded_get : Option Bool → Served → App → Served
  guarded_get none rest a = ended (crashed a)
  guarded_get (some false) rest a = ended (answered a unauthorized)
  guarded_get (some true) rest a = rest

  unfoldable pub do_get : App → Served
  unfolding get_route path_of is_guarded check_auth
  do_get a =
      let path = path_of r.path in
      let rest = serve_get (get_route path) a in
      if is_guarded path && s.require_auth then guarded_get (check_auth s r) rest a else rest

  abbrev pub serve_delete : Option (String × String) → App → Handled
  serve_delete (some (task_id, config_id)) a = rest_delete_push_config e s r task_id config_id a
  serve_delete none a = answered a missing

  unfoldable pub do_delete : App → Handled
  unfolding delete_route path_of
  do_delete a = serve_delete (delete_route (path_of r.path)) a
