-- ===== src/Http/Dispatch/Unauthorized.antt =====
-- hermes_agent_a2a/server.py: what an unauthorised caller can do.
use hermes_agent_a2a.Prelude.{◌≡◌, refl, false, some}
use hermes_agent_a2a.Json.{Json, Fields, null}
use hermes_agent_a2a.RateLimiter.{RateLimitConfig}
use hermes_agent_a2a.Http.{Env, Settings, HttpRequest, App, json, answered, plain_error, rpc_error}
use hermes_agent_a2a.Http.Access.{admit_post, check_auth}
use hermes_agent_a2a.Http.Routes.{
  PostRoute, message_send, message_stream, json_rpc, cancel_task, create_config, post_route,
  path_of,
}
use hermes_agent_a2a.Http.Dispatch.{
  Served, ended, Inputs, do_rest_post, do_json_rpc, do_post, serve_post,
}

module _ (e : Env) (s : Settings) (c : RateLimitConfig) (r : HttpRequest) (i : Inputs) (a : App)
    (refusal : check_auth s r ≡ some false) where
  rest_refused :
      (handler : Json → App → Served)
      → do_rest_post e s c r i handler a
        ≡ ended (answered a (json 401 (plain_error 32603 "Unauthorized")))
  unfolding do_rest_post admit_post
  rest_refused handler = rw refusal refl

  rpc_refused :
      do_json_rpc e s c r i a
      ≡ ended (answered a (json 401 (rpc_error 32603 "Unauthorized" null null)))
  unfolding do_json_rpc admit_post
  rpc_refused = rw refusal refl

  refusal_of : PostRoute → Fields
  refusal_of json_rpc = rpc_error 32603 "Unauthorized" null null
  refusal_of _ = plain_error 32603 "Unauthorized"

  post_refused :
      (p : PostRoute) → serve_post e s c r i p a ≡ ended (answered a (json 401 (refusal_of p)))
  unfolding refusal_of
  post_refused message_send = rest_refused _
  post_refused message_stream = rest_refused _
  post_refused (cancel_task task_id) = rest_refused _
  post_refused (create_config task_id) = rest_refused _
  post_refused json_rpc = rpc_refused

-- A POST of a caller that the check of its credentials turns away, whatever its path and its body, is
-- answered with 401 and changes nothing, not even the caller's share of the rate limit.
pub unauthorized_post :
    (e : Env) (s : Settings) (c : RateLimitConfig) (r : HttpRequest) (i : Inputs) (a : App)
    → check_auth s r ≡ some false
    → (body : Fields) × (do_post e s c r i a ≡ ended (answered a (json 401 body)))
unfolding do_post
unauthorized_post e s c r i a refusal = (
  refusal_of e s c r i a refusal (post_route (path_of r.path)),
  post_refused e s c r i a refusal (post_route (path_of r.path)),
)
