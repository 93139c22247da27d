-- ===== src/Http/Routes.antt =====
-- hermes_agent_a2a/server.py: the tables by which `do_GET`, `do_POST`, `do_DELETE` and `do_OPTIONS` choose
-- a handler from the path, in their order.
pub mod RoundTrip
use hermes_agent_a2a.Prelude.{
  ℕ, String, Bool, true, false, ◌&&◌, ◌||◌, Option, none, some, List, [], ◌∷◌, ◌==◌, eqb,
  if◌then◌else◌, length,
}
use hermes_agent_a2a.Text.{starts_with, occurs, before, split, drop_text}

-- self.path.split("?")[0]
unfoldable pub path_of : String → String
unfolding before
path_of p = before "?" p

-- path.split("/")
unfoldable pub segments_of : String → List String
unfolding split
segments_of p = split 47 p

pub data GetRoute : Type 0 where
  subscribe_to_task : String → GetRoute
  get_config : String → String → GetRoute
  list_configs : String → GetRoute
  get_task : String → GetRoute
  extended_agent_card list_tasks agent_json health not_found : GetRoute

-- s[2] of a path that starts with "/tasks/"
abbrev pub third : List String → String
third (a ∷ b ∷ c ∷ _) = c
third _ = ""

-- len(s) == 5 and s[1] == "tasks" and s[3] == "pushNotificationConfigs", with s[2] and s[4]
abbrev pub config_path : List String → Option (String × String)
config_path (_ ∷ a ∷ task_id ∷ b ∷ config_id ∷ []) =
    if a == "tasks" && b == "pushNotificationConfigs" then some (task_id, config_id) else none
config_path _ = none

-- len(s) == 4 and s[1] == "tasks" and s[3] == "pushNotificationConfigs", with s[2]
abbrev pub configs_path : List String → Option String
configs_path (_ ∷ a ∷ task_id ∷ b ∷ []) =
    if a == "tasks" && b == "pushNotificationConfigs" then some task_id else none
configs_path _ = none

-- The rows from GetTask on, and the built-in endpoints.
unfoldable pub plain_route : String → List String → GetRoute
unfolding starts_with
plain_route p segments =
    if starts_with "/tasks/" p && eqb (length segments) 3
    then get_task (third segments)
    else if p == "/extendedAgentCard"
    then extended_agent_card
    else if p == "/tasks"
    then list_tasks
    else if p == "/.well-known/agent.json"
    then agent_json
    else if p == "/health"
    then health
    else not_found

abbrev pub list_or : String → List String → Option String → GetRoute
list_or p segments (some task_id) = list_configs task_id
list_or p segments none = plain_route p segments

abbrev pub config_or : String → List String → Option (String × String) → GetRoute
config_or p segments (some (task_id, config_id)) = get_config task_id config_id
config_or p segments none = list_or p segments (configs_path segments)

unfoldable pub get_route : String → GetRoute
unfolding starts_with occurs before segments_of plain_route
get_route p =
    let segments = segments_of p in
    if starts_with "/tasks/" p && occurs ":subscribe" p
    then subscribe_to_task (before ":subscribe" (third segments))
    else config_or p segments (config_path segments)

-- The paths whose GET is guarded.
unfoldable pub is_guarded : String → Bool
unfolding starts_with
is_guarded p = starts_with "/tasks" p || starts_with "/extendedAgentCard" p

pub data PostRoute : Type 0 where
  message_send message_stream json_rpc : PostRoute
  cancel_task create_config : String → PostRoute

abbrev pub create_or_rpc : Option String → PostRoute
create_or_rpc (some task_id) = create_config task_id
create_or_rpc none = json_rpc

unfoldable pub post_route : String → PostRoute
unfolding starts_with occurs before drop_text segments_of
post_route p =
    if p == "/message:send"
    then message_send
    else if p == "/message:stream"
    then message_stream
    else if starts_with "/tasks/" p && occurs ":cancel" p
    then cancel_task (before ":cancel" (before "/tasks/" (drop_text 7 p)))
    else create_or_rpc (configs_path (segments_of p))

-- The configuration to delete, or none for a 404.
unfoldable pub delete_route : String → Option (String × String)
unfolding segments_of
delete_route p = config_path (segments_of p)

-- The methods that the answer to a preflight request allows.
unfoldable pub options_allowed : String → String
unfolding starts_with occurs
options_allowed p =
    if starts_with "/tasks/" p && occurs ":subscribe" p
    then "GET, OPTIONS"
    else if p == "/message:stream"
    then "POST, OPTIONS"
    else "POST, OPTIONS"
