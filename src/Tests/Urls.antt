-- ===== src/Tests/Urls.antt =====
-- hermes_agent_a2a/security.py: the theorems at concrete inputs.
use hermes_agent_a2a.Json.{as_text, lookup, null, str, dict, Fields}
use hermes_agent_a2a.Prelude.{
  ◌⊎◌, ◌∷◌, [], ◌||◌, ◌≡◌, refl, Bool, true, false, Option, none, some, ◌==◌, if◌then◌else◌,
}
use hermes_agent_a2a.Http.Subscribe.Outside.{checked, app_after, subscribe-LeadsOutside}
use hermes_agent_a2a.Http.Subscribe.{handle_push_subscribe}
use hermes_agent_a2a.Tests.Server.{app, env}
use hermes_agent_a2a.Text.{is_space, between, starts_with}
use Prim.Native.String.{String}
use Prim.Native.Char.{Char, code}
use hermes_agent_a2a.Urls.{
  Address, v4, ParsedUrl, Lookup, found, not_found, is_in_any, private_cidrs,
  validate_webhook_endpoint, validate_host, validate_target_url,
}
use hermes_agent_a2a.Urls.Private.{in_private_range, private_v4_exact}
use hermes_agent_a2a.Urls.Safe.{LeadsOutside, webhook_endpoint-LeadsOutside}

private_v4_exact_example : is_in_any (v4 2886729729) private_cidrs ≡ in_private_range 2886729729
private_v4_exact_example = private_v4_exact 2886729729

-- Two addresses: 127.0.0.1 and 93.184.216.34.
abbrev read_address : String → Option Address
read_address s =
    if s == "127.0.0.1"
    then some (v4 2130706433)
    else if s == "93.184.216.34"
    then some (v4 1572395042)
    else none

abbrev unchanged : String → String
unchanged s = s

-- `isdigit` of a character, for the ASCII and the fullwidth digits.
abbrev is_digit : Char → Bool
is_digit c = between 48 57 (code c) || between 65296 65305 (code c)

-- A parser that gives one host, and cannot read one text.
abbrev parsed_at : String → String → String → Option ParsedUrl
parsed_at scheme host url =
    if url == "https://["
    then none
    else some (record { scheme = scheme; netloc = host; hostname = some host })

abbrev resolve_all : String → Lookup
resolve_all h =
    if h == "inside.example"
    then found "127.0.0.1"
    else if h == "missing.example"
    then not_found
    else found "93.184.216.34"

-- The answer for a host name, with a parser that gives that host.
abbrev answer_for : String → Option (Bool × String)
answer_for host =
    validate_webhook_endpoint read_address is_digit unchanged (parsed_at "https" host) resolve_all
      "https://hook"

abbrev refused_hook : Option (Bool × String)
refused_hook = some (false, "Webhook endpoint is not allowed: https://hook (SSRF protection)")

-- Names with an outer address, with an inner one, with none, and the inner address itself.
host_answers :
    (answer_for "hook.example" ≡ some (true, ""))
    × (answer_for "inside.example" ≡ refused_hook)
    × (answer_for "missing.example" ≡ refused_hook)
    × (answer_for "127.0.0.1" ≡ refused_hook)
unfolding validate_webhook_endpoint is_space
host_answers = (refl, refl, refl, refl)

-- A name that starts with a digit is not looked up, a fullwidth one included.
digit_answers : (answer_for "127.1" ≡ some (true, "")) × (answer_for "１27.0.0.1" ≡ some (true, ""))
unfolding validate_webhook_endpoint is_space
digit_answers = (refl, refl)

unreadable_raises :
    validate_webhook_endpoint read_address is_digit unchanged
      (parsed_at "https" "")
      resolve_all
      "https://["
    ≡ none
unfolding validate_webhook_endpoint is_space
unreadable_raises = refl

slashes_dropped :
    validate_target_url read_address is_digit unchanged
      (parsed_at "http" "hook.example:80")
      resolve_all
      " http://hook.example:80// "
      false
    ≡ some "http://hook.example:80"
unfolding validate_target_url is_space
slashes_dropped = refl

private_host :
    validate_host read_address is_digit unchanged
      (parsed_at "http" "127.0.0.1:80")
      resolve_all
      "127.0.0.1:80"
    ≡ none
unfolding validate_host
private_host = refl

outside_answer : answer_for "hook.example" ≡ some (true, "")
outside_answer = host_answers.0

webhook_endpoint-LeadsOutside_example :
    (starts_with "https://" "https://hook" ≡ true)
    × LeadsOutside read_address is_digit unchanged
        (parsed_at "https" "hook.example")
        resolve_all
        "https://hook"
webhook_endpoint-LeadsOutside_example =
    webhook_endpoint-LeadsOutside read_address is_digit unchanged (parsed_at "https" "hook.example")
      resolve_all "https://hook" "" outside_answer

abbrev parse_inside : String → Option ParsedUrl
parse_inside = parsed_at "https" "inside.example"

-- A request for task "t0" with a host name of an inner address.
abbrev inside_params : Fields
inside_params =
    dict (("taskId", str "t0") ∷ ("url", str "https://hook") ∷ ("hmacKey", str "key") ∷ [])

subscribe-LeadsOutside_example :
    (app_after app (
        handle_push_subscribe
          (checked read_address is_digit unchanged parse_inside resolve_all env)
          100
          5
          "s1"
          inside_params
          null
          app)
      ≡ app)
    ⊎ ((starts_with "https://" "https://hook" ≡ true)
        × LeadsOutside read_address is_digit unchanged parse_inside resolve_all "https://hook")
unfolding lookup as_text
subscribe-LeadsOutside_example =
    subscribe-LeadsOutside read_address is_digit unchanged parse_inside resolve_all env 100 5 "s1"
      inside_params null app
