-- ===== src/Tests/Boot.antt =====
-- hermes_agent_a2a/validators.py and identity.py: the theorems at concrete inputs.
use hermes_agent_a2a.Text.{is_space}
use hermes_agent_a2a.Int.{sub_ℕ}
use hermes_agent_a2a.Prelude.{
  String, ◌≡◌, refl, true, Option, none, some, ◌==◌, ◌∷◌, [], if◌then◌else◌,
}
use hermes_agent_a2a.Json.{Json, str, obj, Fields, dict}
use hermes_agent_a2a.Text.Number.{ascii_digit}
use hermes_agent_a2a.Boot.{
  Answer, answered, http_error, unreachable, Refusal, placeholder, rejected_token, no_integer,
  no_chat_id, broken, validate, telegram_of, telegram_identity, from_env, from_explicit_config,
}
use hermes_agent_a2a.Boot.Exact.{passes, is_bootable_telegram, passes-validate}

abbrev show_any : Json → String
show_any v = "?"

-- Telegram knows one token, is slow for another, and is down for a third.
abbrev telegram : String → Answer
telegram t =
    if t == "good"
    then answered true
    else if t == "busy"
    then http_error 429
    else if t == "down"
    then unreachable
    else http_error 401

abbrev identity_with : String → String → Fields
identity_with token chat_id = telegram_identity (str token) (str chat_id)

passes-validate_example :
    passes (validate ascii_digit show_any telegram (identity_with " busy " "-100"))
    ≡ is_bootable_telegram ascii_digit show_any telegram
        (telegram_of (identity_with " busy " "-100"))
passes-validate_example =
    passes-validate ascii_digit show_any telegram (identity_with " busy " "-100")

busy_boots : validate ascii_digit show_any telegram (identity_with " busy " "-100") ≡ none
unfolding validate is_space sub_ℕ
busy_boots = refl

down_refused : validate ascii_digit show_any telegram (identity_with "down" "42") ≡ some broken
unfolding validate is_space
down_refused = refl

placeholder_refused :
    validate ascii_digit show_any telegram (identity_with "${TOKEN}" "42") ≡ some placeholder
unfolding validate is_space
placeholder_refused = refl

unknown_refused :
    validate ascii_digit show_any telegram (identity_with "bad" "42") ≡ some rejected_token
unfolding validate is_space
unknown_refused = refl

words_refused : validate ascii_digit show_any telegram (identity_with "good" "me") ≡ some no_integer
unfolding validate is_space
words_refused = refl

-- An identity from the environment without a chat id does not boot.
abbrev env_identity : Option Refusal
env_identity = elim (from_env (some "good") none) [
  | none ↦ none
  | some i ↦ validate ascii_digit show_any telegram i
]

env_refused : env_identity ≡ some no_chat_id
unfolding validate from_env is_space
env_refused = refl

configured :
    from_explicit_config (
      dict (
        ("a2a", obj (dict (("bot_token", str " good ") ∷ ("default_chat_id", str "7") ∷ []))) ∷ []))
    ≡ some (identity_with "good" "7")
unfolding from_explicit_config is_space
configured = refl
