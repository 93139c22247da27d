-- ===== src/Boot.antt =====
-- hermes_agent_a2a/validators.py: `BootValidator`, and the two sources of an identity in identity.py that
-- read no file, `_from_env` and `_from_explicit_config`. `str` of a value that is no text is a parameter,
-- and so is what Telegram's /getMe answers for a token.
pub mod Exact
use Prim.Native.Char.{Char}
use hermes_agent_a2a.Json.{
  fields_at, text_of, as_text, Json, null, bool, num, neg, str, arr, obj, Fields, end, lookup,
  as_dict, get_or, is_truthy, dict, text_or_null,
}
use hermes_agent_a2a.Prelude.{
  ℕ, String, Bool, true, false, not, ◌&&◌, ◌||◌, Option, none, some, [], ◌∷◌, ◌==◌, eqb,
  if◌then◌else◌,
}
use hermes_agent_a2a.Int.{ℤ, pos, negsuc, sub_ℕ}
use hermes_agent_a2a.Text.{starts_with, occurs, strip}
use hermes_agent_a2a.Text.Number.{int_of}

-- Why the boot is refused; `broken` is an error that the checks do not raise themselves.
pub data Refusal : Type 0 where
  no_token placeholder no_chat_id no_integer zero_chat_id not_ok rejected_token broken : Refusal

-- What /getMe answers: JSON with its field "ok", an HTTP error with its code, or any other error.
pub data Answer : Type 0 where
  answered : Bool → Answer
  http_error : ℕ → Answer
  unreachable : Answer

-- d.get(k, {}), where a value that is no dictionary has no `get`
unfoldable pub section_at : String → Fields → Option Fields
unfolding lookup as_dict
section_at k fs = elim (lookup k fs) [ none ↦ some end | some v ↦ as_dict v ]

abbrev pub telegram_in : Option Fields → Option Fields
telegram_in none = none
telegram_in (some platforms) = section_at "telegram" platforms

unfoldable pub telegram_of : Fields → Option Fields
unfolding section_at
telegram_of identity = telegram_in (section_at "platforms" identity)

unfoldable pub is_placeholder : String → Bool
unfolding starts_with occurs
is_placeholder token = starts_with "${" token || occurs "}" token

-- v == 0
abbrev pub equals_zero : Json → Bool
equals_zero (bool b) = not b
equals_zero (num n) = eqb n 0
equals_zero (neg n) = eqb n 0
equals_zero _ = false

unfoldable pub check_number : Option ℤ → Option Refusal
check_number none = some no_integer
check_number (some (pos n)) = if eqb n 0 then some zero_chat_id else none
check_number (some (negsuc n)) = none

abbrev pub judge : Answer → Option Refusal
judge (answered ok) = if ok then none else some not_ok
judge (http_error code) = if eqb code 401 then some rejected_token else none
judge unreachable = some broken

-- One check after the other: the first refusal ends the boot.
abbrev pub and_then : Option Refusal → Option Refusal → Option Refusal
and_then none next = next
and_then (some r) next = some r

-- `digit_value` is the value of a decimal digit.
module _ (digit_value : Char → Option ℕ) where
  unfoldable pub check_chat_value : Json → Option Refusal
  unfolding is_truthy int_of check_number
  check_chat_value chat_id =
      if not (is_truthy chat_id) && not (equals_zero chat_id)
      then some no_chat_id
      else check_number (int_of digit_value chat_id)

  abbrev pub check_chat_in : Option Fields → Option Refusal
  check_chat_in none = some broken
  check_chat_in (some telegram) = check_chat_value (get_or "default_chat_id" null telegram)

  unfoldable pub check_chat_id : Fields → Option Refusal
  unfolding telegram_of check_chat_value
  check_chat_id identity = check_chat_in (telegram_of identity)

  module _ (show : Json → String) (get_me : String → Answer) where
    abbrev pub string_of : Json → String
    string_of (str s) = s
    string_of v = show v

    unfoldable pub bot_token : Fields → String
    unfolding strip
    bot_token telegram = strip (string_of (get_or "bot_token" (str "") telegram))

    unfoldable pub check_token_text : String → Option Refusal
    unfolding is_placeholder
    check_token_text token =
        if token == ""
        then some no_token
        else if is_placeholder token
        then some placeholder
        else none

    abbrev pub check_bot_token_in : Option Fields → Option Refusal
    check_bot_token_in none = some broken
    check_bot_token_in (some telegram) = check_token_text (bot_token telegram)

    unfoldable pub check_bot_token : Fields → Option Refusal
    unfolding telegram_of check_token_text bot_token
    check_bot_token identity = check_bot_token_in (telegram_of identity)

    unfoldable pub validate_token_with_telegram : String → Option Refusal
    validate_token_with_telegram token = judge (get_me token)

    unfoldable pub check_live_text : String → Option Refusal
    unfolding validate_token_with_telegram is_placeholder
    check_live_text token =
        if not (token == "") && not (is_placeholder token)
        then validate_token_with_telegram token
        else none

    abbrev pub check_live_in : Option Fields → Option Refusal
    check_live_in none = some broken
    check_live_in (some telegram) = check_live_text (bot_token telegram)

    -- `none` if all checks pass.
    unfoldable pub validate : Fields → Option Refusal
    unfolding check_bot_token check_chat_id check_live_text
    validate identity =
        and_then (check_bot_token identity)
          (and_then (check_chat_id identity) (check_live_in (telegram_of identity)))

-- The identity that both sources build.
abbrev pub telegram_identity : Json → Json → Fields
telegram_identity token chat_id = dict (
    (
      "platforms",
      obj (
          dict (
            ("telegram", obj (dict (("bot_token", token) ∷ ("default_chat_id", chat_id) ∷ [])))
            ∷ [])),
    )
    ∷ ("defaults", obj (dict (("platform", str "telegram") ∷ ("chat_type", str "dm") ∷ [])))
    ∷ [])

-- `token` and `chat_id` are A2A_TELEGRAM_BOT_TOKEN and A2A_OWNER_CHAT_ID.
unfoldable pub from_env : Option String → Option String → Option Fields
from_env none chat_id = none
from_env (some token) chat_id =
    if token == "" then none else some (telegram_identity (str token) (text_or_null chat_id))

-- The fields of `config["a2a"]` are texts.
unfoldable pub from_explicit_config : Fields → Option Fields
unfolding lookup as_dict as_text is_truthy strip
from_explicit_config config = elim (fields_at "a2a" config) [
  | none ↦ none
  | some a2a ↦
      let token = strip (text_of "bot_token" a2a) in
      let chat_id = strip (text_of "default_chat_id" a2a) in
      if not (is_truthy (obj a2a)) || token == ""
      then none
      else some (telegram_identity (str token) (str chat_id))
]
