-- ===== src/Boot/Exact.antt =====
-- hermes_agent_a2a/validators.py: which identities pass the boot checks.
use hermes_agent_a2a.Text.Number.{parse_int, int_of}
use mathlib.Core.Path.{subst, sym}
use hermes_agent_a2a.Prelude.{
  Bool-cases, inl, inr, eq_iff, String, Bool, true, false, not, ◌&&◌, Option, none, some, ◌==◌, eqb,
  ◌≡◌, refl, arith,
}
use hermes_agent_a2a.Int.{ℤ, pos, negsuc}
use hermes_agent_a2a.Json.{
  Json, null, bool, num, neg, str, arr, obj, nil, cons, Fields, end, field, get_or,
}
use hermes_agent_a2a.Boot.{
  Refusal, Answer, answered, http_error, unreachable, telegram_of, is_placeholder, check_chat_value,
  check_number, bot_token, check_token_text, check_live_text, check_bot_token_in, check_chat_in,
  check_live_in, and_then, validate, judge, Char, ℕ,
}

abbrev pub passes : Option Refusal → Bool
passes none = true
passes (some r) = false

abbrev pub is_nonzero : Option ℤ → Bool
is_nonzero none = false
is_nonzero (some (pos n)) = not (eqb n 0)
is_nonzero (some (negsuc n)) = true

-- A token that Telegram confirms, or a failure other than a rejection that came with an answer.
abbrev pub is_live : Answer → Bool
is_live (answered ok) = ok
is_live (http_error code) = not (eqb code 401)
is_live unreachable = false

module _ (digit_value : Char → Option ℕ) (show : Json → String) (get_me : String → Answer) where
  abbrev pub is_bootable_telegram : Option Fields → Bool
  is_bootable_telegram none = false
  is_bootable_telegram (some telegram) =
      let token = bot_token digit_value show get_me telegram in
      (not (token == "") && not (is_placeholder token))
      && is_nonzero (int_of digit_value (get_or "default_chat_id" null telegram))
      && is_live (get_me token)

  passes-check_number : (o : Option ℤ) → passes (check_number o) ≡ is_nonzero o
  unfolding check_number
  passes-check_number none = refl
  passes-check_number (some (pos n)) = ground arith
  passes-check_number (some (negsuc n)) = refl

  text_chat :
      (s : String)
      → passes (check_chat_value digit_value (str s)) ≡ is_nonzero (int_of digit_value (str s))
  unfolding check_chat_value
  text_chat s = elim (Bool-cases (s == "")) [
    | inl empty ↦
        subst
          (λ t.
            passes (check_chat_value digit_value (str t)) ≡ is_nonzero (int_of digit_value (str t)))
          (sym ((eq_iff s "").0 empty)) refl
    | inr filled ↦ ground (arith, filled, passes-check_number (parse_int digit_value s))
  ]

  passes-check_chat_value :
      (v : Json) → passes (check_chat_value digit_value v) ≡ is_nonzero (int_of digit_value v)
  unfolding check_chat_value
  passes-check_chat_value null = ground arith
  passes-check_chat_value (bool true) = ground arith
  passes-check_chat_value (bool false) = ground arith
  passes-check_chat_value (num n) = ground arith
  passes-check_chat_value (neg n) = ground arith
  passes-check_chat_value (str s) = text_chat s
  passes-check_chat_value (arr nil) = ground arith
  passes-check_chat_value (arr (cons j js)) = ground arith
  passes-check_chat_value (obj end) = ground arith
  passes-check_chat_value (obj (field k j fs)) = ground arith

  passes-judge : (a : Answer) → passes (judge a) ≡ is_live a
  passes-judge (answered ok) = ground arith
  passes-judge (http_error code) = ground arith
  passes-judge unreachable = refl

  chat_lem :
      (telegram : Fields)
      → passes (check_chat_in digit_value (some telegram))
        ≡ is_nonzero (int_of digit_value (get_or "default_chat_id" null telegram))
  chat_lem telegram = passes-check_chat_value (get_or "default_chat_id" null telegram)

  passes-all :
      (a b c : Option Refusal) (x y z : Bool)
      → passes a ≡ x
      → passes b ≡ y
      → (x ≡ true → passes c ≡ z)
      → passes (and_then a (and_then b c)) ≡ (x && y && z)
  passes-all (some r) b c x y z p q h = ground (arith, p)
  passes-all none (some r) c x y z p q h = ground (arith, p, q)
  passes-all none none c x y z p q h = ground (arith, p, q, h (sym p))

  check_text_lem :
      (token : String)
      → passes (check_token_text digit_value show get_me token)
        ≡ (not (token == "") && not (is_placeholder token))
  unfolding check_token_text
  check_text_lem token = ground arith

  live_lem :
      (token : String)
      → not (token == "") && not (is_placeholder token) ≡ true
      → passes (check_live_text digit_value show get_me token) ≡ is_live (get_me token)
  unfolding check_live_text
  live_lem token h = ground (arith, h, passes-judge (get_me token))

  boot_lem :
      (o : Option Fields)
      → passes (
          and_then
            (check_bot_token_in digit_value show get_me o)
            (and_then (check_chat_in digit_value o) (check_live_in digit_value show get_me o)))
        ≡ is_bootable_telegram o
  boot_lem none = refl
  boot_lem (some telegram) =
      let token = bot_token digit_value show get_me telegram in
      passes-all (check_token_text digit_value show get_me token)
        (check_chat_in digit_value (some telegram)) (check_live_text digit_value show get_me token)
        (not (token == "") && not (is_placeholder token))
        (is_nonzero (int_of digit_value (get_or "default_chat_id" null telegram)))
        (is_live (get_me token)) (check_text_lem token) (chat_lem telegram) (live_lem token)

  -- The boot checks pass exactly if the entries "platforms" and "telegram", where present, are
  -- dictionaries, the bot token is neither empty nor a placeholder, the chat id is read as an integer
  -- other than zero, and Telegram either confirms the token or answers with an HTTP error other than
  -- 401. So a Telegram that cannot be reached refuses the boot.
  pub passes-validate :
      (identity : Fields)
      → passes (validate digit_value show get_me identity)
        ≡ is_bootable_telegram (telegram_of identity)
  unfolding validate
  passes-validate identity = boot_lem (telegram_of identity)
