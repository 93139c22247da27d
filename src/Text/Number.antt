-- ===== src/Text/Number.antt =====
-- Python's `int` of a text in base 10: white space around it, a sign, digits, and single underscores
-- between digits; and `int` of a JSON value. `digit_value` is the value of a character that is a decimal
-- digit of some script.
use Prim.Native.Char.{Char, code}
use Prim.Native.String.{String}
use hermes_agent_a2a.Prelude.{
  ℕ, ◌+◌, ◌-◌, ◌*◌, Bool, true, false, ◌&&◌, Option, none, some, eqb, if◌then◌else◌,
}
use hermes_agent_a2a.Json.{Json, bool, num, neg, str}
use hermes_agent_a2a.Int.{ℤ, pos, sub_ℕ}
use hermes_agent_a2a.Text.{between, strip}

-- The ASCII digits, the only ones that a header can hold.
abbrev pub ascii_digit : Char → Option ℕ
ascii_digit c = if between 48 57 (code c) then some (code c - 48) else none

module _ (digit_value : Char → Option ℕ) where
  -- The number read so far, and whether the last character was a digit; `none` once the text is no number.
  abbrev digit_step : Char → Option (ℕ × Bool) → Option (ℕ × Bool)
  digit_step c none = none
  digit_step c (some (n, after_digit)) = elim (digit_value c) [
    | some d ↦ some (n * 10 + d, true)
    | none ↦ if eqb (code c) 95 && after_digit then some (n, false) else none
  ]

  abbrev finished : Option (ℕ × Bool) → Option ℕ
  finished none = none
  finished (some (n, after_digit)) = if after_digit then some n else none

  unfoldable pub read_digits : Option (ℕ × Bool) → String → Option ℕ
  read_digits st String.[] = finished st
  read_digits st (String.◌∷◌ c s) = read_digits (digit_step c st) s

  abbrev negated : Option ℕ → Option ℤ
  negated none = none
  negated (some n) = some (sub_ℕ 0 n)

  abbrev positive : Option ℕ → Option ℤ
  positive none = none
  positive (some n) = some (pos n)

  unfoldable pub read_signed : String → Option ℤ
  unfolding read_digits
  read_signed String.[] = none
  read_signed (String.◌∷◌ c s) =
      if eqb (code c) 45
      then negated (read_digits (some (0, false)) s)
      else if eqb (code c) 43
      then positive (read_digits (some (0, false)) s)
      else positive (read_digits (some (0, false)) (String.◌∷◌ c s))

  unfoldable pub parse_int : String → Option ℤ
  unfolding read_signed strip
  parse_int s = read_signed (strip s)

  -- `none` for a ValueError or a TypeError
  unfoldable pub int_of : Json → Option ℤ
  unfolding parse_int
  int_of (bool b) = some (pos (if b then 1 else 0))
  int_of (num n) = some (pos n)
  int_of (neg n) = some (sub_ℕ 0 n)
  int_of (str s) = parse_int s
  int_of _ = none
