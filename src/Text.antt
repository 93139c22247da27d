-- ===== src/Text.antt =====
-- Python's `str` methods that the program uses, on texts as sequences of characters: split, join,
-- strip, startswith, `in`, slices, and `or` on texts that may be missing.
pub mod Laws
pub mod Number
pub mod Barrier
use Prim.Native.Char.{Char, code}
use Prim.Native.String.{String, ◌++◌ as append}
use hermes_agent_a2a.Prelude.{
  ℕ, zero, suc, ◌+◌, Bool, true, false, ◌&&◌, ◌||◌, Option, none, some, List, [], ◌∷◌, eqb, leb,
  if◌then◌else◌, ◌==◌,
}

-- s.startswith(p)
unfoldable pub starts_with : String → String → Bool
starts_with String.[] s = true
starts_with (String.◌∷◌ c p) String.[] = false
starts_with (String.◌∷◌ c p) (String.◌∷◌ d s) = eqb (code c) (code d) && starts_with p s

-- sub in s
unfoldable pub occurs : String → String → Bool
unfolding starts_with
occurs sub String.[] = starts_with sub ""
occurs sub (String.◌∷◌ c s) = starts_with sub (String.◌∷◌ c s) || occurs sub s

-- s.split(sep)[0], for a separator that is not empty
unfoldable pub before : String → String → String
unfolding starts_with
before sep String.[] = ""
before sep (String.◌∷◌ c s) =
    let rest = before sep s in if starts_with sep (String.◌∷◌ c s) then "" else String.◌∷◌ c rest

abbrev pub push_char : Char → List String → List String
push_char c [] = String.◌∷◌ c "" ∷ []
push_char c (x ∷ xs) = String.◌∷◌ c x ∷ xs

-- s.split(sep), for a separator of one character, given by its code
unfoldable pub split : ℕ → String → List String
split sep String.[] = "" ∷ []
split sep (String.◌∷◌ c s) =
    let rest = split sep s in if eqb (code c) sep then "" ∷ rest else push_char c rest

-- sep.join(xs)
unfoldable pub join : String → List String → String
join sep [] = ""
join sep (x ∷ []) = x
join sep (x ∷ y ∷ xs) = append x (append sep (join sep (y ∷ xs)))

-- s[n:]
unfoldable pub drop_text : ℕ → String → String
drop_text zero s = s
drop_text (suc n) String.[] = ""
drop_text (suc n) (String.◌∷◌ c s) = drop_text n s

-- s[:n]
unfoldable pub take_text : ℕ → String → String
take_text zero s = ""
take_text (suc n) String.[] = ""
take_text (suc n) (String.◌∷◌ c s) = String.◌∷◌ c (take_text n s)

abbrev pub between : ℕ → ℕ → ℕ → Bool
between a b n = leb a n && leb n b

-- The white space of `str.isspace`.
unfoldable pub is_space : Char → Bool
is_space c =
    let n = code c in
    between 9 13 n
    || between 28 32 n
    || eqb n 133
    || eqb n 160
    || eqb n 5760
    || between 8192 8202 n
    || between 8232 8233 n
    || eqb n 8239
    || eqb n 8287
    || eqb n 12288

unfoldable pub lstrip : String → String
lstrip String.[] = ""
lstrip (String.◌∷◌ c s) = let rest = lstrip s in if is_space c then rest else String.◌∷◌ c s

abbrev pub cons_rstripped : Char → String → String
cons_rstripped c String.[] = if is_space c then "" else String.◌∷◌ c ""
cons_rstripped c (String.◌∷◌ d s) = String.◌∷◌ c (String.◌∷◌ d s)

unfoldable pub rstrip : String → String
rstrip String.[] = ""
rstrip (String.◌∷◌ c s) = cons_rstripped c (rstrip s)

-- s.strip()
unfoldable pub strip : String → String
unfolding lstrip rstrip
strip s = rstrip (lstrip s)

-- "".join(c for c in s if p(c))
unfoldable pub keep_chars : (Char → Bool) → String → String
keep_chars p String.[] = ""
keep_chars p (String.◌∷◌ c s) = let rest = keep_chars p s in if p c then String.◌∷◌ c rest else rest

-- The number of characters, len(s).
unfoldable pub text_length : String → ℕ
text_length String.[] = 0
text_length (String.◌∷◌ c s) = text_length s + 1

-- `x or None`, and `x or y`, on a text that may be missing: the empty text is false
abbrev pub filled : Option String → Option String
filled none = none
filled (some s) = if s == "" then none else some s

abbrev pub or_text : Option String → String → String
or_text none d = d
or_text (some s) d = if s == "" then d else s
