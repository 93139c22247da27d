-- ===== src/Http/Messages/Sender.antt =====
-- hermes_agent_a2a/server.py: what is left of a sender's name.
use Prim.Native.Char.{Char}
use Prim.Native.String.{String}
use hermes_agent_a2a.Prelude.{
  ℕ, zero, suc, ◌≤◌, ◌≡◌, Bool, true, some, arith, inl, inr, Bool-cases, if◌then◌else◌, is_some,
  eq_iff,
}
use hermes_agent_a2a.Json.{Json, Fields, str, field, end, lookup, assign, text_of}
use hermes_agent_a2a.Text.{keep_chars, take_text, text_length}
use hermes_agent_a2a.Http.Messages.{is_name_char, clean_name, default_name, resolve_sender_name}

-- Every character of the text passes the test.
abbrev pub AllChars : (Char → Bool) → String → Type 0
AllChars p String.[] = Unit
AllChars p (String.◌∷◌ c s) = (p c ≡ true) × AllChars p s

keep_chars-AllChars : (p : Char → Bool) (s : String) → AllChars p (keep_chars p s)
unfolding keep_chars
keep_chars-AllChars p String.[] = tt
keep_chars-AllChars p (String.◌∷◌ c s) = elim (Bool-cases (p c)) [
  | inl e ↦ rw e (e, keep_chars-AllChars p s)
  | inr e ↦ rw e (keep_chars-AllChars p s)
]

take_text-AllChars :
    (p : Char → Bool) (n : ℕ) (s : String) → AllChars p s → AllChars p (take_text n s)
unfolding take_text
take_text-AllChars p zero s h = tt
take_text-AllChars p (suc n) String.[] h = tt
take_text-AllChars p (suc n) (String.◌∷◌ c s) h = (h.0, take_text-AllChars p n s h.1)

text_length-take_text : (n : ℕ) (s : String) → text_length (take_text n s) ≤ n
unfolding take_text text_length
text_length-take_text zero s = omega arith
text_length-take_text (suc n) String.[] = omega arith
text_length-take_text (suc n) (String.◌∷◌ c s) = omega (arith, text_length-take_text n s)

pub lookup-assign : (k : String) (v : Json) (fs : Fields) → lookup k (assign k v fs) ≡ some v
unfolding lookup assign
lookup-assign k v end = ground (arith, eq_iff k k)
lookup-assign k v (field j w fs) = ground (arith, eq_iff k k, eq_iff j k, lookup-assign k v fs)

-- Whatever a message and its request say, the sender's name that is kept has at most 64 characters, and
-- each of them is alphanumeric or one of "-_.@ ".
pub sender_name_clean :
    (is_alnum : Char → Bool) (metadata source : Fields) (client_ip : String)
    → (name : String) × (lookup "sender_name"
          (resolve_sender_name is_alnum metadata source client_ip)
        ≡ some (str name))
      × (text_length name ≤ 64)
      × AllChars (is_name_char is_alnum) name
unfolding resolve_sender_name clean_name
sender_name_clean is_alnum metadata source client_ip =
    let raw : String =
      if is_some (lookup "sender_name" metadata)
      then text_of "sender_name" metadata
      else default_name metadata source client_ip in
    let kept = keep_chars (is_name_char is_alnum) raw in
    (
      take_text 64 kept,
      lookup-assign "sender_name" (str (take_text 64 kept)) metadata,
      text_length-take_text 64 kept,
      take_text-AllChars (is_name_char is_alnum) 64 kept
          (keep_chars-AllChars (is_name_char is_alnum) raw),
    )
