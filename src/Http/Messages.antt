-- ===== src/Http/Messages.antt =====
-- hermes_agent_a2a/server.py: what the send handlers read in a message: its text, its context and its
-- sender's name, which they write back into the metadata that the payload of the request holds.
pub mod Sender
use Prim.Native.Char.{Char, code}
use Prim.Native.String.{◌++◌ as append}
use hermes_agent_a2a.Prelude.{
  ℕ, String, Bool, true, false, ◌||◌, Option, none, some, List, [], ◌∷◌, ◌==◌, eqb, if◌then◌else◌,
  is_some,
}
use hermes_agent_a2a.Json.{
  Json, Items, Fields, null, bool, num, neg, str, arr, obj, nil, cons, end, field, lookup, assign,
  items, as_dict, text_at, text_of, fields_at,
}
use hermes_agent_a2a.Text.{occurs, join, filled, or_text, keep_chars, take_text}
use hermes_agent_a2a.Http.{Env}

abbrev pub keys_of : Fields → List Json
keys_of end = []
keys_of (field k v fs) = str k ∷ keys_of fs

-- What `for part in v` runs through; `none` is a TypeError. A text gives its characters, in which "text"
-- does not occur.
unfoldable pub parts_in : Json → Option (List Json)
parts_in (arr js) = some (items js)
parts_in (str s) = some []
parts_in (obj fs) = some (keys_of fs)
parts_in _ = none

unfoldable pub holds_text : List Json → Bool
holds_text [] = false
holds_text (str s ∷ js) = let rest = holds_text js in s == "text" || rest
holds_text (_ ∷ js) = holds_text js

-- "text" in part, for a part that is no dictionary: its `.get` raises if so, and the test itself for a
-- number or None.
unfoldable pub is_skipped : Json → Bool
unfolding occurs holds_text
is_skipped (str s) = if occurs "text" s then false else true
is_skipped (arr js) = if holds_text (items js) then false else true
is_skipped _ = false

-- The texts that `"\n".join` takes; `none` where one of them is no text.
abbrev pub cons_text : Json → Option (List String) → Option (List String)
cons_text (str t) (some ts) = some (t ∷ ts)
cons_text _ _ = none

unfoldable pub message_texts : List Json → Option (List String)
unfolding is_skipped
message_texts [] = some []
message_texts (part ∷ parts) =
    let rest = message_texts parts in
    elim (as_dict part) [
      | none ↦ if is_skipped part then rest else none
      | some fs ↦ elim (lookup "text" fs) [ none ↦ rest | some t ↦ cons_text t rest ]
    ]

unfoldable pub extract_text_parts : Fields → Option String
unfolding parts_in message_texts join
extract_text_parts message = elim (lookup "parts" message) [
  | none ↦ some ""
  | some v ↦ elim (parts_in v) [
    | none ↦ none
    | some parts ↦ elim (message_texts parts) [ none ↦ none | some ts ↦ some (join "\n" ts) ]
  ]
]

-- c in "-_.@ "
abbrev pub is_mark : Char → Bool
is_mark c = let n = code c in eqb n 45 || eqb n 95 || eqb n 46 || eqb n 64 || eqb n 32

abbrev pub is_name_char : (Char → Bool) → Char → Bool
is_name_char is_alnum c = is_alnum c || is_mark c

unfoldable pub clean_name : (Char → Bool) → String → String
unfolding keep_chars take_text
clean_name is_alnum raw = take_text 64 (keep_chars (is_name_char is_alnum) raw)

abbrev pub or_end : Option Fields → Fields
or_end none = end
or_end (some fs) = fs

-- source.get("from") or source.get("sender", {}).get("name")
abbrev pub from_field : Fields → String
from_field source =
    or_text (text_at "from" source) (text_of "name" (or_end (fields_at "sender" source)))

abbrev pub default_name : Fields → Fields → String → String
default_name metadata source client_ip =
    or_text (some (from_field source))
      (or_text (text_at "agent_name" metadata) (append "agent-" client_ip))

-- The metadata as the call leaves it; the name is its "sender_name".
unfoldable pub resolve_sender_name : (Char → Bool) → Fields → Fields → String → Fields
unfolding clean_name
resolve_sender_name is_alnum metadata source client_ip =
    let raw_name : String =
      if is_some (lookup "sender_name" metadata)
      then text_of "sender_name" metadata
      else default_name metadata source client_ip in
    assign "sender_name" (str (clean_name is_alnum raw_name)) metadata

-- The metadata that is part of the payload is the very dictionary that the handlers write to: its
-- sender's name, and the mark of its origin, are in the payload that is hashed.
abbrev pub marked : Fields → Fields
marked metadata = assign "_a2a_origin" (str "peer") metadata

unfoldable pub payload_of : Fields → Fields → Fields
payload_of source metadata = elim (fields_at "message" source) [
  | none ↦ source
  | some message ↦
      if is_some (fields_at "metadata" message)
      then assign "message" (obj (assign "metadata" (obj (marked metadata)) message)) source
      else source
]
