-- ===== src/Json.antt =====
-- JSON values as the handlers read and build them: Python's `None`, `bool`, `int`, `str`, `list`
-- and `dict`. A negative integer (the JSON-RPC error codes) is `neg n`, for -n.
use hermes_agent_a2a.Prelude.{
  ℕ, String, Option, none, some, Bool, List, [], ◌∷◌, ◌==◌, if◌then◌else◌, true, false, not, eqb,
}

mutual
  pub data Json : Type 0 where
    null : Json
    bool : Bool → Json
    num : ℕ → Json
    neg : ℕ → Json
    str : String → Json
    arr : Items → Json
    obj : Fields → Json

  pub data Items : Type 0 where
    nil : Items
    cons : Json → Items → Items

  pub data Fields : Type 0 where
    end : Fields
    field : String → Json → Fields → Fields

-- d.get(k)
unfoldable pub lookup : String → Fields → Option Json
lookup k end = none
lookup k (field j v fs) = let rest = lookup k fs in if j == k then some v else rest

-- d[k] = v
unfoldable pub assign : String → Json → Fields → Fields
assign k v end = field k v end
assign k v (field j w fs) =
    let rest = assign k v fs in if j == k then field j v fs else field j w rest

-- The dictionary of a value that `isinstance(v, dict)` accepts.
unfoldable pub as_dict : Json → Option Fields
as_dict (obj fs) = some fs
as_dict _ = none

-- The text of a value that `isinstance(v, str)` accepts.
unfoldable pub as_text : Json → Option String
as_text (str s) = some s
as_text _ = none

unfoldable pub items : Items → List Json
items nil = []
items (cons j js) = j ∷ items js

-- The dictionary with these entries, and the list with these items, as a literal writes them.
abbrev pub dict : List (String × Json) → Fields
dict [] = end
dict ((k, v) ∷ kvs) = field k v (dict kvs)

abbrev pub array : List Json → Items
array [] = nil
array (j ∷ js) = cons j (array js)

-- d.get(k, default)
abbrev pub get_or : String → Json → Fields → Json
get_or k d fs = elim (lookup k fs) [ some v ↦ v | none ↦ d ]

-- bool(v)
unfoldable pub is_truthy : Json → Bool
is_truthy null = false
is_truthy (bool b) = b
is_truthy (num n) = not (eqb n 0)
is_truthy (neg n) = not (eqb n 0)
is_truthy (str s) = not (s == "")
is_truthy (arr nil) = false
is_truthy (arr (cons j js)) = true
is_truthy (obj end) = false
is_truthy (obj (field k v fs)) = true

-- a or b
abbrev pub or_else : Json → Json → Json
or_else a b = if is_truthy a then a else b

-- A text or None, as a value.
abbrev pub text_or_null : Option String → Json
text_or_null none = null
text_or_null (some s) = str s

-- body.get(k) and body.get(k, "") of a field that holds a text. A value of another type, which the
-- protocol does not have there, is read as a missing one.
abbrev pub text_at : String → Fields → Option String
text_at k fs = elim (lookup k fs) [ none ↦ none | some v ↦ as_text v ]

abbrev pub text_of : String → Fields → String
text_of k fs = elim (text_at k fs) [ none ↦ "" | some t ↦ t ]

abbrev pub fields_at : String → Fields → Option Fields
fields_at k fs = elim (lookup k fs) [ none ↦ none | some v ↦ as_dict v ]
