-- ===== src/Prelude/Lists.antt =====
-- Lists measured by native numbers, and sets of texts kept as lists.
use Prim.Native.Nat.{ℕ, zero, suc, ◌+◌}
use Prim.Native.String.{String}
use mathlib.Core.Path.{◌≡◌, refl}
use mathlib.Core.Bool.{Bool, true, false}
use mathlib.Core.List.{List, [], ◌∷◌, ◌++◌}
use native.Mathlib.Omega.{arith}
use text.Mathlib.TextEquality.{eq_iff}
use hermes_agent_a2a.Prelude.Tests.{◌==◌, if◌then◌else◌}

module _ {ℓ} {A : Type ℓ} where
  abbrev pub length : List A → ℕ
  length [] = 0
  length (x ∷ xs) = suc (length xs)

  abbrev pub take : ℕ → List A → List A
  take zero xs = []
  take (suc n) [] = []
  take (suc n) (x ∷ xs) = x ∷ take n xs

  abbrev pub drop : ℕ → List A → List A
  drop zero xs = xs
  drop (suc n) [] = []
  drop (suc n) (x ∷ xs) = drop n xs

  -- `[x for x in xs if p(x)]`
  abbrev pub keep : (A → Bool) → List A → List A
  keep p [] = []
  keep p (x ∷ xs) = let rest = keep p xs in if p x then x ∷ rest else rest

  pub length-append : (xs ys : List A) → length (xs ++ ys) ≡ length xs + length ys
  length-append [] ys = omega arith
  length-append (x ∷ xs) ys = omega (arith, length-append xs ys)

-- A Python `set` of texts: no operation of the program depends on its order but where said so.
abbrev pub contains : String → List String → Bool
contains k [] = false
contains k (x ∷ xs) = let rest = contains k xs in if x == k then true else rest

abbrev pub add : String → List String → List String
add k xs = if contains k xs then xs else xs ++ k ∷ []

abbrev pub discard : String → List String → List String
discard k [] = []
discard k (x ∷ xs) = let rest = discard k xs in if x == k then rest else x ∷ rest

pub contains-append :
    (k : String) (xs ys : List String)
    → contains k (xs ++ ys) ≡ (if contains k xs then true else contains k ys)
contains-append k [] ys = refl
contains-append k (x ∷ xs) ys = ground (arith, contains-append k xs ys)

pub contains-add :
    (k j : String) (xs : List String)
    → contains j (add k xs) ≡ (if k == j then true else contains j xs)
contains-add k j xs = ground (arith, contains-append j xs (k ∷ []), eq_iff k j)

pub contains-discard :
    (k j : String) (xs : List String)
    → contains j (discard k xs) ≡ (if k == j then false else contains j xs)
contains-discard k j [] = ground arith
contains-discard k j (x ∷ xs) =
    ground (arith, contains-discard k j xs, eq_iff x k, eq_iff x j, eq_iff k j)
