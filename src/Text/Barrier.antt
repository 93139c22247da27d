-- ===== src/Text/Barrier.antt =====
-- Searching a text for a pattern, past a character that the pattern does not have.
use Prim.Native.Char.{Char}
use Prim.Native.String.{String, ◌++◌ as append}
use text.Mathlib.TextLemmas.{nil-append, cons-append}
use hermes_agent_a2a.Prelude.{◌≡◌, refl, true, false, ◌||◌, arith}
use hermes_agent_a2a.Text.{starts_with, occurs, before}

pub starts_with_self : (p : String) → starts_with p p ≡ true
unfolding starts_with
starts_with_self String.[] = refl
starts_with_self (String.◌∷◌ c p) = ground (arith, starts_with_self p)

pub occurs_last : (p a : String) → occurs p (append a p) ≡ true
unfolding occurs
occurs_last String.[] String.[] = refl
occurs_last (String.◌∷◌ c p) String.[] =
    rw (nil-append (String.◌∷◌ c p)) (ground (arith, starts_with_self (String.◌∷◌ c p)))
occurs_last p (String.◌∷◌ c a) = rw (cons-append c a p) (ground (arith, occurs_last p a))

pub occurs-append : (p a b : String) → occurs p b ≡ true → occurs p (append a b) ≡ true
unfolding occurs
occurs-append p String.[] b h = rw (nil-append b) h
occurs-append p (String.◌∷◌ c a) b h =
    rw (cons-append c a b) (ground (arith, occurs-append p a b h))

module _ (d : Char) where
  abbrev barrier : String
  barrier = String.◌∷◌ d ""

  starts_with-barrier :
      (p a b : String)
      → occurs barrier p ≡ false
      → starts_with p (append a (String.◌∷◌ d b)) ≡ starts_with p a
  unfolding starts_with occurs
  starts_with-barrier String.[] a b h = refl
  starts_with-barrier (String.◌∷◌ c p) String.[] b h =
      rw (nil-append (String.◌∷◌ d b)) (ground arith)
  starts_with-barrier (String.◌∷◌ c p) (String.◌∷◌ e a) b h =
      rw (cons-append e a (String.◌∷◌ d b)) (ground (arith, starts_with-barrier p a b))

  -- A pattern that is not empty and lacks the character occurs on one side of it.
  pub occurs-barrier :
      (c : Char) (p a b : String)
      → occurs barrier (String.◌∷◌ c p) ≡ false
      → occurs (String.◌∷◌ c p) (append a (String.◌∷◌ d b))
        ≡ (occurs (String.◌∷◌ c p) a || occurs (String.◌∷◌ c p) b)
  unfolding starts_with occurs
  occurs-barrier c p String.[] b h = rw (nil-append (String.◌∷◌ d b)) (ground arith)
  occurs-barrier c p (String.◌∷◌ e a) b h =
      rw (cons-append e a (String.◌∷◌ d b))
        (ground (arith, starts_with-barrier p a b, occurs-barrier c p a b))

  -- The text before a pattern that starts with the character and has it nowhere else.
  pub before-barrier :
      (p a : String)
      → occurs barrier p ≡ false
      → occurs (String.◌∷◌ d p) a ≡ false
      → before (String.◌∷◌ d p) (append a (String.◌∷◌ d p)) ≡ a
  unfolding starts_with occurs before
  before-barrier p String.[] h k =
      rw (nil-append (String.◌∷◌ d p)) (ground (arith, starts_with_self p))
  before-barrier p (String.◌∷◌ c a) h k =
      rw (cons-append c a (String.◌∷◌ d p))
        (ground (arith, starts_with-barrier p a p, before-barrier p a))

pub before_absent : (sep a : String) → occurs sep a ≡ false → before sep a ≡ a
unfolding occurs before
before_absent sep String.[] h = refl
before_absent sep (String.◌∷◌ c a) h = ground (arith, before_absent sep a)

pub before_first :
    (d : Char) (a b : String)
    → occurs (String.◌∷◌ d "") a ≡ false
    → before (String.◌∷◌ d "") (append a (String.◌∷◌ d b)) ≡ a
unfolding starts_with occurs before
before_first d String.[] b h = rw (nil-append (String.◌∷◌ d b)) (ground arith)
before_first d (String.◌∷◌ c a) b h =
    rw (cons-append c a (String.◌∷◌ d b)) (ground (arith, before_first d a b))
