-- ===== src/Text/Laws.antt =====
-- Laws of the text functions.
use Prim.Native.Char.{Char, char}
use Prim.Native.String.{String, ◌++◌ as append}
use text.Mathlib.TextLemmas.{nil-append, cons-append, append_assoc}
use hermes_agent_a2a.Prelude.{
  ℕ, ◌≡◌, ◌≢◌, ◌⊎◌, refl, ap, sym, ◌∙◌, true, false, List, [], ◌∷◌, inl, inr, arith, Bool-cases,
}
use hermes_agent_a2a.Text.{
  starts_with, split, join, is_space, lstrip, rstrip, cons_rstripped, strip, occurs,
}

pub starts_with-append : (p s : String) → starts_with p (append p s) ≡ true
unfolding starts_with
starts_with-append String.[] s = refl
starts_with-append (String.◌∷◌ c p) s =
    rw (cons-append c p s) (ground (arith, starts_with-append p s))

pub lstrip_idem : (s : String) → lstrip (lstrip s) ≡ lstrip s
unfolding lstrip
lstrip_idem String.[] = refl
lstrip_idem (String.◌∷◌ c s) = ground (arith, lstrip_idem s)

cons_rstripped_idem :
    (c : Char) (s : String) → rstrip s ≡ s → rstrip (cons_rstripped c s) ≡ cons_rstripped c s
unfolding rstrip
cons_rstripped_idem c String.[] h = elim (Bool-cases (is_space c)) [
  | inl e ↦ rw e refl
  | inr e ↦ rw e (rw e refl)
]
cons_rstripped_idem c (String.◌∷◌ d s) h = ap (cons_rstripped c) h

pub rstrip_idem : (s : String) → rstrip (rstrip s) ≡ rstrip s
unfolding rstrip
rstrip_idem String.[] = refl
rstrip_idem (String.◌∷◌ c s) = cons_rstripped_idem c (rstrip s) (rstrip_idem s)

-- A text whose first character stays keeps it when its end is stripped.
lstrip_keeps :
    (c : Char) (s : String) → is_space c ≡ false → lstrip (cons_rstripped c s) ≡ cons_rstripped c s
unfolding lstrip
lstrip_keeps c String.[] h = rw h (rw h refl)
lstrip_keeps c (String.◌∷◌ d s) h = rw h refl

lstrip-rstrip : (s : String) → lstrip (rstrip (lstrip s)) ≡ rstrip (lstrip s)
unfolding lstrip rstrip
lstrip-rstrip String.[] = refl
lstrip-rstrip (String.◌∷◌ c s) = elim (Bool-cases (is_space c)) [
  | inl e ↦ rw e (lstrip-rstrip s)
  | inr e ↦ rw e (lstrip_keeps c (rstrip s) e)
]

pub strip_idem : (s : String) → strip (strip s) ≡ strip s
unfolding strip
strip_idem s = rw (lstrip-rstrip s) (rstrip_idem (lstrip s))

-- What is left of a text starts with a character that is no white space, if anything is left.
lstrip-head :
    (s : String)
    → (lstrip s ≡ "")
      ⊎ ((c : Char) × (t : String) × (lstrip s ≡ String.◌∷◌ c t) × (is_space c ≡ false))
unfolding lstrip
lstrip-head String.[] = inl refl
lstrip-head (String.◌∷◌ c s) = elim (Bool-cases (is_space c)) [
  | inl e ↦ rw e (lstrip-head s)
  | inr e ↦ inr (c, s, rw e refl, e)
]

lstrip-append : (s t : String) → lstrip s ≢ "" → lstrip (append (lstrip s) t) ≡ append (lstrip s) t
unfolding lstrip
lstrip-append s t h = elim (lstrip-head s) [
  | inl e ↦ absurd (h e)
  | inr (c, u, e, clear) ↦ rw e (rw (cons-append c u t) (rw clear refl))
]

lstrip_stays : (a t : String) → lstrip a ≡ a → a ≢ "" → lstrip (append a t) ≡ append a t
lstrip_stays a t left h = cc (left, lstrip-append a t (λ e. h (sym left ∙ e)))

cons_rstripped-append :
    (c d : Char) (s t : String)
    → cons_rstripped c (append s (String.◌∷◌ d t)) ≡ String.◌∷◌ c (append s (String.◌∷◌ d t))
cons_rstripped-append c d String.[] t = rw (nil-append (String.◌∷◌ d t)) refl
cons_rstripped-append c d (String.◌∷◌ e s) t = rw (cons-append e s (String.◌∷◌ d t)) refl

rstrip-append :
    (s t : String) (d : Char) (u : String)
    → rstrip t ≡ String.◌∷◌ d u
    → rstrip (append s t) ≡ append s (String.◌∷◌ d u)
unfolding rstrip
rstrip-append String.[] t d u h = rw (nil-append t, nil-append (String.◌∷◌ d u)) h
rstrip-append (String.◌∷◌ c s) t d u h =
    rw (cons-append c s t, cons-append c s (String.◌∷◌ d u))
      (rw (rstrip-append s t d u h) (cons_rstripped-append c d s u))

clean-twice :
    (a m : String)
    → lstrip a ≡ a
    → rstrip a ≡ a
    → a ≢ ""
    → rstrip (lstrip (append a (append m a))) ≡ append a (append m a)
unfolding lstrip
clean-twice String.[] m left right h = absurd (h refl)
clean-twice (String.◌∷◌ d u) m left right h =
    let a = String.◌∷◌ d u in
    let whole = sym (append_assoc a m a) in
    let stays = lstrip_stays a (append m a) left h in
    ap rstrip stays ∙ ap rstrip whole ∙ rstrip-append (append a m) a d u right ∙ sym whole

-- Two copies of a stripped text with something between them have nothing to strip.
pub strip-twice :
    (s m : String)
    → strip s ≢ ""
    → strip (append (strip s) (append m (strip s))) ≡ append (strip s) (append m (strip s))
unfolding strip
strip-twice s m h = clean-twice (rstrip (lstrip s)) m (lstrip-rstrip s) (rstrip_idem (lstrip s)) h

abbrev slash : ℕ
slash = 47

abbrev pub AllLack : String → List String → Type 0
AllLack sep [] = Unit
AllLack sep (x ∷ xs) = (occurs sep x ≡ false) × AllLack sep xs

split_whole : (a : String) → occurs "/" a ≡ false → split slash a ≡ a ∷ []
unfolding split occurs starts_with
split_whole String.[] h = refl
split_whole (String.◌∷◌ c a) h = ground (arith, split_whole a)

split_segment :
    (a b : String)
    → occurs "/" a ≡ false
    → split slash (append a (append "/" b)) ≡ a ∷ split slash b
unfolding split occurs starts_with
split_segment String.[] b h =
    rw (nil-append (append "/" b), cons-append (char 47 tt) "" b, nil-append b) refl
split_segment (String.◌∷◌ c a) b h =
    rw (cons-append c a (append "/" b)) (ground (arith, split_segment a b))

-- `split` undoes `join`, on segments that have no separator in them.
pub split-join :
    (x : String) (xs : List String)
    → AllLack "/" (x ∷ xs)
    → split slash (join "/" (x ∷ xs)) ≡ x ∷ xs
unfolding join
split-join x [] h = split_whole x h.0
split-join x (y ∷ ys) h =
    split_segment x (join "/" (y ∷ ys)) h.0 ∙ ap (λ (l : List String). x ∷ l) (split-join y ys h.1)
