-- ===== src/Int.antt =====
-- Signed integers over the native numbers: the token counts of the rate limiter.
use hermes_agent_a2a.Prelude.{ℕ, suc, ◌+◌, ◌-◌, ◌*◌, ◌≤◌, ◌≡◌, Bool, arith, ltb, leb, if◌then◌else◌}

-- `negsuc n` is -(n + 1).
pub data ℤ : Type 0 where
  pos : ℕ → ℤ
  negsuc : ℕ → ℤ

abbrev pub pos_part : ℤ → ℕ
pos_part (pos n) = n
pos_part (negsuc n) = 0

abbrev pub neg_part : ℤ → ℕ
neg_part (pos n) = 0
neg_part (negsuc n) = suc n

-- a - b, as an integer.
unfoldable pub sub_ℕ : ℕ → ℕ → ℤ
sub_ℕ a b = if leb b a then pos (a - b) else negsuc (b - a - 1)

infixl 65 ◌+ℤ◌
infix 50 ◌≤ℤ◌
unfoldable pub ◌+ℤ◌ : ℤ → ℤ → ℤ
a +ℤ b = sub_ℕ (pos_part a + pos_part b) (neg_part a + neg_part b)

-- a - n
unfoldable pub minus : ℤ → ℕ → ℤ
minus a n = sub_ℕ (pos_part a) (neg_part a + n)

-- a * r
unfoldable pub times : ℤ → ℕ → ℤ
times a r = sub_ℕ (pos_part a * r) (neg_part a * r)

abbrev pub ◌≤ℤ◌ : ℤ → ℤ → Type 0
a ≤ℤ b = pos_part a + neg_part b ≤ pos_part b + neg_part a

abbrev pub leb_ℤ : ℤ → ℤ → Bool
leb_ℤ a b = leb (pos_part a + neg_part b) (pos_part b + neg_part a)

-- min(a, b)
unfoldable pub min_ℤ : ℤ → ℤ → ℤ
min_ℤ a b = if leb_ℤ a b then a else b

-- One lemma for each operation lets `omega` work with the operations shut.
pub sub_ℕ_parts : (a b : ℕ) → pos_part (sub_ℕ a b) + b ≡ neg_part (sub_ℕ a b) + a
unfolding sub_ℕ
sub_ℕ_parts a b = ground arith

pub +ℤ_parts :
    (a b : ℤ)
    → pos_part (a +ℤ b) + neg_part a + neg_part b ≡ neg_part (a +ℤ b) + pos_part a + pos_part b
unfolding ◌+ℤ◌
+ℤ_parts a b = omega (arith, sub_ℕ_parts (pos_part a + pos_part b) (neg_part a + neg_part b))

pub minus_parts :
    (a : ℤ) (n : ℕ) → pos_part (minus a n) + neg_part a + n ≡ neg_part (minus a n) + pos_part a
unfolding minus
minus_parts a n = omega (arith, sub_ℕ_parts (pos_part a) (neg_part a + n))

pub times_parts :
    (a : ℤ) (r : ℕ) → pos_part (times a r) + neg_part a * r ≡ neg_part (times a r) + pos_part a * r
unfolding times
times_parts a r = omega (arith, sub_ℕ_parts (pos_part a * r) (neg_part a * r))

pub min_ℤ_le_left : (a b : ℤ) → min_ℤ a b ≤ℤ a
unfolding min_ℤ
min_ℤ_le_left a b = ground arith

pub min_ℤ_le_right : (a b : ℤ) → min_ℤ a b ≤ℤ b
unfolding min_ℤ
min_ℤ_le_right a b = ground arith

pub eq_of_parts : (a b : ℤ) → pos_part a + neg_part b ≡ pos_part b + neg_part a → a ≡ b
eq_of_parts a b h = ground arith

pub ruleset int_laws = (arith, sub_ℕ_parts, +ℤ_parts, minus_parts, times_parts)
