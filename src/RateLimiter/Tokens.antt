-- ===== src/RateLimiter/Tokens.antt =====
-- hermes_agent_a2a/rate_limiter.py: how many requests a bucket lets through.
use hermes_agent_a2a.Prelude.{
  ℕ, ◌+◌, ◌-◌, ◌*◌, ◌≤◌, ◌≡◌, refl, ◌⊎◌, Bool, true, false, arith, if◌then◌else◌, Bool-cases, inl,
  inr,
}
use hermes_agent_a2a.Int.{
  ℤ, pos, pos_part, neg_part, sub_ℕ, ◌+ℤ◌, ◌≤ℤ◌, minus, times, min_ℤ, leb_ℤ, min_ℤ_le_left,
  min_ℤ_le_right, int_laws, +ℤ_parts,
}
use hermes_agent_a2a.RateLimiter.{RateLimitConfig, Bucket, token, max_tokens, refill_rate, refill}

-- One call on a bucket that is there: the bucket after it, and whether it is let through.
unfoldable pub draw : RateLimitConfig → ℕ → ℕ → Bucket → Bucket × Bool
draw c cost now b =
    let b' = refill c now b in
    if leb_ℤ (pos (cost * token c)) b'.tokens
    then (record b' { tokens = minus b'.tokens (cost * token c) }, true)
    else (b', false)

abbrev pub paid : ℕ → Bool → ℕ
paid price true = price
paid price false = 0

spent_from : (t x : ℤ) (p : ℕ) → t ≤ℤ x → minus t p +ℤ pos p ≤ℤ x
spent_from t x p h = omega int_laws

kept_from : (t x : ℤ) → t ≤ℤ x → t +ℤ pos 0 ≤ℤ x
kept_from t x h = omega int_laws

module _ (c : RateLimitConfig) (cost now : ℕ) (b : Bucket) where
  -- The level of the bucket once it is refilled.
  abbrev pub level : ℤ
  level = (refill c now b).tokens

  abbrev pub inflow : ℤ
  inflow = times (sub_ℕ now b.last_refill) (refill_rate c)

  level_le_inflow : level ≤ℤ b.tokens +ℤ inflow
  unfolding refill
  level_le_inflow = min_ℤ_le_right (pos (max_tokens c)) (b.tokens +ℤ inflow)

  pub level_le_capacity : level ≤ℤ pos (max_tokens c)
  unfolding refill
  level_le_capacity = min_ℤ_le_left (pos (max_tokens c)) (b.tokens +ℤ inflow)

  pub draw-cases :
      ((leb_ℤ (pos (cost * token c)) level ≡ true)
        × (draw c cost now b
            ≡ (record { tokens = minus level (cost * token c); last_refill = now }, true)))
      ⊎ ((leb_ℤ (pos (cost * token c)) level ≡ false)
          × (draw c cost now b ≡ (record { tokens = level; last_refill = now }, false)))
  unfolding draw refill
  draw-cases = elim (Bool-cases (leb_ℤ (pos (cost * token c)) level)) [
    | inl e ↦ inl (e, rw e refl)
    | inr e ↦ inr (e, rw e refl)
  ]

  -- What a call takes from the bucket is covered by what it held and what has flowed in.
  pub draw_balance :
      (draw c cost now b).0.tokens +ℤ pos (paid (cost * token c) (draw c cost now b).1)
      ≤ℤ b.tokens +ℤ inflow
  draw_balance = elim draw-cases [
    | inl (_, e) ↦ rw e (spent_from level (b.tokens +ℤ inflow) (cost * token c) level_le_inflow)
    | inr (_, e) ↦ rw e (kept_from level (b.tokens +ℤ inflow) level_le_inflow)
  ]

  pub draw_le_capacity : (draw c cost now b).0.tokens ≤ℤ pos (max_tokens c)
  draw_le_capacity = elim draw-cases [
    | inl (_, e) ↦ rw e (omega (int_laws, level_le_capacity))
    | inr (_, e) ↦ rw e level_le_capacity
  ]

  pub draw_time : (draw c cost now b).0.last_refill ≡ now
  draw_time = elim draw-cases [ inl (_, e) ↦ rw e refl | inr (_, e) ↦ rw e refl ]

-- With the clock not behind the bucket and a level that is not negative, all in whole numbers.
pub times_elapsed :
    (now last r : ℕ)
    → last ≤ now
    → (pos_part (times (sub_ℕ now last) r) ≡ (now - last) * r)
      × (neg_part (times (sub_ℕ now last) r) ≡ 0)
unfolding times sub_ℕ
times_elapsed now last r h = (ground (arith, h), ground (arith, h))

pub level_nonneg :
    (c : RateLimitConfig) (cost now : ℕ) (b : Bucket)
    → b.last_refill ≤ now
    → neg_part b.tokens ≡ 0
    → neg_part (level c cost now b) ≡ 0
unfolding refill min_ℤ
level_nonneg c cost now b h e =
    let (p, n) = times_elapsed now b.last_refill (refill_rate c) h in
    ground (arith, e, p, n, +ℤ_parts b.tokens (inflow c cost now b))

pub minus_nonneg : (t : ℤ) (p : ℕ) → leb_ℤ (pos p) t ≡ true → neg_part (minus t p) ≡ 0
unfolding minus sub_ℕ
minus_nonneg t p h = ground arith

pub draw_nonneg :
    (c : RateLimitConfig) (cost now : ℕ) (b : Bucket)
    → b.last_refill ≤ now
    → neg_part b.tokens ≡ 0
    → neg_part (draw c cost now b).0.tokens ≡ 0
draw_nonneg c cost now b h e = elim (draw-cases c cost now b) [
  | inl (enough, d) ↦ rw d (minus_nonneg (level c cost now b) (cost * token c) enough)
  | inr (_, d) ↦ rw d (level_nonneg c cost now b h e)
]

covered :
    (d t f : ℤ) (paid g : ℕ)
    → d +ℤ pos paid ≤ℤ t +ℤ f
    → neg_part d ≡ 0
    → neg_part t ≡ 0
    → pos_part f ≡ g
    → neg_part f ≡ 0
    → pos_part d + paid ≤ pos_part t + g
covered d t f paid g h dn tn fp fn = omega (arith, h, +ℤ_parts d (pos paid), +ℤ_parts t f)

pub draw_covered :
    (c : RateLimitConfig) (cost now : ℕ) (b : Bucket)
    → b.last_refill ≤ now
    → neg_part b.tokens ≡ 0
    → pos_part (draw c cost now b).0.tokens + paid (cost * token c) (draw c cost now b).1
      ≤ pos_part b.tokens + (now - b.last_refill) * refill_rate c
draw_covered c cost now b h e =
    let (p, n) = times_elapsed now b.last_refill (refill_rate c) h in
    covered (draw c cost now b).0.tokens b.tokens (inflow c cost now b) _ _
      (draw_balance c cost now b) (draw_nonneg c cost now b h e) e p n
