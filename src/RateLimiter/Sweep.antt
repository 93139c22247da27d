-- ===== src/RateLimiter/Sweep.antt =====
-- hermes_agent_a2a/rate_limiter.py: the cleanup sweep is not seen by any client.
use native.Mathlib.Nat.{mul-le-mul_right}
use hermes_agent_a2a.Prelude.{
  ℕ, ◌+◌, ◌-◌, ◌*◌, ◌≤◌, ◌<◌, String, ◌≡◌, ◌∙◌, refl, ap, sym, ◌⊎◌, Bool, true, Option, none, some,
  [], ◌∷◌, arith, eq_iff, eq_refl, ◌==◌, Bool-cases, inl, inr, length,
}
use hermes_agent_a2a.Dict.{Dict, get, IsDistinct}
use hermes_agent_a2a.Dict.Laws.{get-put}
use hermes_agent_a2a.Int.{pos, neg_part, minus, min_ℤ, +ℤ_parts, eq_of_parts}
use hermes_agent_a2a.RateLimiter.{
  RateLimitConfig, Bucket, RateLimiter, nanoseconds, token, max_tokens, refill_rate, refill, spend,
  allow, is_stale, drop_stale, cleanup_sweep,
}
use hermes_agent_a2a.RateLimiter.Tokens.{draw, level, draw-cases, times_elapsed, inflow}
use hermes_agent_a2a.RateLimiter.Calls.{
  IsActive, allow_active, make_room_with_space, first_bucket, spend_new, spend_known,
}

-- A bucket that the sweep drops would be full again.
stale_inflow :
    (c : RateLimitConfig) (now t last : ℕ)
    → last * c.burst_denominator + 2 * (nanoseconds c.window_seconds * c.burst_numerator)
      < now * c.burst_denominator
    → last ≤ now
    → now ≤ t
    → max_tokens c ≤ (t - last) * refill_rate c
stale_inflow c now t last h before late =
    let sum : (t - last) + last ≡ t = omega (arith, before, late) in
    let m : now * c.burst_denominator ≤ t * c.burst_denominator =
      mul-le-mul_right c.burst_denominator late in
    let d : 2 * (nanoseconds c.window_seconds * c.burst_numerator)
        ≤ (t - last) * c.burst_denominator =
      omega (arith, ap (λ (x : ℕ). x * c.burst_denominator) sum, m, h) in
    omega (arith, mul-le-mul_right c.requests_per_window d)

stale_level :
    (c : RateLimitConfig) (now t : ℕ) (b : Bucket)
    → neg_part b.tokens ≡ 0
    → is_stale c now b ≡ true
    → b.last_refill ≤ now
    → now ≤ t
    → level c 1 t b ≡ pos (max_tokens c)
unfolding refill min_ℤ
stale_level c now t b funded stale before late =
    let (p, n) = times_elapsed t b.last_refill (refill_rate c) (omega (arith, before, late)) in
    let pays = stale_inflow c now t b.last_refill (ground (arith, stale)) before late in
    eq_of_parts (level c 1 t b) (pos (max_tokens c))
      (ground (arith, funded, p, n, pays, +ℤ_parts b.tokens (inflow c 1 t b)))

drop_stale_absent :
    (c : RateLimitConfig) (now : ℕ) (j : String) (d : Dict Bucket)
    → get j d ≡ none
    → get j (drop_stale c now d) ≡ none
unfolding get drop_stale
drop_stale_absent c now j [] h = refl
drop_stale_absent c now j ((k, b) ∷ d) h = elim (Bool-cases (is_stale c now b)) [
  | inl stale ↦ ground (arith, drop_stale_absent c now j d, h, stale)
  | inr fresh ↦ ground (arith, drop_stale_absent c now j d, h, fresh)
]

get-drop_stale :
    (c : RateLimitConfig) (now : ℕ) (j : String) (d : Dict Bucket)
    → IsDistinct d
    → (get j (drop_stale c now d) ≡ get j d)
      ⊎ ((b : Bucket) × (get j d ≡ some b)
          × (is_stale c now b ≡ true)
          × (get j (drop_stale c now d) ≡ none))
unfolding get drop_stale IsDistinct
get-drop_stale c now j [] u = inl refl
get-drop_stale c now j ((k, b) ∷ d) u = elim (Bool-cases (k == j)) [
  | inl same ↦ elim (Bool-cases (is_stale c now b)) [
    | inl stale ↦
        let gone : get j (drop_stale c now d) ≡ none =
          drop_stale_absent c now j d (ap (λ x. get x d) (sym ((eq_iff k j).0 same)) ∙ u.0) in
        inr (b, rw same refl, stale, ground (arith, stale, gone))
    | inr fresh ↦ inl (ground (arith, fresh, same))
  ]
  | inr other ↦ elim (get-drop_stale c now j d u.1) [
    | inl e ↦ inl (ground (arith, e, other))
    | inr (b', there, stale, gone) ↦ inr (b', rw other there, stale, ground (arith, gone, other))
  ]
]

length-drop_stale :
    (c : RateLimitConfig) (now : ℕ) (d : Dict Bucket) → length (drop_stale c now d) ≤ length d
unfolding drop_stale
length-drop_stale c now [] = omega arith
length-drop_stale c now ((k, b) ∷ d) = ground (arith, length-drop_stale c now d)

-- What a client sees of a call: the answer, and the bucket that it leaves the client.
abbrev pub seen : String → Option (RateLimiter × Bool × ℕ) → Option (Bool × Option Bucket)
seen client none = none
seen client (some (l, ok, wait)) = some (ok, get client l.buckets)

module _ (c : RateLimitConfig) (t : ℕ) (client : String) (l : RateLimiter) (a : IsActive c)
    (room : length l.buckets < c.max_entries) where
  returned : allow c t client 1 l ≡ some (spend c t client 1 l l.buckets)
  returned =
      allow_active c t client 1 l a
      ∙ ap (λ (d : Dict Bucket). some (spend c t client 1 l d))
          (make_room_with_space c client l.buckets room)

  seen_known :
      (b : Bucket)
      → get client l.buckets ≡ some b
      → seen client (allow c t client 1 l) ≡ some ((draw c 1 t b).1, some (draw c 1 t b).0)
  seen_known b there =
      let (written, answer) = spend_known c t client 1 l l.buckets b there in
      rw
        (
          returned,
          written,
          answer,
          get-put client client (draw c 1 t b).0 l.buckets,
          eq_refl client,
        )
        refl

  seen_new :
      get client l.buckets ≡ none
      → seen client (allow c t client 1 l)
        ≡ some (true, some (first_bucket c t client 1 l l.buckets))
  seen_new absent =
      let (written, answer) = spend_new c t client 1 l l.buckets absent in
      rw
        (
          returned,
          written,
          answer,
          get-put client client (first_bucket c t client 1 l l.buckets) l.buckets,
          eq_refl client,
        )
        refl

abbrev buckets_of : Option RateLimiter → Dict Bucket
buckets_of none = []
buckets_of (some l) = l.buckets

abbrev outcome : Bucket × Bool → Option (Bool × Option Bucket)
outcome (b, ok) = some (ok, some b)

draw_stale :
    (c : RateLimitConfig) (now t : ℕ) (b : Bucket)
    → 1 * token c ≤ max_tokens c
    → neg_part b.tokens ≡ 0
    → is_stale c now b ≡ true
    → b.last_refill ≤ now
    → now ≤ t
    → draw c 1 t b
      ≡ (record { tokens = minus (pos (max_tokens c)) (1 * token c); last_refill = t }, true)
draw_stale c now t b afford funded stale before late =
    let full = stale_level c now t b funded stale before late in
    elim (draw-cases c 1 t b) [
      | inl (_, e) ↦ rw full at e
      | inr (short, _) ↦ absurd (ground (arith, rw full at short))
    ]

-- The sweep is not seen by a client whose bucket is not overdrawn: its next call has the same answer,
-- and leaves it the same bucket, with and without the sweep. The limiter is on and has room, a whole
-- token is at most the capacity, no client has two buckets, and the clock does not run backwards.
pub sweep_unseen :
    (c : RateLimitConfig) (now t : ℕ) (client : String) (l l' : RateLimiter) (b : Bucket)
    → IsActive c
    → 1 * token c ≤ max_tokens c
    → length l.buckets < c.max_entries
    → IsDistinct l.buckets
    → get client l.buckets ≡ some b
    → neg_part b.tokens ≡ 0
    → b.last_refill ≤ now
    → now ≤ t
    → cleanup_sweep c now l ≡ some l'
    → seen client (allow c t client 1 l') ≡ seen client (allow c t client 1 l)
unfolding cleanup_sweep
sweep_unseen c now t client l l' b a afford room u there funded before late swept =
    let result : cleanup_sweep c now l ≡ some (record l { buckets = drop_stale c now l.buckets }) =
      ground (arith, a) in
    let left : l'.buckets ≡ drop_stale c now l.buckets = ap buckets_of (sym swept ∙ result) in
    let room' : length l'.buckets < c.max_entries =
      rw left (omega (arith, length-drop_stale c now l.buckets, room)) in
    elim (get-drop_stale c now client l.buckets u) [
      | inl same ↦
          seen_known c t client l' a room' b (ap (get client) left ∙ same ∙ there)
          ∙ sym (seen_known c t client l a room b there)
      | inr (b', there', stale, gone) ↦
          let one : b' ≡ b = cc (there', there) in
          seen_new c t client l' a room' (ap (get client) left ∙ gone)
          ∙ sym (
              seen_known c t client l a room b there
              ∙ ap outcome (
                  draw_stale c now t b afford funded (ap (is_stale c now) (sym one) ∙ stale) before
                    late))
    ]
