-- ===== src/RateLimiter/Retry.antt =====
-- hermes_agent_a2a/rate_limiter.py: waiting as long as a refusal asks is enough.
use native.Mathlib.Nat.{div-add-mod', mod-lt, mul-le-mul_right}
use hermes_agent_a2a.Prelude.{
  ℕ, ◌+◌, ◌-◌, ◌*◌, ◌/◌, ◌≤◌, ◌<◌, String, ◌≡◌, ◌∙◌, ap, sym, Bool, true, false, some, arith,
  eq_refl, if◌then◌else◌, inl, inr,
}
use hermes_agent_a2a.Dict.{Dict, get, put}
use hermes_agent_a2a.Dict.Laws.{get-put}
use hermes_agent_a2a.Int.{pos, neg_part, min_ℤ, leb_ℤ, +ℤ_parts}
use hermes_agent_a2a.RateLimiter.{
  RateLimitConfig, Bucket, RateLimiter, nanoseconds, token, max_tokens, refill_rate, retry_after,
  refill, spend, allow,
}
use hermes_agent_a2a.RateLimiter.Tokens.{
  draw, level, draw-cases, draw_time, draw_nonneg, times_elapsed, inflow,
}
use hermes_agent_a2a.RateLimiter.Calls.{
  IsActive, allow_active, make_room_known, spend_known, spend_counts, rebuilt,
}

-- The whole seconds that a refusal asks for bring in at least one token.
wait_pays : (window per den : ℕ) → 0 < per → window * den ≤ (window / per + 1) * (per * den)
wait_pays window per den h =
    let m : window ≤ (window / per + 1) * per =
      omega (arith, div-add-mod' window per, mod-lt window h) in
    omega (arith, mul-le-mul_right den m)

inflow_pays :
    (c : RateLimitConfig) (now t : ℕ)
    → IsActive c
    → now + nanoseconds (retry_after c) ≤ t
    → 1 * token c ≤ (t - now) * refill_rate c
inflow_pays c now t a late =
    let w = wait_pays c.window_seconds c.requests_per_window c.burst_denominator a.per_window in
    let e : nanoseconds (retry_after c) ≤ t - now = omega (arith, late) in
    omega (arith, mul-le-mul_right (refill_rate c) e, w)

full_enough :
    (c : RateLimitConfig) (t : ℕ) (b : Bucket)
    → IsActive c
    → neg_part b.tokens ≡ 0
    → b.last_refill + nanoseconds (retry_after c) ≤ t
    → 1 * token c ≤ max_tokens c
    → leb_ℤ (pos (1 * token c)) (level c 1 t b) ≡ true
unfolding refill min_ℤ
full_enough c t b a funded late afford =
    let before : b.last_refill ≤ t = omega (arith, late) in
    let (p, n) = times_elapsed t b.last_refill (refill_rate c) before in
    let pays = inflow_pays c b.last_refill t a late in
    ground (arith, funded, p, n, pays, +ℤ_parts b.tokens (inflow c 1 t b))

-- The bucket that a refusal leaves lets the later call through.
drawn_later :
    (c : RateLimitConfig) (now t : ℕ) (b : Bucket)
    → IsActive c
    → neg_part b.tokens ≡ 0
    → b.last_refill ≤ now
    → 1 * token c ≤ max_tokens c
    → (draw c 1 now b).1 ≡ false
    → now + nanoseconds (retry_after c) ≤ t
    → (draw c 1 t (draw c 1 now b).0).1 ≡ true
drawn_later c now t b a funded before afford refused late =
    let b' : Bucket = (draw c 1 now b).0 in
    let late' : b'.last_refill + nanoseconds (retry_after c) ≤ t =
      omega (arith, draw_time c 1 now b, late) in
    let full = full_enough c t b' a (draw_nonneg c 1 now b before funded) late' afford in
    elim (draw-cases c 1 t b') [
      | inl (_, e) ↦ ap (λ (x : Bucket × Bool). x.1) e
      | inr (short, _) ↦ cc (short, full)
    ]

get-put_same : (k : String) (b : Bucket) (d : Dict Bucket) → get k (put k b d) ≡ some b
get-put_same k b d = ground (arith, get-put k k b d, eq_refl k)

-- A refused call names a number of seconds; if the next call is one of the same client at least that
-- much later, it is let through. The limiter is on, a whole token is at most the capacity, the client
-- has a bucket, which is not overdrawn, and the clock does not run backwards.
pub retry_enough :
    (c : RateLimitConfig) (now t : ℕ) (client : String) (l l' : RateLimiter) (b : Bucket) (wait : ℕ)
    → IsActive c
    → 1 * token c ≤ max_tokens c
    → get client l.buckets ≡ some b
    → neg_part b.tokens ≡ 0
    → b.last_refill ≤ now
    → allow c now client 1 l ≡ some (l', false, wait)
    → now + nanoseconds wait ≤ t
    → (after : RateLimiter) × (allow c t client 1 l' ≡ some (after, true, 0))
retry_enough c now t client l l' b wait a afford there funded before refused late =
    let first : allow c now client 1 l ≡ some (spend c now client 1 l l.buckets) =
      allow_active c now client 1 l a
      ∙ ap (λ (d : Dict Bucket). some (spend c now client 1 l d))
          (make_room_known c client l.buckets b there) in
    let (written, answer) = spend_known c now client 1 l l.buckets b there in
    let same : spend c now client 1 l l.buckets ≡ (l', false, wait) = cc (first, refused) in
    let (_, _, waits) = spend_counts c now client 1 l l.buckets in
    let no_pass : (draw c 1 now b).1 ≡ false =
      sym answer ∙ ap (λ (x : RateLimiter × Bool × ℕ). x.1) same in
    let b' : Bucket = (draw c 1 now b).0 in
    let there' : get client l'.buckets ≡ some b' =
      ap (get client) (sym (ap (λ (x : RateLimiter × Bool × ℕ). x.0.buckets) same) ∙ written)
      ∙ get-put_same client b' l.buckets in
    let wait_is : wait ≡ retry_after c =
      sym (ap (λ (x : RateLimiter × Bool × ℕ). x.2) same)
      ∙ waits
      ∙ ap (λ (x : RateLimiter × Bool × ℕ). if x.1 then 0 else retry_after c) same in
    let second : allow c t client 1 l' ≡ some (spend c t client 1 l' l'.buckets) =
      allow_active c t client 1 l' a
      ∙ ap (λ (d : Dict Bucket). some (spend c t client 1 l' d))
          (make_room_known c client l'.buckets b' there') in
    let passes : (spend c t client 1 l' l'.buckets).1 ≡ true =
      (spend_known c t client 1 l' l'.buckets b' there').1
      ∙ drawn_later c now t b a funded before afford no_pass (rw wait_is at late) in
    let (_, _, waits') = spend_counts c t client 1 l' l'.buckets in
    (
      (spend c t client 1 l' l'.buckets).0,
      second
          ∙ rebuilt (spend c t client 1 l' l'.buckets) passes
              (waits' ∙ ap (λ (ok : Bool). if ok then 0 else retry_after c) passes),
    )
