-- ===== src/RateLimiter/Admission.antt =====
-- hermes_agent_a2a/rate_limiter.py: the bound that the token bucket promises, over any trace of calls.
use hermes_agent_a2a.Prelude.{
  ℕ, ◌+◌, ◌-◌, ◌*◌, ◌≤◌, ◌<◌, String, ◌≡◌, ◌∙◌, refl, ap, Bool, true, false, none, some, List, [],
  ◌∷◌, arith, eq_iff, ◌==◌, if◌then◌else◌, Bool-cases, inl, inr, length,
}
use hermes_agent_a2a.Dict.{Dict, get}
use hermes_agent_a2a.Dict.Laws.{get-put}
use hermes_agent_a2a.Int.{pos, pos_part, neg_part, minus, minus_parts}
use hermes_agent_a2a.RateLimiter.{
  RateLimitConfig, Bucket, RateLimiter, token, max_tokens, refill_rate, spend, allow,
}
use hermes_agent_a2a.RateLimiter.Tokens.{
  draw, paid, draw_time, draw_nonneg, draw_covered, minus_nonneg,
}
use hermes_agent_a2a.RateLimiter.Calls.{
  IsActive, allow_active, make_room_with_space, first_bucket, spend_new, spend_known, spend_others,
  spend_grows,
}

-- A call: who makes it, and when.
abbrev pub Call : Type 0
Call = String × ℕ

abbrev pub counted : String → String → Bool → ℕ
counted client k ok = if k == client then (if ok then 1 else 0) else 0

-- How many calls of `client` a trace of calls lets through; a call that raises changes nothing.
unfoldable pub admitted : RateLimitConfig → ℕ → String → List Call → RateLimiter → ℕ
admitted c cost client [] l = 0
admitted c cost client ((k, now) ∷ calls) l = elim (allow c now k cost l) [
  | none ↦ admitted c cost client calls l
  | some (l', ok, wait) ↦ counted client k ok + admitted c cost client calls l'
]

-- The clock does not run backwards along the trace.
abbrev pub Ordered : ℕ → List Call → Type 0
Ordered t [] = Unit {0}
Ordered t ((k, now) ∷ calls) = (t ≤ now) × Ordered now calls

abbrev pub last_time : ℕ → List Call → ℕ
last_time t [] = t
last_time t ((k, now) ∷ calls) = last_time now calls

last_time_le : (t : ℕ) (calls : List Call) → Ordered t calls → t ≤ last_time t calls
last_time_le t [] o = omega arith
last_time_le t ((k, now) ∷ calls) o = omega (arith, o.0, last_time_le now calls o.1)

split_gap : (a b e r : ℕ) → a ≤ b → b ≤ e → (b - a) * r + (e - b) * r ≡ (e - a) * r
split_gap a b e r h h' =
    let m : (b - a) + (e - b) ≡ e - a = omega arith in omega (arith, ap (λ (x : ℕ). x * r) m)

admitted_step :
    (c : RateLimitConfig) (cost : ℕ) (client k : String) (now : ℕ) (calls : List Call)
    (l : RateLimiter)
    → IsActive c
    → length l.buckets < c.max_entries
    → admitted c cost client ((k, now) ∷ calls) l
      ≡ counted client k (spend c now k cost l l.buckets).1
        + admitted c cost client calls (spend c now k cost l l.buckets).0
unfolding admitted
admitted_step c cost client k now calls l a room =
    let e : allow c now k cost l ≡ some (spend c now k cost l l.buckets) =
      allow_active c now k cost l a
      ∙ ap (λ (d : Dict Bucket). some (spend c now k cost l d))
          (make_room_with_space c k l.buckets room) in
    rw (e, admitted) refl

-- One call of the client and the rest of the trace.
join_bounds :
    (ok : Bool) (rest price d b now last e r : ℕ)
    → d + paid price ok ≤ b + (now - last) * r
    → rest * price ≤ d + (e - now) * r
    → last ≤ now
    → now ≤ e
    → ((if ok then 1 else 0) + rest) * price ≤ b + (e - last) * r
join_bounds true rest price d b now last e r h ih p q = omega (arith, split_gap last now e r p q)
join_bounds false rest price d b now last e r h ih p q = omega (arith, split_gap last now e r p q)

-- The bound for a client whose bucket is there.
known_bound :
    (c : RateLimitConfig) (cost : ℕ) (client : String) (calls : List Call) (l : RateLimiter)
    (b : Bucket) (t : ℕ)
    → IsActive c
    → length l.buckets + length calls ≤ c.max_entries
    → get client l.buckets ≡ some b
    → neg_part b.tokens ≡ 0
    → b.last_refill ≤ t
    → Ordered t calls
    → admitted c cost client calls l * (cost * token c)
      ≤ pos_part b.tokens + (last_time t calls - b.last_refill) * refill_rate c
unfolding admitted
known_bound c cost client [] l b t a room there full past o = omega arith
known_bound c cost client ((k, now) ∷ calls) l b t a room there full past (step, o) =
    let l' : RateLimiter = (spend c now k cost l l.buckets).0 in
    let room' : length l'.buckets + length calls ≤ c.max_entries =
      omega (arith, spend_grows c now k cost l l.buckets) in
    rw (admitted_step c cost client k now calls l a (omega arith))
      (elim (Bool-cases (k == client)) [
        | inl same ↦
            let kc : k ≡ client = (eq_iff k client).0 same in
            let (written, answer) =
              spend_known c now k cost l l.buckets b (ap (λ j. get j l.buckets) kc ∙ there) in
            let b' : Bucket = (draw c cost now b).0 in
            let there' : get client l'.buckets ≡ some b' =
              ap (get client) written ∙ ground (arith, get-put k client b' l.buckets, same) in
            let late : b.last_refill ≤ now = omega arith in
            let time = draw_time c cost now b in
            let ih =
              known_bound c cost client calls l' b' now a room' there'
                (draw_nonneg c cost now b late full) (omega (arith, time)) o in
            rw (same, answer)
              (join_bounds (draw c cost now b).1 (admitted c cost client calls l') (cost * token c)
                (pos_part b'.tokens) (pos_part b.tokens) now b.last_refill (last_time now calls)
                (refill_rate c) (draw_covered c cost now b late full) (rw time at ih) late
                (last_time_le now calls o))
        | inr other ↦
            let there' : get client l'.buckets ≡ some b =
              spend_others c now k cost l l.buckets client (λ e. cc (other, (eq_iff k client).1 e))
              ∙ there in
            rw other (
              omega (
                arith,
                known_bound c cost client calls l' b now a room' there' full (omega arith) o,
              ))
      ])

first_nonneg :
    (m p : ℕ) → p ≤ m → (neg_part (minus (pos m) p) ≡ 0) × (pos_part (minus (pos m) p) + p ≡ m)
first_nonneg m p h =
    let n : neg_part (minus (pos m) p) ≡ 0 = minus_nonneg (pos m) p (ground (arith, h)) in
    (n, omega (arith, n, minus_parts (pos m) p))

first_bounds :
    (rest price d m now t e r : ℕ)
    → d + price ≡ m
    → rest * price ≤ d + (e - now) * r
    → t ≤ now
    → now ≤ e
    → (1 + rest) * price ≤ m + (e - t) * r
first_bounds rest price d m now t e r h ih p q = omega (arith, split_gap t now e r p q)

later_bounds :
    (rest price m now t e r : ℕ)
    → rest * price ≤ m + (e - now) * r
    → t ≤ now
    → now ≤ e
    → (0 + rest) * price ≤ m + (e - t) * r
later_bounds rest price m now t e r ih p q = omega (arith, split_gap t now e r p q)

-- From a limiter that has not seen the client, along a trace of calls of any clients, with the clock
-- not running backwards, a price of at most the capacity, and room for a bucket for each call: the
-- client is let through at most as often as the capacity and the refill of the elapsed time pay for.
pub admission_bound :
    (c : RateLimitConfig) (cost : ℕ) (client : String) (calls : List Call) (l : RateLimiter) (t : ℕ)
    → IsActive c
    → cost * token c ≤ max_tokens c
    → length l.buckets + length calls ≤ c.max_entries
    → get client l.buckets ≡ none
    → Ordered t calls
    → admitted c cost client calls l * (cost * token c)
      ≤ max_tokens c + (last_time t calls - t) * refill_rate c
unfolding admitted
admission_bound c cost client [] l t a afford room new o = omega arith
admission_bound c cost client ((k, now) ∷ calls) l t a afford room new (step, o) =
    let l' : RateLimiter = (spend c now k cost l l.buckets).0 in
    let room' : length l'.buckets + length calls ≤ c.max_entries =
      omega (arith, spend_grows c now k cost l l.buckets) in
    rw (admitted_step c cost client k now calls l a (omega arith))
      (elim (Bool-cases (k == client)) [
        | inl same ↦
            let kc : k ≡ client = (eq_iff k client).0 same in
            let (written, answer) =
              spend_new c now k cost l l.buckets (ap (λ j. get j l.buckets) kc ∙ new) in
            let b' : Bucket = first_bucket c now k cost l l.buckets in
            let there' : get client l'.buckets ≡ some b' =
              ap (get client) written ∙ ground (arith, get-put k client b' l.buckets, same) in
            let (positive, level) = first_nonneg (max_tokens c) (cost * token c) afford in
            rw (same, answer)
              (first_bounds (admitted c cost client calls l') (cost * token c) (pos_part b'.tokens)
                (max_tokens c) now t (last_time now calls) (refill_rate c) level
                (known_bound c cost client calls l' b' now a room' there' positive (omega arith) o)
                step (last_time_le now calls o))
        | inr other ↦
            let there' : get client l'.buckets ≡ none =
              spend_others c now k cost l l.buckets client (λ e. cc (other, (eq_iff k client).1 e))
              ∙ new in
            rw other (
              later_bounds (admitted c cost client calls l') (cost * token c) (max_tokens c) now t
                (last_time now calls) (refill_rate c)
                (admission_bound c cost client calls l' now a afford room' there' o) step
                (last_time_le now calls o))
      ])
