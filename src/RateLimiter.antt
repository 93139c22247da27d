-- ===== src/RateLimiter.antt =====
-- hermes_agent_a2a/rate_limiter.py: `RateLimitConfig` and `RateLimiter`.
-- Floats are read as exact numbers, so rounding is not modelled. Time is counted in nanoseconds, the
-- burst multiplier is a fraction, and tokens are counted in the unit `token c`, in which the
-- capacity, the refill of a nanosecond and a whole token are whole numbers.
-- The lock makes each call one step; a token count can be negative, as a float can.
pub mod Tokens
pub mod Calls
pub mod Admission
pub mod Oldest
pub mod Entries
pub mod Retry
pub mod Sweep
use hermes_agent_a2a.Prelude.{
  ℕ, zero, suc, ◌+◌, ◌-◌, ◌*◌, ◌/◌, String, Bool, true, false, not, ◌&&◌, ◌||◌, Option, none, some,
  List, [], ◌∷◌, ltb, leb, eqb, if◌then◌else◌, is_some, length,
}
use hermes_agent_a2a.Dict.{Dict, get, has, put, remove}
use hermes_agent_a2a.Int.{ℤ, pos, sub_ℕ, ◌+ℤ◌, minus, times, min_ℤ, leb_ℤ}

pub record RateLimitConfig : Type 0 where
  pub enabled : Bool
  pub requests_per_window : ℕ
  pub window_seconds : ℕ
  -- burst_multiplier = burst_numerator / burst_denominator, and the denominator is not 0
  pub burst_numerator : ℕ
  pub burst_denominator : ℕ
  pub header_name : String
  pub cleanup_interval_seconds : ℕ
  pub max_entries : ℕ

pub record Bucket : Type 0 where
  pub tokens : ℤ
  pub last_refill : ℕ

pub record RateLimiter : Type 0 where
  pub buckets : Dict Bucket
  pub requests_allowed : ℕ
  pub requests_blocked : ℕ

-- `RateLimiter(config)`
unfoldable pub init : RateLimiter
init = record { buckets = []; requests_allowed = 0; requests_blocked = 0 }

abbrev pub nanoseconds : ℕ → ℕ
nanoseconds s = s * 1000000000

module _ (c : RateLimitConfig) where
  open c use {requests_per_window, window_seconds, burst_numerator, burst_denominator}

  -- One token: `window_seconds` in nanoseconds, times the denominator of the multiplier.
  abbrev pub token : ℕ
  token = nanoseconds window_seconds * burst_denominator

  -- max_tokens = requests_per_window * burst_multiplier
  abbrev pub max_tokens : ℕ
  max_tokens = requests_per_window * burst_numerator * nanoseconds window_seconds

  -- refill_rate = requests_per_window / window_seconds, for a nanosecond
  abbrev pub refill_rate : ℕ
  refill_rate = requests_per_window * burst_denominator

  -- int(window_seconds / requests_per_window) + 1
  abbrev pub retry_after : ℕ
  retry_after = window_seconds / requests_per_window + 1

  -- The divisions of `allow` and of the sweep raise ZeroDivisionError.
  abbrev pub divides_by_zero : Bool
  divides_by_zero = eqb requests_per_window 0 || eqb window_seconds 0

-- min(keys, key=last_refill): the first key with the least time
abbrev pub older_of : String × ℕ → Option (String × ℕ) → String × ℕ
older_of (k, t) none = (k, t)
older_of (k, t) (some (j, u)) = if leb t u then (k, t) else (j, u)

unfoldable pub oldest_key : Dict Bucket → Option (String × ℕ)
oldest_key [] = none
oldest_key ((k, b) ∷ d) = some (older_of (k, b.last_refill) (oldest_key d))

unfoldable pub evict_oldest : Dict Bucket → Dict Bucket
evict_oldest d = elim (oldest_key d) [ none ↦ d | some (k, t) ↦ remove k d ]

-- `bucket["tokens"] = min(max_tokens, bucket["tokens"] + elapsed * refill_rate)` at the time `now`.
-- `now` is read before the lock is taken, so it may lie before `last_refill`.
unfoldable pub refill : RateLimitConfig → ℕ → Bucket → Bucket
refill c now b =
    let elapsed = sub_ℕ now b.last_refill in
    record {
      tokens = min_ℤ (pos (max_tokens c)) (b.tokens +ℤ times elapsed (refill_rate c));
      last_refill = now;
    }

-- The buckets once there is room for the client's.
unfoldable pub make_room : RateLimitConfig → String → Dict Bucket → Dict Bucket
make_room c client d =
    if not (has client d) && leb c.max_entries (length d) then evict_oldest d else d

abbrev pub let_through : RateLimiter → Dict Bucket → RateLimiter
let_through l d = record l { buckets = d; requests_allowed = l.requests_allowed + 1 }

-- The part of `allow` under the lock, on the buckets with room.
unfoldable pub spend :
    RateLimitConfig → ℕ → String → ℕ → RateLimiter → Dict Bucket → RateLimiter × Bool × ℕ
unfolding refill
spend c now client cost l d = elim (get client d) [
  | none ↦ (
    let_through l (
        put client
          (record { tokens = minus (pos (max_tokens c)) (cost * token c); last_refill = now }) d),
    true,
    0,
  )
  | some b ↦
      let b' = refill c now b in
      if leb_ℤ (pos (cost * token c)) b'.tokens
      then (
        let_through l (put client (record b' { tokens = minus b'.tokens (cost * token c) }) d),
        true,
        0,
      )
      else (
        record l { buckets = put client b' d; requests_blocked = l.requests_blocked + 1 },
        false,
        retry_after c,
      )
]

-- `allow(client_id, cost)` at the time `now`, for a cost of whole tokens (every call has the default,
-- 1). `none` is a ZeroDivisionError.
unfoldable pub allow :
    RateLimitConfig → ℕ → String → ℕ → RateLimiter → Option (RateLimiter × Bool × ℕ)
unfolding make_room spend
allow c now client cost l =
    if not c.enabled
    then some (record l { requests_allowed = l.requests_allowed + 1 }, true, 0)
    else if divides_by_zero c
    then none
    else some (spend c now client cost l (make_room c client l.buckets))

-- `b["last_refill"] < now - 2 * burst_duration`, multiplied by the denominator
abbrev pub is_stale : RateLimitConfig → ℕ → Bucket → Bool
is_stale c now b =
    ltb
      (b.last_refill * c.burst_denominator + 2 * (nanoseconds c.window_seconds * c.burst_numerator))
      (now * c.burst_denominator)

unfoldable pub drop_stale : RateLimitConfig → ℕ → Dict Bucket → Dict Bucket
drop_stale c now [] = []
drop_stale c now ((k, b) ∷ d) =
    let rest = drop_stale c now d in if is_stale c now b then rest else (k, b) ∷ rest

unfoldable pub cleanup_sweep : RateLimitConfig → ℕ → RateLimiter → Option RateLimiter
unfolding drop_stale
cleanup_sweep c now l =
    if divides_by_zero c then none else some (record l { buckets = drop_stale c now l.buckets })
