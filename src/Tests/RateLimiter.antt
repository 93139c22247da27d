-- ===== src/Tests/RateLimiter.antt =====
-- hermes_agent_a2a/rate_limiter.py: the theorems on the limiter, at concrete limiters.
use hermes_agent_a2a.RateLimiter.Entries.{IsBounded, allow-IsBounded}
use hermes_agent_a2a.Prelude.{
  ◌+◌, ◌-◌, ◌*◌, ◌≤◌, ◌≡◌, refl, true, false, none, some, List, [], ◌∷◌, arith, length,
}
use hermes_agent_a2a.Dict.{get, put, IsDistinct}
use hermes_agent_a2a.Int.{pos, sub_ℕ, minus, times, ◌+ℤ◌, min_ℤ}
use hermes_agent_a2a.RateLimiter.{
  RateLimitConfig, Bucket, RateLimiter, init, token, max_tokens, refill_rate, refill, spend,
  make_room, allow, drop_stale, cleanup_sweep,
}
use hermes_agent_a2a.RateLimiter.Calls.{IsActive}
use hermes_agent_a2a.RateLimiter.Admission.{Call, admitted, Ordered, last_time, admission_bound}
use hermes_agent_a2a.RateLimiter.Retry.{retry_enough}
use hermes_agent_a2a.RateLimiter.Sweep.{seen, sweep_unseen}

-- Two requests in two seconds, a burst of one and a half times that, and five entries.
abbrev config : RateLimitConfig
config = record {
  enabled = true;
  requests_per_window = 2;
  window_seconds = 2;
  burst_numerator = 3;
  burst_denominator = 2;
  header_name = "x-client";
  cleanup_interval_seconds = 60;
  max_entries = 5;
}

abbrev small : RateLimitConfig
small = record config { max_entries = 1 }

config-IsActive : IsActive config
config-IsActive = record { on = refl; per_window = omega arith; window = omega arith }

small-IsActive : IsActive small
small-IsActive = record { on = refl; per_window = omega arith; window = omega arith }

affordable : 1 * token config ≤ max_tokens config
affordable = omega arith

abbrev calls : List Call
calls = ("a", 10) ∷ ("b", 11) ∷ ("a", 12) ∷ []

room : length init.buckets + length calls ≤ config.max_entries
unfolding init
room = omega arith

absent_a : get "a" init.buckets ≡ none
unfolding init get
absent_a = refl

in_order : Ordered 0 calls
in_order = (omega arith, (omega arith, (omega arith, tt)))

admission_bound_example :
    admitted config 1 "a" calls init * (1 * token config)
    ≤ max_tokens config + (last_time 0 calls - 0) * refill_rate config
admission_bound_example =
    admission_bound config 1 "a" calls init 0 config-IsActive affordable room absent_a in_order

-- An empty bucket of "a", at the time 10.
abbrev drained : RateLimiter
drained = record {
  buckets = ("a", record { tokens = pos 0; last_refill = 10 }) ∷ [];
  requests_allowed = 3;
  requests_blocked = 0;
}

abbrev empty_bucket : Bucket
empty_bucket = record { tokens = pos 0; last_refill = 10 }

abbrev refused : RateLimiter
refused = record drained { requests_blocked = 1 }

drained_a : get "a" drained.buckets ≡ some empty_bucket
unfolding get
drained_a = refl

refuses : allow config 10 "a" 1 drained ≡ some (refused, false, 2)
unfolding allow make_room spend refill get put sub_ℕ times min_ℤ ◌+ℤ◌ minus
refuses = refl

retry_enough_example :
    (after : RateLimiter) × (allow config 2000000010 "a" 1 refused ≡ some (after, true, 0))
retry_enough_example =
    retry_enough config 10 2000000010 "a" drained refused empty_bucket 2 config-IsActive affordable
      drained_a refl (omega arith) refuses (omega arith)

drained_IsBounded : IsBounded config drained.buckets
unfolding get IsDistinct
drained_IsBounded = record { distinct = (refl, tt); bound = omega arith }

absent_b : get "b" drained.buckets ≡ none
unfolding get
absent_b = refl

abbrev swept : RateLimiter
swept = record drained { buckets = [] }

sweeps : cleanup_sweep config 9000000011 drained ≡ some swept
unfolding cleanup_sweep drop_stale
sweeps = refl

sweep_unseen_example :
    seen "a" (allow config 9000000012 "a" 1 swept)
    ≡ seen "a" (allow config 9000000012 "a" 1 drained)
sweep_unseen_example =
    sweep_unseen config 9000000011 9000000012 "a" drained swept empty_bucket config-IsActive
      affordable (omega arith) drained_IsBounded.distinct drained_a refl (omega arith) (omega arith)
      sweeps

allow-IsBounded_example : IsBounded config refused.buckets
allow-IsBounded_example =
    allow-IsBounded config 10 "a" 1 drained refused false 2 (omega arith) drained_IsBounded refuses
