-- ===== src/RateLimiter/Calls.antt =====
-- hermes_agent_a2a/rate_limiter.py: what `allow` does to the buckets and the counters.
use hermes_agent_a2a.Prelude.{
  ℕ, ◌+◌, ◌*◌, ◌≤◌, ◌<◌, String, ◌≡◌, ◌≢◌, ◌∙◌, refl, ap, Bool, true, false, none, some, arith,
  eq_iff, if◌then◌else◌, Bool-cases, Option-cases, inl, inr, length,
}
use hermes_agent_a2a.Dict.{Dict, get, put}
use hermes_agent_a2a.Dict.Laws.{get-put, put_absent, put_present}
use hermes_agent_a2a.Int.{pos, minus, leb_ℤ}
use hermes_agent_a2a.RateLimiter.{
  RateLimitConfig, Bucket, RateLimiter, token, max_tokens, refill, spend, make_room, allow,
  retry_after,
}
use hermes_agent_a2a.RateLimiter.Tokens.{draw}

-- The limiter is on, and its divisions do not raise.
pub record IsActive (c : RateLimitConfig) : Type 0 where
  pub on : c.enabled ≡ true
  pub per_window : 0 < c.requests_per_window
  pub window : 0 < c.window_seconds

-- With the limiter off every request is let through, and only the count of them changes.
pub allow_disabled :
    (c : RateLimitConfig) (now : ℕ) (client : String) (cost : ℕ) (l : RateLimiter)
    → c.enabled ≡ false
    → allow c now client cost l
      ≡ some (record l { requests_allowed = l.requests_allowed + 1 }, true, 0)
unfolding allow
allow_disabled c now client cost l off = rw off refl

pub allow_active :
    (c : RateLimitConfig) (now : ℕ) (client : String) (cost : ℕ) (l : RateLimiter)
    → IsActive c
    → allow c now client cost l ≡ some (spend c now client cost l (make_room c client l.buckets))
unfolding allow
allow_active c now client cost l a = ground (arith, a)

pub make_room_with_space :
    (c : RateLimitConfig) (client : String) (d : Dict Bucket)
    → length d < c.max_entries
    → make_room c client d ≡ d
unfolding make_room
make_room_with_space c client d h = ground (arith, h)

pub make_room_known :
    (c : RateLimitConfig) (client : String) (d : Dict Bucket) (b : Bucket)
    → get client d ≡ some b
    → make_room c client d ≡ d
unfolding make_room
make_room_known c client d b h = ground (arith, h)

module _ (c : RateLimitConfig) (now : ℕ) (client : String) (cost : ℕ) (l : RateLimiter)
    (d : Dict Bucket) where
  -- The bucket of a client that is seen for the first time.
  abbrev pub first_bucket : Bucket
  first_bucket = record { tokens = minus (pos (max_tokens c)) (cost * token c); last_refill = now }

  pub spend_new :
      get client d ≡ none
      → ((spend c now client cost l d).0.buckets ≡ put client first_bucket d)
        × ((spend c now client cost l d).1 ≡ true)
  unfolding spend
  spend_new h = rw (h, spend) (refl, refl)

  pub spend_known :
      (b : Bucket)
      → get client d ≡ some b
      → ((spend c now client cost l d).0.buckets ≡ put client (draw c cost now b).0 d)
        × ((spend c now client cost l d).1 ≡ (draw c cost now b).1)
  unfolding spend draw
  spend_known b h = elim (Bool-cases (leb_ℤ (pos (cost * token c)) (refill c now b).tokens)) [
    | inl e ↦ ground (arith, h, e)
    | inr e ↦ ground (arith, h, e)
  ]

  -- Either way only the client's own entry is written.
  pub spend_writes : (b : Bucket) × ((spend c now client cost l d).0.buckets ≡ put client b d)
  spend_writes = elim (Option-cases (get client d)) [
    | inl h ↦ (first_bucket, (spend_new h).0)
    | inr (b, h) ↦ ((draw c cost now b).0, (spend_known b h).0)
  ]

  pub spend_others :
      (j : String) → client ≢ j → get j (spend c now client cost l d).0.buckets ≡ get j d
  spend_others j ne =
      let (b, e) = spend_writes in
      ap (get j) e ∙ ground (arith, get-put client j b d, eq_iff client j, ne)

  pub spend_grows : length (spend c now client cost l d).0.buckets ≤ length d + 1
  spend_grows =
      let (b, e) = spend_writes in
      rw e (elim (Option-cases (get client d)) [
        | inl h ↦ omega (arith, put_absent client b d h)
        | inr (b', h) ↦ omega (arith, put_present client b b' d h)
      ])

  -- Every call is counted once, as allowed or as blocked, as its answer says.
  pub spend_counts :
      let (l', ok, wait) = spend c now client cost l d in
      (l'.requests_allowed ≡ (if ok then l.requests_allowed + 1 else l.requests_allowed))
      × (l'.requests_blocked ≡ (if ok then l.requests_blocked else l.requests_blocked + 1))
      × (wait ≡ (if ok then 0 else retry_after c))
  unfolding spend
  spend_counts = elim (Option-cases (get client d)) [
    | inl h ↦ rw (h, spend) (refl, refl, refl)
    | inr (b, h) ↦ elim (Bool-cases (leb_ℤ (pos (cost * token c)) (refill c now b).tokens)) [
      | inl e ↦ ground (arith, h, e)
      | inr e ↦ ground (arith, h, e)
    ]
  ]

-- A call from its answer.
pub rebuilt : (x : RateLimiter × Bool × ℕ) → x.1 ≡ true → x.2 ≡ 0 → some x ≡ some (x.0, true, 0)
rebuilt (l, ok, wait) passes waits = rw (passes, waits) refl
