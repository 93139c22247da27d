-- ===== src/RateLimiter/Entries.antt =====
-- hermes_agent_a2a/rate_limiter.py: the bound on the number of buckets, and which one is evicted.
use hermes_agent_a2a.Prelude.{
  ℕ, ◌≤◌, ◌<◌, String, ◌≡◌, ◌≢◌, ◌∙◌, refl, ap, sym, ◌⊎◌, Bool, true, Option, none, some, [], arith,
  leb, eq_iff, eq_refl, if◌then◌else◌, Bool-cases, Option-cases, inl, inr, length,
}
use hermes_agent_a2a.Dict.{Dict, get, put, remove, IsDistinct}
use hermes_agent_a2a.Dict.Laws.{
  get-put, get-remove, length-remove, put_absent, put_present, put-IsDistinct, remove-IsDistinct,
}
use hermes_agent_a2a.RateLimiter.{
  RateLimitConfig, Bucket, RateLimiter, retry_after, divides_by_zero, oldest_key, evict_oldest,
  spend, make_room, allow,
}
use hermes_agent_a2a.RateLimiter.Calls.{
  IsActive, allow_disabled, allow_active, make_room_with_space, make_room_known, first_bucket,
  spend_new, spend_writes, spend_counts, rebuilt,
}
use hermes_agent_a2a.RateLimiter.Oldest.{IsOldest, oldest_none, evicted_is_least}

-- A full dictionary loses its oldest bucket, and no other.
make_room_full :
    (c : RateLimitConfig) (client : String) (d : Dict Bucket)
    → 0 < c.max_entries
    → IsDistinct d
    → get client d ≡ none
    → c.max_entries ≤ length d
    → (k : String) × (t : ℕ) × IsOldest d k t × (make_room c client d ≡ remove k d)
unfolding make_room evict_oldest
make_room_full c client d some_room u absent full = elim (Option-cases (oldest_key d)) [
  | inl e ↦
      let empty : length d ≡ 0 = ap (λ (x : Dict Bucket). length x) (oldest_none d e) in
      absurd (omega (arith, empty, full, some_room))
  | inr ((k, t), e) ↦ (k, t, evicted_is_least d k t e u, ground (arith, e, absent, full))
]

-- The number of buckets is within the configuration's, and no client has two.
pub record IsBounded (c : RateLimitConfig) (d : Dict Bucket) : Type 0 where
  pub distinct : IsDistinct d
  pub bound : length d ≤ c.max_entries

make_room_leaves :
    (c : RateLimitConfig) (client : String) (d : Dict Bucket) (b : Bucket)
    → 0 < c.max_entries
    → IsBounded c d
    → IsBounded c (put client b (make_room c client d))
make_room_leaves c client d b some_room w = elim (Option-cases (get client d)) [
  | inl absent ↦ elim (Bool-cases (leb c.max_entries (length d))) [
    | inl full ↦
        let full' : c.max_entries ≤ length d = ground (arith, full) in
        let (k, t, o, e) = make_room_full c client d some_room w.distinct absent full' in
        let gone : get client (remove k d) ≡ none = ground (arith, get-remove k client d, absent) in
        rw e (record {
          distinct = put-IsDistinct client b (remove k d) (remove-IsDistinct k d w.distinct);
          bound = omega (
            arith,
            put_absent client b (remove k d) gone,
            length-remove k d o.there.0 w.distinct o.there.1,
            w.bound,
          );
        })
    | inr room ↦
        let room' : length d < c.max_entries = ground (arith, room) in
        rw (make_room_with_space c client d room') (record {
          distinct = put-IsDistinct client b d w.distinct;
          bound = omega (arith, put_absent client b d absent, room');
        })
  ]
  | inr (b', there) ↦ rw (make_room_known c client d b' there) (record {
    distinct = put-IsDistinct client b d w.distinct;
    bound = omega (arith, put_present client b b' d there, w.bound);
  })
]

abbrev buckets_after : Option (RateLimiter × Bool × ℕ) → Dict Bucket
buckets_after none = []
buckets_after (some (l, ok, wait)) = l.buckets

raised : (x : RateLimiter × Bool × ℕ) → none ≡ some x → (b : Bool) → b ≡ true
raised x h b = cc

-- A call that returns leaves the buckets alone, or writes the client's after making room.
allow-buckets :
    (c : RateLimitConfig) (now : ℕ) (client : String) (cost : ℕ) (l l' : RateLimiter) (ok : Bool)
    (wait : ℕ)
    → allow c now client cost l ≡ some (l', ok, wait)
    → (l.buckets ≡ l'.buckets)
      ⊎ ((b : Bucket) × (put client b (make_room c client l.buckets) ≡ l'.buckets))
unfolding allow
allow-buckets c now client cost l l' ok wait e = elim (Bool-cases c.enabled) [
  | inr off ↦ inl (ap buckets_after (sym (allow_disabled c now client cost l off) ∙ e))
  | inl on ↦ elim (Bool-cases (divides_by_zero c)) [
    | inl raises ↦ let nothing : allow c now client cost l ≡ none = rw (on, raises) refl in inl cc
    | inr fine ↦
        let (b, written) = spend_writes c now client cost l (make_room c client l.buckets) in
        let returned : allow c now client cost l
            ≡ some (spend c now client cost l (make_room c client l.buckets)) =
          rw (on, fine) refl in
        inr (b, sym written ∙ ap buckets_after (sym returned ∙ e))
  ]
]

-- With room for at least one bucket, every call that returns keeps the number of buckets within the
-- configured bound, and no client ever has two.
pub allow-IsBounded :
    (c : RateLimitConfig) (now : ℕ) (client : String) (cost : ℕ) (l l' : RateLimiter) (ok : Bool)
    (wait : ℕ)
    → 0 < c.max_entries
    → IsBounded c l.buckets
    → allow c now client cost l ≡ some (l', ok, wait)
    → IsBounded c l'.buckets
allow-IsBounded c now client cost l l' ok wait some_room w e =
    elim (allow-buckets c now client cost l l' ok wait e) [
      | inl same ↦ rw (sym same) w
      | inr (b, written) ↦ rw (sym written) (make_room_leaves c client l.buckets b some_room w)
    ]

-- A client that is new to a full limiter is let through, and of the others exactly one loses its
-- bucket: one that was refilled no later than any. The limiter is on and has room for some bucket.
pub full_evicts_least :
    (c : RateLimitConfig) (now : ℕ) (client : String) (cost : ℕ) (l : RateLimiter)
    → IsActive c
    → 0 < c.max_entries
    → IsDistinct l.buckets
    → get client l.buckets ≡ none
    → c.max_entries ≤ length l.buckets
    → (l' : RateLimiter) × (k : String) × (t : ℕ) × (allow c now client cost l ≡ some (l', true, 0))
      × IsOldest l.buckets k t
      × (get k l'.buckets ≡ none)
      × ((j : String) → j ≢ k → j ≢ client → get j l'.buckets ≡ get j l.buckets)
full_evicts_least c now client cost l a some_room u absent full =
    let (k, t, o, e) = make_room_full c client l.buckets some_room u absent full in
    let gone : get client (make_room c client l.buckets) ≡ none =
      rw e (ground (arith, get-remove k client l.buckets, absent)) in
    let (written, answer) = spend_new c now client cost l (make_room c client l.buckets) gone in
    let (_, _, waits) = spend_counts c now client cost l (make_room c client l.buckets) in
    let after : RateLimiter = (spend c now client cost l (make_room c client l.buckets)).0 in
    let left : after.buckets
        ≡ put client (first_bucket c now client cost l (make_room c client l.buckets))
            (remove k l.buckets) =
      written ∙ ap (λ (d : Dict Bucket). put client (first_bucket c now client cost l d) d) e in
    let fb : Bucket = first_bucket c now client cost l (make_room c client l.buckets) in
    let other : client ≢ k = λ h. cc (h, absent, o.there.1) in
    let passes : allow c now client cost l ≡ some (after, true, 0) =
      allow_active c now client cost l a
      ∙ rebuilt (spend c now client cost l (make_room c client l.buckets)) answer
          (waits ∙ ap (λ (ok : Bool). if ok then 0 else retry_after c) answer) in
    (
      after,
      k,
      t,
      passes,
      o,
      ap (get k) left
          ∙ ground (
            arith,
            get-put client k fb (remove k l.buckets),
            get-remove k k l.buckets,
            eq_refl k,
            eq_iff client k,
            other,
          ),
      λ j nk nc.
          ap (get j) left
          ∙ ground (
            arith,
            get-put client j fb (remove k l.buckets),
            get-remove k j l.buckets,
            eq_iff client j,
            eq_iff k j,
            nk,
            nc,
          ),
    )
