-- ===== src/RateLimiter/Oldest.antt =====
-- hermes_agent_a2a/rate_limiter.py: `_evict_oldest` takes the bucket that was refilled first.
use hermes_agent_a2a.Prelude.{
  ℕ, ◌≤◌, String, ◌≡◌, ◌∙◌, refl, ap, sym, Option, none, some, [], ◌∷◌, arith, leb, eq_iff, eq_refl,
  Bool-cases, Option-cases, inl, inr,
}
use hermes_agent_a2a.Dict.{Dict, get, IsDistinct}
use hermes_agent_a2a.RateLimiter.{Bucket, oldest_key, older_of}

-- The key with the least time: it is there, and no bucket is older.
pub record IsOldest (d : Dict Bucket) (k : String) (t : ℕ) : Type 0 where
  pub there : (b : Bucket) × (get k d ≡ some b) × (b.last_refill ≡ t)
  pub least : (j : String) (b : Bucket) → get j d ≡ some b → t ≤ b.last_refill

pub oldest_none : (d : Dict Bucket) → oldest_key d ≡ none → d ≡ []
unfolding oldest_key
oldest_none [] h = refl
oldest_none ((i, a) ∷ d) h = ground arith

single_least : (i : String) (a : Bucket) → IsOldest ((i, a) ∷ []) i a.last_refill
unfolding get
single_least i a = record {
  there = (a, ground (arith, eq_refl i), refl);
  least = λ j b h. ground arith;
}

cons_least :
    (i : String) (a : Bucket) (d : Dict Bucket) (k : String) (t : ℕ)
    → get i d ≡ none
    → IsOldest d k t
    → let (k', t') = older_of (i, a.last_refill) (some (k, t)) in IsOldest ((i, a) ∷ d) k' t'
unfolding get
cons_least i a d k t absent o = elim (Bool-cases (leb a.last_refill t)) [
  | inl e ↦ rw e (record {
    there = (a, ground (arith, eq_refl i), refl);
    least = λ j b h. ground (arith, o.least j b, e);
  })
  | inr e ↦ rw e (record {
    there = (o.there.0, ground (arith, o.there, eq_iff i k, absent), o.there.2);
    least = λ j b h. ground (arith, o.least j b, e);
  })
]

oldest_key_cons :
    (i : String) (a : Bucket) (d : Dict Bucket) (o : Option (String × ℕ))
    → oldest_key d ≡ o
    → oldest_key ((i, a) ∷ d) ≡ some (older_of (i, a.last_refill) o)
unfolding oldest_key
oldest_key_cons i a d o e = ap (λ (x : Option (String × ℕ)). some (older_of (i, a.last_refill) x)) e

moved : (d : Dict Bucket) (x y : String × ℕ) → x ≡ y → IsOldest d x.0 x.1 → IsOldest d y.0 y.1
moved d x y e o = rw (sym e) o

some-inj : {x y : String × ℕ} → some x ≡ some y → x ≡ y
some-inj h = cc

pub evicted_is_least :
    (d : Dict Bucket) (k : String) (t : ℕ)
    → oldest_key d ≡ some (k, t)
    → IsDistinct d
    → IsOldest d k t
unfolding oldest_key get IsDistinct
evicted_is_least [] k t h u = cc
evicted_is_least ((i, a) ∷ d) k t h u = elim (Option-cases (oldest_key d)) [
  | inl e ↦
      let same : (i, a.last_refill) ≡ (k, t) = some-inj (sym (oldest_key_cons i a d none e) ∙ h) in
      let alone : IsOldest ((i, a) ∷ d) i a.last_refill = rw (oldest_none d e) (single_least i a) in
      moved ((i, a) ∷ d) (i, a.last_refill) (k, t) same alone
  | inr ((k', t'), e) ↦
      let same : older_of (i, a.last_refill) (some (k', t')) ≡ (k, t) =
        some-inj (sym (oldest_key_cons i a d (some (k', t')) e) ∙ h) in
      moved ((i, a) ∷ d) (older_of (i, a.last_refill) (some (k', t'))) (k, t) same
        (cons_least i a d k' t' u.0 (evicted_is_least d k' t' e u.1))
]
