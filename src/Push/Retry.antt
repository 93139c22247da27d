-- ===== src/Push/Retry.antt =====
-- hermes_agent_a2a/push_delivery.py: when `deliver_with_retry` succeeds, and how long it sleeps.
use native.Mathlib.Nat.{two-pow-succ, pow-le-pow_right, mul-le-mul_left}
use hermes_agent_a2a.Prelude.{
  ℕ, zero, suc, ◌+◌, ◌-◌, ◌*◌, ◌^◌, ◌≤◌, ◌<◌, String, ◌≡◌, refl, ap, ◌⊎◌, ◌↔◌, true, List, [], ◌∷◌,
  arith, Bool-cases, inl, inr,
}
use hermes_agent_a2a.Json.{Fields}
use hermes_agent_a2a.Push.{Outcome, deliver, retry, deliver_with_retry}

abbrev pub total : List ℕ → ℕ
total [] = 0
total (x ∷ xs) = x + total xs

module _ (dumps : Fields → String) (hmac : String → String → String)
    (post : ℕ → String → String → String → Outcome) (base : ℕ) (url : String) (payload : Fields)
    (key : String) where
  abbrev pub SucceedsAt : ℕ → Type 0
  SucceedsAt n = deliver dumps hmac post n url payload key ≡ true

  retry_sound :
      (left attempt : ℕ)
      → (retry dumps hmac post base left attempt url payload key).0 ≡ true
      → (n : ℕ) × (attempt ≤ n) × (n < attempt + left) × SucceedsAt n
  unfolding retry
  retry_sound zero attempt h = cc
  retry_sound (suc left) attempt h =
      elim (Bool-cases (deliver dumps hmac post attempt url payload key)) [
        | inl ok ↦ (attempt, omega arith, omega arith, ok)
        | inr bad ↦
            let (n, ge, lt, ok) = retry_sound left (suc attempt) (ground (arith, h, bad)) in
            (n, omega (arith, ge), omega (arith, lt), ok)
      ]

  retry_complete :
      (left attempt n : ℕ)
      → attempt ≤ n
      → n < attempt + left
      → SucceedsAt n
      → (retry dumps hmac post base left attempt url payload key).0 ≡ true
  unfolding retry
  retry_complete zero attempt n ge lt ok = absurd (omega (arith, ge, lt))
  retry_complete (suc left) attempt n ge lt ok =
      elim (Bool-cases (deliver dumps hmac post attempt url payload key)) [
        | inl now ↦ ground (arith, now)
        | inr bad ↦
            let later : (attempt ≡ n) ⊎ (suc attempt ≤ n) = omega (arith, ge) in
            elim later [
              | inl same ↦
                  ground (
                    arith,
                    same,
                    ap (λ (x : ℕ). deliver dumps hmac post x url payload key) same,
                    ok,
                  )
              | inr more ↦
                  ground
                    (arith, bad, retry_complete left (suc attempt) n more (omega (arith, lt)) ok)
            ]
      ]

  slept : ℕ → ℕ → ℕ
  slept left attempt = total (retry dumps hmac post base left attempt url payload key).1

  slept_last : (attempt : ℕ) → slept 1 attempt ≡ 0
  unfolding slept retry
  slept_last attempt = ground arith

  slept_more :
      (left attempt : ℕ)
      → (slept (suc (suc left)) attempt ≡ 0)
        ⊎ (slept (suc (suc left)) attempt ≡ base * 2 ^ attempt + slept (suc left) (suc attempt))
  unfolding slept retry
  slept_more left attempt = elim (Bool-cases (deliver dumps hmac post attempt url payload key)) [
    | inl ok ↦ inl (rw ok refl)
    | inr bad ↦ inr (rw bad (ground arith))
  ]

  retry_waits :
      (left attempt : ℕ)
      → slept (suc left) attempt + base * 2 ^ attempt ≤ base * 2 ^ (attempt + left)
  retry_waits zero attempt =
      let e : attempt + 0 ≡ attempt = omega arith in
      omega (arith, slept_last attempt, ap (λ (x : ℕ). base * 2 ^ x) e)
  retry_waits (suc left) attempt = elim (slept_more left attempt) [
    | inl stopped ↦
        let grows : 2 ^ attempt ≤ 2 ^ (attempt + suc left) =
          pow-le-pow_right (omega arith) (omega arith) in
        omega (arith, stopped, mul-le-mul_left base grows)
    | inr more ↦
        let s : suc attempt + left ≡ attempt + suc left = omega arith in
        omega (
          arith,
          more,
          ap (λ (x : ℕ). base * x) (two-pow-succ attempt),
          retry_waits left (suc attempt),
          ap (λ (x : ℕ). base * 2 ^ x) s,
        )
  ]

  waits : (m : ℕ) → 0 < m → slept m 0 + base ≤ base * 2 ^ (m - 1)
  waits zero h = absurd (omega (arith, h))
  waits (suc m) h =
      let e : suc m - 1 ≡ m = omega arith in
      let z : 0 + m ≡ m = omega arith in
      omega (arith, retry_waits m 0, ap (λ (x : ℕ). base * 2 ^ x) e, ap (λ (x : ℕ). base * 2 ^ x) z)

  -- `deliver_with_retry` succeeds exactly if one of its first `max_attempts` POSTs has a 2xx answer,
  -- and with at least one attempt it sleeps at most base * (2 ^ (max_attempts - 1) - 1) in all.
  pub deliver_with_retry_exact :
      (max_attempts : ℕ)
      → let (answer, delays) =
          deliver_with_retry dumps hmac post base max_attempts url payload key in
        ((answer ≡ true) ↔ ((n : ℕ) × (n < max_attempts) × SucceedsAt n))
        × (0 < max_attempts → total delays + base ≤ base * 2 ^ (max_attempts - 1))
  unfolding deliver_with_retry slept
  deliver_with_retry_exact m = (
    (
      λ h. let (n, _, lt, ok) = retry_sound m 0 h in (n, omega (arith, lt), ok),
      λ (n, lt, ok). retry_complete m 0 n (omega arith) (omega (arith, lt)) ok,
    ),
    waits m,
  )
