-- ===== src/Webhook/Failure.antt =====
-- hermes_agent_a2a/webhook_delivery.py: when `on_failure` is called.
use hermes_agent_a2a.Prelude.{
  ℕ, zero, suc, ◌+◌, ◌<◌, ◌≤◌, String, ◌≡◌, refl, ap, ◌⊎◌, inl, inr, Bool, true, false, not, ◌&&◌,
  [], ◌∷◌, arith, ◌==◌, Bool-cases,
}
use hermes_agent_a2a.Json.{Fields}
use hermes_agent_a2a.Webhook.{Call, Run, body_dict, webhook_url, attempts, trigger, trigger_async}

module _ (dumps : Fields → String) (hmac : String → String → String)
    (call : String → String → String → String → Bool) (validate_host : String → Bool)
    (post : ℕ → String → String → String → Bool) where
  abbrev pub body_of : Call → String
  body_of c = dumps (body_dict c)

  -- The n-th POST of the call is accepted.
  abbrev pub AcceptedAt : Call → ℕ → Type 0
  AcceptedAt c n = post n (webhook_url c) (body_of c) (hmac c.secret (body_of c)) ≡ true

  -- The message got through: by a direct call without an error, or by one of the POSTs.
  pub data IsDelivered (c : Call) : Type 0 where
    direct :
        c.use_direct_a2a && not (c.target_url == "") ≡ true
        → call c.target_url c.message c.task_id c.auth_token ≡ true
        → IsDelivered c
    webhook :
        c.use_direct_a2a && not (c.target_url == "") ≡ false
        → (c.secret == "") ≡ false
        → validate_host c.host ≡ true
        → (n : ℕ) → n < c.retries
        → AcceptedAt c n
        → IsDelivered c

  attempts_sound :
      (c : Call) (left attempt : ℕ)
      → c.has_on_failure ≡ true
      → let run : Run =
          attempts dumps hmac call validate_host post c
            (body_of c)
            (hmac c.secret (body_of c))
            left
            attempt in
        ((run.failures ≡ []) × ((n : ℕ) × (n < attempt + left) × AcceptedAt c n))
        ⊎ ((run.failures ≡ c.task_id ∷ [])
            × ((n : ℕ) → attempt ≤ n → n < attempt + left → ¬ AcceptedAt c n))
  unfolding attempts
  attempts_sound c zero attempt cb =
      inr (ground (arith, cb), λ n ge lt ok. absurd (omega (arith, ge, lt)))
  attempts_sound c (suc left) attempt cb =
      elim (Bool-cases (post attempt (webhook_url c) (body_of c) (hmac c.secret (body_of c)))) [
        | inl ok ↦ inl (rw ok refl, (attempt, omega arith, ok))
        | inr bad ↦ elim (attempts_sound c left (suc attempt) cb) [
          | inl (silent, (n, lt, ok)) ↦
              inl (ground (arith, bad, silent), (n, omega (arith, lt), ok))
          | inr (told, never) ↦ inr (
            ground (arith, bad, told),
            λ n ge lt ok.
                let later : (attempt ≡ n) ⊎ (suc attempt ≤ n) = omega (arith, ge) in
                elim later [
                  | inl same ↦ absurd (
                      ground (
                        arith,
                        bad,
                        ok,
                        ap
                            (λ (x : ℕ).
                              post x (webhook_url c) (body_of c) (hmac c.secret (body_of c)))
                            same,
                      ))
                  | inr more ↦ never n more (omega (arith, lt)) ok
                ],
          )
        ]
      ]

  abbrev pub is_direct : Call → Bool
  is_direct c = c.use_direct_a2a && not (c.target_url == "")

  webhook_only : (c : Call) → is_direct c ≡ false → (c.secret == "") ≡ true → ¬ IsDelivered c
  webhook_only c off empty (direct on _) = absurd (ground (arith, off, on))
  webhook_only c off empty (webhook _ secret _ _ _ _) = absurd (ground (arith, empty, secret))

  host_refused : (c : Call) → is_direct c ≡ false → validate_host c.host ≡ false → ¬ IsDelivered c
  host_refused c off bad (direct on _) = absurd (ground (arith, off, on))
  host_refused c off bad (webhook _ _ good _ _ _) = absurd (ground (arith, bad, good))

  call_failed :
      (c : Call)
      → is_direct c ≡ true
      → call c.target_url c.message c.task_id c.auth_token ≡ false
      → ¬ IsDelivered c
  call_failed c on bad (direct _ good) = absurd (ground (arith, bad, good))
  call_failed c on bad (webhook off _ _ _ _ _) = absurd (ground (arith, off, on))

  all_refused :
      (c : Call)
      → is_direct c ≡ false
      → ((n : ℕ) → 0 ≤ n → n < 0 + c.retries → ¬ AcceptedAt c n)
      → ¬ IsDelivered c
  all_refused c off never (direct on _) = absurd (ground (arith, off, on))
  all_refused c off never (webhook _ _ _ n lt ok) = never n (omega arith) (omega (arith, lt)) ok

  -- `trigger`, given a failure callback, calls it with the task's id exactly once if the message does not
  -- get through, and never if it does; `trigger_async` does the same as `trigger`.
  pub on_failure_exact :
      (c : Call)
      → c.has_on_failure ≡ true
      → (((trigger dumps hmac call validate_host post c).failures ≡ []) × IsDelivered c
          ⊎ ((trigger dumps hmac call validate_host post c).failures ≡ c.task_id ∷ [])
            × (¬ IsDelivered c))
        × (trigger_async dumps hmac call validate_host post c
            ≡ trigger dumps hmac call validate_host post c)
  unfolding trigger trigger_async
  on_failure_exact c cb = elim (Bool-cases (is_direct c)) [
    | inl on ↦ elim (Bool-cases (call c.target_url c.message c.task_id c.auth_token)) [
      | inl good ↦ (inl (ground (arith, on, good), direct on good), ground (arith, on))
      | inr bad ↦ (inr (ground (arith, on, bad, cb), call_failed c on bad), ground (arith, on))
    ]
    | inr off ↦ elim (Bool-cases (c.secret == "")) [
      | inl empty ↦ (
        inr (ground (arith, off, empty, cb), webhook_only c off empty),
        ground (arith, off, empty),
      )
      | inr secret ↦ elim (Bool-cases (validate_host c.host)) [
        | inr refused ↦ (
          inr (ground (arith, off, secret, refused, cb), host_refused c off refused),
          ground (arith, off, secret, refused),
        )
        | inl host ↦ elim (attempts_sound c c.retries 0 cb) [
          | inl (silent, (n, lt, ok)) ↦ (
            inl (
              ground (arith, off, secret, host, silent),
              webhook off secret host n (omega (arith, lt)) ok,
            ),
            ground (arith, off, secret, host),
          )
          | inr (told, never) ↦ (
            inr (ground (arith, off, secret, host, told), all_refused c off never),
            ground (arith, off, secret, host),
          )
        ]
      ]
    ]
  ]
