-- ===== src/Http/Access/Guarded.antt =====
-- hermes_agent_a2a/server.py: what a body that reaches a POST handler has passed.
use mathlib.Core.Path.{subst}
use hermes_agent_a2a.Prelude.{
  ℕ, ◌≤◌, String, ◌≡◌, refl, Bool, true, false, Option, none, some, arith, if◌then◌else◌, ltb, eqb,
}
use hermes_agent_a2a.Int.{ℤ, pos, negsuc}
use hermes_agent_a2a.Json.{Json, Fields}
use hermes_agent_a2a.RateLimiter.{RateLimitConfig, RateLimiter, allow}
use hermes_agent_a2a.Http.{Settings, HttpRequest}
use hermes_agent_a2a.Http.Access.{
  Admission, refused, fails, admitted, check_auth, rate_limit_client_id, content_length, read_body,
  admit_post, of_limit, length_refused, of_auth, of_length, of_payload,
}

-- What holds of a request whose body reaches the handler, and of the limiter afterwards.
pub record IsAdmitted (s : Settings) (c : RateLimitConfig) (now : ℕ) (r : HttpRequest)
    (l l' : RateLimiter) (body : Json) : Type 0 where
  pub length : ℕ
  pub retry : ℕ
  pub authorized : check_auth s r ≡ some true
  pub within_rate : allow c now (rate_limit_client_id c r) 1 l ≡ some (l', true, retry)
  pub length_given : content_length r ≡ some (pos length)
  pub not_empty : 1 ≤ length
  pub bounded : length ≤ 65536
  pub parsed : r.payload length ≡ some body

abbrev pub AdmitsAs :
    Settings → RateLimitConfig → ℕ → HttpRequest → RateLimiter → RateLimiter × Admission → Type 0
AdmitsAs s c now r l (l', refused _) = Unit
AdmitsAs s c now r l (l', fails) = Unit
AdmitsAs s c now r l (l', admitted body) = IsAdmitted s c now r l l' body

module _ (show : ℤ → String) (say : ℕ → String → Fields) (s : Settings) (c : RateLimitConfig)
    (now : ℕ) (r : HttpRequest) (l : RateLimiter) where
  of_payload-AdmitsAs :
      (l' : RateLimiter) (retry n : ℕ) (empty big : Bool) (o : Option Json)
      → check_auth s r ≡ some true
      → allow c now (rate_limit_client_id c r) 1 l ≡ some (l', true, retry)
      → content_length r ≡ some (pos n)
      → eqb n 0 ≡ empty
      → ltb 65536 n ≡ big
      → r.payload n ≡ o
      → AdmitsAs s c now r l (
        l',
        if empty
            then length_refused show say 400 (pos n)
            else if big
            then length_refused show say 413 (pos n)
            else of_payload show say o,
      )
  of_payload-AdmitsAs l' retry n true big o auth rate len e b p = tt
  of_payload-AdmitsAs l' retry n false true o auth rate len e b p = tt
  of_payload-AdmitsAs l' retry n false false none auth rate len e b p = tt
  of_payload-AdmitsAs l' retry n false false (some body) auth rate len e b p = record {
    length = n;
    retry = retry;
    authorized = auth;
    within_rate = rate;
    length_given = len;
    not_empty = ground arith;
    bounded = ground arith;
    parsed = p;
  }

  of_length-AdmitsAs :
      (l' : RateLimiter) (retry : ℕ) (o : Option ℤ)
      → check_auth s r ≡ some true
      → allow c now (rate_limit_client_id c r) 1 l ≡ some (l', true, retry)
      → content_length r ≡ o
      → AdmitsAs s c now r l (l', of_length show say r o)
  unfolding read_body
  of_length-AdmitsAs l' retry none auth rate len = tt
  of_length-AdmitsAs l' retry (some (negsuc n)) auth rate len = tt
  of_length-AdmitsAs l' retry (some (pos n)) auth rate len =
      of_payload-AdmitsAs l' retry n (eqb n 0) (ltb 65536 n) (r.payload n) auth rate len refl refl
        refl

  of_limit-AdmitsAs :
      (o : Option (RateLimiter × Bool × ℕ))
      → check_auth s r ≡ some true
      → allow c now (rate_limit_client_id c r) 1 l ≡ o
      → AdmitsAs s c now r l (of_limit show say r l o)
  of_limit-AdmitsAs none auth rate = tt
  of_limit-AdmitsAs (some (l', false, retry)) auth rate = tt
  of_limit-AdmitsAs (some (l', true, retry)) auth rate =
      of_length-AdmitsAs l' retry (content_length r) auth rate refl

  of_auth-AdmitsAs :
      (o : Option Bool) → check_auth s r ≡ o → AdmitsAs s c now r l (of_auth show say c now r l o)
  of_auth-AdmitsAs none auth = tt
  of_auth-AdmitsAs (some false) auth = tt
  of_auth-AdmitsAs (some true) auth =
      of_limit-AdmitsAs (allow c now (rate_limit_client_id c r) 1 l) auth refl

  admit_post-AdmitsAs : AdmitsAs s c now r l (admit_post show say s c now r l)
  unfolding admit_post
  admit_post-AdmitsAs = of_auth-AdmitsAs (check_auth s r) refl

-- A body reaches the handler of a POST only if the caller is authorised, the rate limiter let the call
-- through and was charged for it, and the body has 1 to 65536 bytes and is the JSON that the handler gets.
pub admit_post-IsAdmitted :
    (show : ℤ → String) (say : ℕ → String → Fields) (s : Settings) (c : RateLimitConfig) (now : ℕ)
    (r : HttpRequest) (l l' : RateLimiter) (body : Json)
    → admit_post show say s c now r l ≡ (l', admitted body)
    → IsAdmitted s c now r l l' body
admit_post-IsAdmitted show say s c now r l l' body h =
    subst (AdmitsAs s c now r l) h (admit_post-AdmitsAs show say s c now r l)
