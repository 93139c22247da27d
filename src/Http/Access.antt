-- ===== src/Http/Access.antt =====
-- hermes_agent_a2a/server.py: who may call, and what a POST must pass before its handler runs.
pub mod Guarded
use Prim.Native.Char.{code}
use Prim.Native.String.{String, ◌++◌ as append}
use hermes_agent_a2a.Prelude.{
  ℕ, ◌+◌, ◌-◌, ◌*◌, Bool, true, false, not, ◌&&◌, ◌||◌, Option, none, some, List, [], ◌∷◌, ◌==◌,
  ltb, leb, eqb, if◌then◌else◌, is_some,
}
use hermes_agent_a2a.Int.{ℤ, pos, negsuc, sub_ℕ}
use hermes_agent_a2a.Json.{Json, Fields, null}
use hermes_agent_a2a.Text.Number.{parse_int, ascii_digit}
use hermes_agent_a2a.Text.{starts_with, drop_text, before, strip, filled}
use hermes_agent_a2a.RateLimiter.{RateLimitConfig, RateLimiter, allow}
use hermes_agent_a2a.Http.{
  Settings, HttpRequest, Reply, json, error_reply, plain_error, rpc_error, json_rate_limited,
}

abbrev pub header_or : HttpRequest → String → String → String
header_or r name default = elim (r.header name) [ none ↦ default | some v ↦ v ]

unfoldable pub is_ascii : String → Bool
is_ascii String.[] = true
is_ascii (String.◌∷◌ c s) = ltb (code c) 128 && is_ascii s

-- `hmac.compare_digest` on texts, which raises on one that is not ASCII.
unfoldable pub compare_digest : String → String → Option Bool
unfolding is_ascii
compare_digest a b = if is_ascii a && is_ascii b then some (a == b) else none

abbrev pub is_local : String → Bool
is_local remote = remote == "127.0.0.1" || remote == "::1"

-- `none` is the exception of `compare_digest`.
unfoldable pub check_auth : Settings → HttpRequest → Option Bool
unfolding compare_digest starts_with drop_text strip
check_auth s r =
    if is_local r.remote
    then some (not s.require_auth)
    else if s.auth_token == ""
    then some false
    else let auth_header = header_or r "Authorization" "" in
      if starts_with "Bearer " auth_header
      then compare_digest (strip (drop_text 7 auth_header)) s.auth_token
      else some false

-- `a or b`, as a test takes it
abbrev pub either_text : Option String → Option String → Option String
either_text a b = elim (filled a) [ some k ↦ some k | none ↦ filled b ]

-- The key that is given, against the key that is expected.
abbrev pub key_accepted : Bool → Option String → String → Bool
key_accepted required none expected = not required
key_accepted required (some key) expected = key == expected

abbrev pub key_checked : HttpRequest → Bool → Option String → Bool
key_checked r required none = true
key_checked r required (some expected) =
    key_accepted required (filled (r.header "X-HMAC-Key")) expected

unfoldable pub check_hmac_push : Settings → HttpRequest → Bool → Bool
check_hmac_push s r required = key_checked r required (either_text s.hmac_key s.hmac_key_env)

abbrev pub unauthorized : Reply
unauthorized = error_reply 401 32603 "Unauthorized"

unfoldable pub rate_limit_client_id : RateLimitConfig → HttpRequest → String
unfolding before strip
rate_limit_client_id c r =
    let forwarded = header_or r c.header_name "" in
    if forwarded == "" then r.remote else strip (before "," forwarded)

-- What the checks make of a POST: a reply, an exception, or a body for the handler.
pub data Admission : Type 0 where
  refused : Reply → Admission
  fails : Admission
  admitted : Json → Admission

-- int(self.headers.get("Content-Length", 0))
unfoldable pub content_length : HttpRequest → Option ℤ
unfolding parse_int
content_length r = elim (r.header "Content-Length") [
  | none ↦ some (pos 0)
  | some v ↦ parse_int ascii_digit v
]

-- `show` is Python's `str` of an integer. `say` is the envelope of the error, which `_do_rest_post` and
-- `_do_json_rpc_inner` write differently here.
module _ (show : ℤ → String) (say : ℕ → String → Fields) where
  abbrev pub length_refused : ℕ → ℤ → Admission
  length_refused status n =
      refused (json status (say 32600 (append "Content-Length must be 1-65536, got " (show n))))

  abbrev pub of_payload : Option Json → Admission
  of_payload none = refused (error_reply 400 32700 "Parse error")
  of_payload (some body) = admitted body

  unfoldable pub read_body : HttpRequest → ℤ → Admission
  read_body r (negsuc n) = length_refused 400 (negsuc n)
  read_body r (pos n) =
      if eqb n 0
      then length_refused 400 (pos n)
      else if ltb 65536 n
      then length_refused 413 (pos n)
      else of_payload (r.payload n)

  abbrev pub of_length : HttpRequest → Option ℤ → Admission
  of_length r none = refused (error_reply 400 32600 "Invalid Content-Length")
  of_length r (some n) = read_body r n

  abbrev pub of_limit :
      HttpRequest → RateLimiter → Option (RateLimiter × Bool × ℕ) → RateLimiter × Admission
  of_limit r l none = (l, fails)
  of_limit r l (some (l', false, retry_after)) = (l', refused (json_rate_limited retry_after))
  of_limit r l (some (l', true, _)) = (l', of_length r (content_length r))

  abbrev pub of_auth :
      RateLimitConfig → ℕ → HttpRequest → RateLimiter → Option Bool → RateLimiter × Admission
  of_auth c now r l none = (l, fails)
  of_auth c now r l (some false) = (l, refused (json 401 (say 32603 "Unauthorized")))
  of_auth c now r l (some true) = of_limit r l (allow c now (rate_limit_client_id c r) 1 l)

  -- The part that `_do_rest_post` and `_do_json_rpc_inner` share, at the time `now`.
  unfoldable pub admit_post :
      Settings → RateLimitConfig → ℕ → HttpRequest → RateLimiter → RateLimiter × Admission
  unfolding check_auth rate_limit_client_id read_body content_length
  admit_post s c now r l = of_auth c now r l (check_auth s r)
