-- ===== src/Urls.antt =====
-- hermes_agent_a2a/security.py: the checks of hosts and URLs against internal addresses. `urlparse`,
-- `ipaddress.ip_address`, `str.isdigit` of a character, `str.lower` and the lookup of a name are
-- parameters; an address is its version and number. `none` is an exception that no caller here catches.
pub mod Private
pub mod Safe
use Prim.Native.Char.{Char, code}
use Prim.Native.String.{String, ◌++◌ as append}
use hermes_agent_a2a.Prelude.{
  ℕ, ◌+◌, ◌-◌, ◌*◌, ◌/◌, ◌^◌, Bool, true, false, not, ◌&&◌, ◌||◌, Option, none, some, List, [], ◌∷◌,
  ◌==◌, eqb, leb, if◌then◌else◌, contains,
}
use hermes_agent_a2a.Text.{starts_with, before, drop_text, strip, between}

pub data Address : Type 0 where
  v4 v6 : ℕ → Address

-- `ip_network("base/prefix")`
pub record Network : Type 0 where
  pub base : Address
  pub prefix : ℕ

abbrev pub same_prefix : ℕ → ℕ → ℕ → ℕ → Bool
same_prefix width prefix a b = eqb (a / 2 ^ (width - prefix)) (b / 2 ^ (width - prefix))

-- ip in net
unfoldable pub is_member : Address → Network → Bool
is_member (v4 n) net = elim net.base [ v4 b ↦ same_prefix 32 net.prefix n b | v6 b ↦ false ]
is_member (v6 n) net = elim net.base [ v4 b ↦ false | v6 b ↦ same_prefix 128 net.prefix n b ]

-- a.b.0.0 as a number
abbrev pub quad : ℕ → ℕ → ℕ
quad a b = a * 16777216 + b * 65536

abbrev pub private_cidrs : List Network
private_cidrs =
    record { base = v4 (quad 127 0); prefix = 8 }
    ∷ record { base = v4 (quad 10 0); prefix = 8 }
    ∷ record { base = v4 (quad 172 16); prefix = 12 }
    ∷ record { base = v4 (quad 192 168); prefix = 16 }
    ∷ record { base = v4 (quad 169 254); prefix = 16 }
    ∷ record { base = v6 1; prefix = 128 }
    ∷ record { base = v6 (252 * 2 ^ 120); prefix = 7 }
    ∷ record { base = v6 (1018 * 2 ^ 118); prefix = 10 }
    ∷ []

unfoldable pub is_in_any : Address → List Network → Bool
unfolding is_member
is_in_any a [] = false
is_in_any a (net ∷ nets) = is_member a net || is_in_any a nets

-- What `urlparse` gives.
pub record ParsedUrl : Type 0 where
  pub scheme : String
  pub netloc : String
  pub hostname : Option String

-- s.count(c), for the character with this code
unfoldable pub count_char : ℕ → String → ℕ
count_char c String.[] = 0
count_char c (String.◌∷◌ d s) = count_char c s + (if eqb (code d) c then 1 else 0)

-- s.rstrip("/")
abbrev pub cons_unslashed : Char → String → String
cons_unslashed c String.[] = if eqb (code c) 47 then "" else String.◌∷◌ c ""
cons_unslashed c (String.◌∷◌ d s) = String.◌∷◌ c (String.◌∷◌ d s)

unfoldable pub rstrip_slashes : String → String
rstrip_slashes String.[] = ""
rstrip_slashes (String.◌∷◌ c s) = cons_unslashed c (rstrip_slashes s)

-- hostname[0].isdigit(), where `is_digit` is `isdigit` of a character: it accepts digits of all scripts.
-- The empty text has no first character.
unfoldable pub starts_with_digit : (Char → Bool) → String → Bool
starts_with_digit is_digit String.[] = false
starts_with_digit is_digit (String.◌∷◌ c s) = is_digit c

-- What `gethostbyname` does: an address, one of the errors that are caught, or another exception (a
-- name that cannot be encoded).
pub data Lookup : Type 0 where
  found : String → Lookup
  not_found uncaught : Lookup

abbrev pub is_http : String → Bool
is_http scheme = scheme == "http" || scheme == "https"

abbrev pub is_loopback : String → Bool
is_loopback h = contains h ("localhost" ∷ "127.0.0.1" ∷ "::1" ∷ [])

unfoldable pub hostname_of : ParsedUrl → String
unfolding starts_with before drop_text count_char
hostname_of p = elim p.hostname [
  | some h ↦ h
  | none ↦
      if starts_with "[" p.netloc
      then drop_text 1 (before "]" p.netloc)
      else if leb 2 (count_char 58 p.netloc)
      then p.netloc
      else before ":" p.netloc
]

module _ (ip_address : String → Option Address) where
  abbrev pub private_address : Option Address → Bool
  private_address none = false
  private_address (some a) = is_in_any a private_cidrs

  unfoldable pub is_private_ip : String → Bool
  unfolding is_in_any
  is_private_ip s = private_address (ip_address s)

  -- The names that are refused as they stand.
  unfoldable pub is_internal_name : String → Bool
  unfolding starts_with
  is_internal_name h =
      contains h (
        "*" ∷ "localhost" ∷ "0.0.0.0" ∷ "::1" ∷ "[::1]" ∷ "169.254.169.254"
        ∷ "metadata.google.internal" ∷ [])
      || starts_with "metadata.google.internal" h

  abbrev pub resolves_outside : Lookup → Option Bool
  resolves_outside (found ip) = some (not (is_private_ip ip))
  resolves_outside not_found = some false
  resolves_outside uncaught = none

  -- `urlparse` raises on some texts, such as "http://[".
  module _ (is_digit : Char → Bool) (lower : String → String) (urlparse : String → Option ParsedUrl)
      (resolve : String → Lookup) where
    -- The part after the parsing; an empty host name passes the tests on it.
    unfoldable pub is_safe_host : ParsedUrl → String → Option Bool
    unfolding is_internal_name is_private_ip starts_with_digit strip
    is_safe_host p hostname =
        if not (is_http (lower p.scheme)) || strip p.netloc == "*" || is_internal_name hostname
        then some false
        else if hostname == ""
        then some true
        else if is_private_ip hostname
        then some false
        else if starts_with_digit is_digit hostname
        then some true
        else resolves_outside (resolve hostname)

    abbrev pub parsed_is_safe : Option ParsedUrl → Option Bool
    parsed_is_safe none = none
    parsed_is_safe (some p) = is_safe_host p (hostname_of p)

    unfoldable pub is_safe_url : String → Option Bool
    unfolding is_safe_host hostname_of
    is_safe_url url = if strip url == "" then some false else parsed_is_safe (urlparse url)

    abbrev pub webhook_answer : String → Option Bool → Option (Bool × String)
    webhook_answer endpoint none = none
    webhook_answer endpoint (some true) = some (true, "")
    webhook_answer endpoint (some false) =
        some
          (false, append "Webhook endpoint is not allowed: " (append endpoint " (SSRF protection)"))

    -- The answer, with the reason of a refusal.
    unfoldable pub validate_webhook_endpoint : String → Option (Bool × String)
    unfolding is_safe_url
    validate_webhook_endpoint endpoint =
        if strip endpoint == ""
        then some (false, "Empty endpoint URL")
        else if not (starts_with "https://" (lower endpoint))
        then some (false, "Webhook endpoint must use HTTPS")
        else webhook_answer endpoint (is_safe_url endpoint)

    -- `none` is the ValueError of `validate_host` and of `validate_target_url`, which `urlparse` raises too.
    abbrev pub host_of_netloc : String → Option ParsedUrl → Option String
    host_of_netloc host none = none
    host_of_netloc host (some p) =
        let netloc = before ":" p.netloc in
        if is_loopback netloc || netloc == "0.0.0.0"
        then none
        else if is_private_ip netloc
        then none
        else some host

    unfoldable pub validate_host : String → Option String
    unfolding is_private_ip before
    validate_host host = host_of_netloc host (urlparse (append "http://" host))

    abbrev pub target_of : String → Bool → Option ParsedUrl → Option String
    target_of url allow_loopback none = none
    target_of url allow_loopback (some p) =
        let host = before ":" p.netloc in
        if not (is_http p.scheme) || p.netloc == ""
        then none
        else if host == "0.0.0.0"
        then none
        else if not allow_loopback && (is_loopback host || is_private_ip host)
        then none
        else some url

    unfoldable pub validate_target_url : String → Bool → Option String
    unfolding is_private_ip before strip rstrip_slashes
    validate_target_url raw allow_loopback =
        let url = rstrip_slashes (strip raw) in target_of url allow_loopback (urlparse url)
