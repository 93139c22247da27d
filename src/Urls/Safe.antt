-- ===== src/Urls/Safe.antt =====
-- hermes_agent_a2a/security.py: what is known of a URL that passes the checks.
use Prim.Native.Char.{Char}
use Prim.Native.String.{String}
use hermes_agent_a2a.Prelude.{
  ◌≡◌, refl, ◌⊎◌, inl, inr, Bool, true, false, Option, none, some, arith, ◌==◌, if◌then◌else◌, not,
  ◌||◌,
}
use hermes_agent_a2a.Text.{starts_with, strip}
use hermes_agent_a2a.Urls.{
  Address, ParsedUrl, Lookup, found, not_found, uncaught, hostname_of, starts_with_digit,
  is_private_ip, is_internal_name, is_http, is_safe_host, is_safe_url, parsed_is_safe,
  webhook_answer, validate_webhook_endpoint, resolves_outside,
}

-- A chain of tests that answers true has passed each of them.
all_tests :
    (scheme star internal empty private digit : Bool) (resolved : Option Bool)
    → (if scheme || star || internal
        then some false
        else if empty
        then some true
        else if private
        then some false
        else if digit
        then some true
        else resolved)
      ≡ some true
    → (internal ≡ false)
      × ((empty ≡ true) ⊎ ((private ≡ false) × ((digit ≡ true) ⊎ (resolved ≡ some true))))
all_tests scheme star internal empty private digit resolved e = ground arith

module _ (ip_address : String → Option Address) (is_digit : Char → Bool) (lower : String → String)
    (urlparse : String → Option ParsedUrl) (resolve : String → Lookup) where
  -- The name has an address, and that is none of the private ones.
  pub ResolvesOutside : String → Type 0
  ResolvesOutside h = (ip : String) × (resolve h ≡ found ip) × (is_private_ip ip_address ip ≡ false)

  -- The host is empty, or it is no private address, and it starts with a digit of any script or is a name
  -- that is looked up and has an address outside.
  pub IsOutside : String → Type 0
  IsOutside h =
      ((h == "") ≡ true)
      ⊎ ((is_private_ip ip_address h ≡ false)
          × ((starts_with_digit is_digit h ≡ true) ⊎ ResolvesOutside h))

  -- The URL can be parsed, and its host is none of the refused names and is outside.
  pub LeadsOutside : String → Type 0
  LeadsOutside url =
      (p : ParsedUrl) × (urlparse url ≡ some p)
      × (is_internal_name ip_address (hostname_of p) ≡ false)
      × IsOutside (hostname_of p)

  resolves_lem :
      (o : Lookup)
      → resolves_outside ip_address o ≡ some true
      → (ip : String) × (o ≡ found ip) × (is_private_ip ip_address ip ≡ false)
  resolves_lem not_found e = ground arith
  resolves_lem uncaught e = ground arith
  resolves_lem (found ip) e = (ip, refl, ground arith)

  safe_host-IsOutside :
      (p : ParsedUrl) (h : String)
      → is_safe_host ip_address is_digit lower urlparse resolve p h ≡ some true
      → (is_internal_name ip_address h ≡ false) × IsOutside h
  unfolding is_safe_host IsOutside ResolvesOutside
  safe_host-IsOutside p h e =
      let t =
        all_tests (not (is_http (lower p.scheme))) (strip p.netloc == "*")
          (is_internal_name ip_address h) (h == "") (is_private_ip ip_address h)
          (starts_with_digit is_digit h) (resolves_outside ip_address (resolve h)) e in
      (
        t.0,
        elim t.1 as (λ x. IsOutside h) [
          | inl empty ↦ inl empty
          | inr (q, inl digit) ↦ inr (q, inl digit)
          | inr (q, inr r) ↦ inr (q, inr (resolves_lem (resolve h) r))
        ],
      )

  parsed_lem :
      (url : String) (o : Option ParsedUrl)
      → urlparse url ≡ o
      → parsed_is_safe ip_address is_digit lower urlparse resolve o ≡ some true
      → LeadsOutside url
  unfolding LeadsOutside
  parsed_lem url none h e = ground arith
  parsed_lem url (some p) h e = let t = safe_host-IsOutside p (hostname_of p) e in (p, h, t.0, t.1)

  safe_url-LeadsOutside :
      (url : String)
      → is_safe_url ip_address is_digit lower urlparse resolve url ≡ some true
      → LeadsOutside url
  unfolding is_safe_url
  safe_url-LeadsOutside url e = parsed_lem url (urlparse url) refl (ground arith)

  answer_lem :
      (endpoint reason : String) (o : Option Bool)
      → webhook_answer ip_address is_digit lower urlparse resolve endpoint o ≡ some (true, reason)
      → o ≡ some true
  answer_lem endpoint reason none e = ground arith
  answer_lem endpoint reason (some true) e = refl
  answer_lem endpoint reason (some false) e = ground arith

  guarded_lem :
      (empty https : Bool) (answer : Option Bool) (endpoint reason : String)
      → (if empty
          then some (false, "Empty endpoint URL")
          else if not https
          then some (false, "Webhook endpoint must use HTTPS")
          else webhook_answer ip_address is_digit lower urlparse resolve endpoint answer)
        ≡ some (true, reason)
      → (https ≡ true) × (answer ≡ some true)
  guarded_lem true https answer endpoint reason e = ground arith
  guarded_lem false false answer endpoint reason e = ground arith
  guarded_lem false true answer endpoint reason e = (refl, answer_lem endpoint reason answer e)

  endpoint_tests :
      (endpoint reason : String)
      → validate_webhook_endpoint ip_address is_digit lower urlparse resolve endpoint
        ≡ some (true, reason)
      → (starts_with "https://" (lower endpoint) ≡ true)
        × (is_safe_url ip_address is_digit lower urlparse resolve endpoint ≡ some true)
  unfolding validate_webhook_endpoint
  endpoint_tests endpoint reason e =
      guarded_lem (strip endpoint == "") (starts_with "https://" (lower endpoint))
        (is_safe_url ip_address is_digit lower urlparse resolve endpoint) endpoint reason e

  -- A webhook endpoint that is accepted starts with "https://" in lower case and can be parsed, and its
  -- host is none of the refused names. That host is empty, or it is no private address, and then it
  -- starts with a digit of any script or its name is looked up and the address found is no private one.
  pub webhook_endpoint-LeadsOutside :
      (endpoint reason : String)
      → validate_webhook_endpoint ip_address is_digit lower urlparse resolve endpoint
        ≡ some (true, reason)
      → (starts_with "https://" (lower endpoint) ≡ true) × LeadsOutside endpoint
  webhook_endpoint-LeadsOutside endpoint reason h =
      let t = endpoint_tests endpoint reason h in (t.0, safe_url-LeadsOutside endpoint t.1)
