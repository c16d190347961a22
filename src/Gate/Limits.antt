-- ===== src/Gate/Limits.antt =====
-- Which requests the rate limits let through (crates/cca-daemon/src/auth.rs).
use cca.Common.{ℕ, ◌≡◌, refl, Bool, true, false, ◌&&◌, Option, none, some, String}
use cca.Gate.{
  Request, Parsing, Checked, within, wait, Limiters, RateLimiterState, Limited, passed, refused,
  extract_api_key, extract_client_ip, or_localhost, refuse_or_pass, check_address, after_key,
  check_api_key, after_global, check_global, rate_limit_middleware,
}

abbrev pub is_passed : Limited → Bool
is_passed (passed limit) = true
is_passed (refused seconds kind) = false

abbrev pub is_within : Checked → Bool
is_within within = true
is_within (wait seconds) = false

module _ {G K I : Type 0} (limiters : Limiters G K I) where
  -- What each limiter says, where it is configured and applies.
  abbrev pub global_allows : ℕ → Option G → Bool
  global_allows now none = true
  global_allows now (some g) = is_within (limiters.check now g).1

  abbrev pub key_allows : ℕ → Option String → Option K → Bool
  key_allows now (some key) (some k) = is_within (limiters.check_key now key k).1
  key_allows now (some key) none = true
  key_allows now none k = true

  abbrev pub address_allows : ℕ → ℕ → I → Bool
  address_allows now ip i = is_within (limiters.check_ip now ip i).1

  checked_passes :
      (c : Checked) (limit : String) → is_passed (refuse_or_pass limiters c limit) ≡ is_within c
  checked_passes within limit = refl
  checked_passes (wait seconds) limit = refl

  check_address-passes :
      (now ip : ℕ) (limit : String) (s : RateLimiterState G K I)
      → is_passed (check_address limiters now ip limit s).1 ≡ address_allows now ip s.per_ip
  unfolding check_address
  check_address-passes now ip limit s = checked_passes (limiters.check_ip now ip s.per_ip).1 limit

  after_key-passes :
      (now ip : ℕ) (s : RateLimiterState G K I) (r : K × Checked)
      → is_passed (after_key limiters now ip s r).1
        ≡ (is_within r.1 && address_allows now ip s.per_ip)
  after_key-passes now ip s (k, within) =
      check_address-passes now ip "200" (record s { per_api_key = some k })
  after_key-passes now ip s (k, wait seconds) = refl

  check_api_key-passes :
      (now ip : ℕ) (key : Option String) (k : Option K) (s : RateLimiterState G K I)
      → is_passed (check_api_key limiters now ip key k s).1
        ≡ (key_allows now key k && address_allows now ip s.per_ip)
  unfolding check_api_key
  check_api_key-passes now ip (some key) (some k) s =
      after_key-passes now ip s (limiters.check_key now key k)
  check_api_key-passes now ip (some key) none s = check_address-passes now ip "200" s
  check_api_key-passes now ip none k s = check_address-passes now ip "100" s

  after_global-passes :
      (now ip : ℕ) (key : Option String) (s : RateLimiterState G K I) (r : G × Checked)
      → is_passed (after_global limiters now ip key s r).1
        ≡ (is_within r.1 && (key_allows now key s.per_api_key && address_allows now ip s.per_ip))
  after_global-passes now ip key s (g, within) =
      check_api_key-passes now ip key s.per_api_key (record s { global = some g })
  after_global-passes now ip key s (g, wait seconds) = refl

  check_global-passes :
      (now ip : ℕ) (key : Option String) (g : Option G) (s : RateLimiterState G K I)
      → is_passed (check_global limiters now ip key g s).1 ≡ (
          global_allows now g
          && (key_allows now key s.per_api_key && address_allows now ip s.per_ip))
  unfolding check_global
  check_global-passes now ip key none s = check_api_key-passes now ip key s.per_api_key s
  check_global-passes now ip key (some g) s =
      after_global-passes now ip key s (limiters.check now g)

  -- A request is let through exactly if the global limit, the limit of its key and the limit of its
  -- address all allow it, of those that are configured and apply: a key does not lift the limit of the
  -- address.
  pub rate_limit_middleware-passes :
      (parsing : Parsing) (now : ℕ) (r : Request) (s : RateLimiterState G K I)
      → is_passed (rate_limit_middleware limiters parsing now r s).1 ≡ (
          global_allows now s.global
          && (key_allows now (extract_api_key parsing r) s.per_api_key
              && address_allows now
                  (or_localhost parsing (extract_client_ip parsing s.trust_proxy r))
                  s.per_ip))
  unfolding rate_limit_middleware
  rate_limit_middleware-passes parsing now r s =
      check_global-passes now (or_localhost parsing (extract_client_ip parsing s.trust_proxy r))
        (extract_api_key parsing r) s.global s
