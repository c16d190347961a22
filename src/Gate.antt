-- ===== src/Gate.antt =====
-- crates/cca-daemon/src/auth.rs: the two middlewares in front of the HTTP API, which check the key of a
-- request and limit the rate of requests. A limiter is the state of a governor `RateLimiter`.
pub mod Limits
pub mod Keys
use cca.Common.{
  ℕ, max, Bool, true, false, ◌||◌, not, List, [], ◌∷◌, Option, none, some, String, if◌then◌else◌,
  ltb, str_eq, any,
}
use cca.Acp.Env.{Env}
use cca.Acp.Auth.{constant_time_eq}

-- A header that is there is visible ASCII, or cannot be read as a text.
pub data Header : Type 0 where
  absent : Header
  text : String → Header
  opaque : Header

-- `path`, the headers that are read, and the address of the peer.
pub record Request : Type 0 where
  pub path : String
  pub x_api_key : Header
  pub authorization : Header
  pub x_forwarded_for : Header
  pub x_real_ip : Header
  pub connect_info : Option ℕ

-- The standard library's text functions: `strip_prefix("Bearer ")`, the trimmed piece in front of the
-- first comma, `trim`, and the parsing of an address.
pub record Parsing : Type 0 where
  pub strip_bearer : String → Option String
  pub first_piece : String → String
  pub trim : String → String
  pub parse_ip : String → Option ℕ
  -- 127.0.0.1.
  pub localhost : ℕ

-- `headers().get(name).and_then(to_str)`.
abbrev pub read : Header → Option String
read absent = none
read (text value) = some value
read opaque = none

abbrev pub bypass_paths : List String
bypass_paths = "/health" ∷ "/api/v1/health" ∷ []

pub record DynamicAuthConfig : Type 0 where
  pub api_keys : List String
  pub required : Bool

-- A request that is let through, or the response that stands for it.
pub data Verdict : Type 0 where
  passes : Verdict
  unauthorized : Verdict

module _ (parsing : Parsing) where
  abbrev pub strip : Option String → Option String
  strip none = none
  strip (some value) = parsing.strip_bearer value

  unfoldable pub bearer_token : Request → Option String
  bearer_token r = strip (read r.authorization)

module _ {C : Type 0} (env : Env C) (parsing : Parsing) where
  -- Some configured key is this credential.
  unfoldable pub is_known : List String → Option String → Bool
  unfolding constant_time_eq any
  is_known api_keys none = false
  is_known api_keys (some key) = any (λ k. constant_time_eq env k key) api_keys

  unfoldable pub dynamic_auth_middleware : DynamicAuthConfig → Request → Verdict
  unfolding is_known bearer_token any
  dynamic_auth_middleware config r =
      if not config.required
      then passes
      else if any (λ p. str_eq p r.path) bypass_paths
      then passes
      else if is_known config.api_keys (read r.x_api_key)
      then passes
      else if is_known config.api_keys (bearer_token parsing r)
      then passes
      else unauthorized

-- A rate limiter of governor: `check` at a time lets a request through or says how many seconds to
-- wait, and counts it in its state.
pub data Checked : Type 0 where
  within : Checked
  wait : ℕ → Checked

pub record Limiters (G K I : Type 0) : Type 0 where
  pub check : ℕ → G → G × Checked
  pub check_key : ℕ → String → K → K × Checked
  pub check_ip : ℕ → ℕ → I → I × Checked

pub record RateLimiterState (G K I : Type 0) : Type 0 where
  pub per_ip : I
  pub per_api_key : Option K
  pub global : Option G
  pub trust_proxy : Bool

-- The request with the value of `X-RateLimit-Limit`, or a response 429 with its `Retry-After` and
-- `X-RateLimit-Type`.
pub data Limited : Type 0 where
  passed : String → Limited
  refused : ℕ → String → Limited

module _ (parsing : Parsing) where
  abbrev pub or_bearer : Option String → Option String → Option String
  or_bearer none bearer = bearer
  or_bearer (some key) bearer = some key

  unfoldable pub extract_api_key : Request → Option String
  unfolding bearer_token
  extract_api_key r = or_bearer (read r.x_api_key) (bearer_token parsing r)

  abbrev pub forwarded_ip : Option String → Option ℕ
  forwarded_ip none = none
  forwarded_ip (some value) = parsing.parse_ip (parsing.trim (parsing.first_piece value))

  abbrev pub real_ip : Option String → Option ℕ
  real_ip none = none
  real_ip (some value) = parsing.parse_ip (parsing.trim value)

  abbrev pub or_else : Option ℕ → Option ℕ → Option ℕ
  or_else none other = other
  or_else (some ip) other = some ip

  unfoldable pub extract_client_ip : Bool → Request → Option ℕ
  extract_client_ip trust_proxy r =
      if trust_proxy
      then or_else (forwarded_ip (read r.x_forwarded_for))
          (or_else (real_ip (read r.x_real_ip)) r.connect_info)
      else r.connect_info

  abbrev pub or_localhost : Option ℕ → ℕ
  or_localhost none = parsing.localhost
  or_localhost (some ip) = ip

module _ {G K I : Type 0} (limiters : Limiters G K I) where
  abbrev pub refuse_or_pass : Checked → String → Limited
  refuse_or_pass within limit = passed limit
  refuse_or_pass (wait seconds) limit = refused (max seconds 1) "ip"

  -- The last check, of the address.
  unfoldable pub check_address :
      ℕ → ℕ → String → RateLimiterState G K I → RateLimiterState G K I × Limited
  check_address now ip limit s =
      let (per_ip, checked) = limiters.check_ip now ip s.per_ip in
      (record s { per_ip = per_ip }, refuse_or_pass checked limit)

  abbrev after_key : ℕ → ℕ → RateLimiterState G K I → K × Checked → RateLimiterState G K I × Limited
  after_key now ip s (k, within) = check_address now ip "200" (record s { per_api_key = some k })
  after_key now ip s (k, wait seconds) =
      (record s { per_api_key = some k }, refused (max seconds 1) "api_key")

  -- The check of the key, where there is one and a limiter for it.
  unfoldable pub check_api_key :
      ℕ → ℕ → Option String → Option K → RateLimiterState G K I → RateLimiterState G K I × Limited
  unfolding check_address
  check_api_key now ip (some key) (some k) s = after_key now ip s (limiters.check_key now key k)
  check_api_key now ip (some key) none s = check_address now ip "200" s
  check_api_key now ip none per_api_key s = check_address now ip "100" s

  abbrev after_global :
      ℕ
      → ℕ
      → Option String
      → RateLimiterState G K I
      → G × Checked
      → RateLimiterState G K I × Limited
  after_global now ip key s (g, within) =
      check_api_key now ip key s.per_api_key (record s { global = some g })
  after_global now ip key s (g, wait seconds) = (record s { global = some g }, refused 1 "global")

  unfoldable pub check_global :
      ℕ → ℕ → Option String → Option G → RateLimiterState G K I → RateLimiterState G K I × Limited
  unfolding check_api_key
  check_global now ip key none s = check_api_key now ip key s.per_api_key s
  check_global now ip key (some g) s = after_global now ip key s (limiters.check now g)

  unfoldable pub rate_limit_middleware :
      Parsing → ℕ → Request → RateLimiterState G K I → RateLimiterState G K I × Limited
  unfolding check_global extract_client_ip extract_api_key
  rate_limit_middleware parsing now r s =
      check_global now (or_localhost parsing (extract_client_ip parsing s.trust_proxy r))
        (extract_api_key parsing r) s.global s
