-- ===== src/Acp/Auth/Keys.antt =====
-- Which keys are accepted, and which roles they open (crates/cca-acp/src/server.rs).
use cca.Common.{
  ◌≡◌, ◌⊎◌, inl, inr, ◌↔◌, ◌≢◌, true, false, List, [], ◌∷◌, String, len, any, str_eq, ap, map, ◌++◌,
  ◌==◌, arith, Has, eq_iff, ==_iff, if◌then◌else◌,
}
use cca.Acp.Env.{Env}
use cca.Acp.Auth.{
  ApiKeyMetadata, AcpAuthConfig, constant_time_eq, is_role_authorized_in, is_role_authorized,
  validate_api_key, validate_api_key_for_handshake,
}

-- What the configuration grants: the first entry for the key names the roles, and an entry with no
-- roles opens all; a key with no entry must be a legacy key, and opens all.
abbrev pub Grants : List ApiKeyMetadata → List String → String → String → Type 0
Grants [] legacy key role = Has key legacy
Grants (m ∷ ms) legacy key role =
    ((m.key ≡ key) × ((m.allowed_roles ≡ []) ⊎ Has role m.allowed_roles))
    ⊎ ((m.key ≢ key) × Grants ms legacy key role)

module _ {C : Type 0} (env : Env C) where
  -- The comparison accepts exactly the equal texts.
  pub constant_time_eq_iff : (a b : String) → (constant_time_eq env a b ≡ true) ↔ (a ≡ b)
  unfolding constant_time_eq
  constant_time_eq_iff a b =
      (λ h. (env.ct_eq_lem a b (ground arith)).0 (ground arith), λ e. same a b e)
    where
      same : (a b : String) → a ≡ b → (if len a == len b then env.ct_eq a b else false) ≡ true
      same a b e =
          let l : len a ≡ len b = ap len e in
          ground (arith, (env.ct_eq_lem a b l).1 e, (==_iff (len a) (len b)).1 l)

  -- The keys that the configuration accepts, in either of its two lists.
  pub accepted_keys : AcpAuthConfig → List String
  accepted_keys config = config.api_keys ++ map (λ meta. meta.key) config.api_key_metadata

  any_legacy :
      (key : String) (ks : List String)
      → (any (λ k. constant_time_eq env k key) ks ≡ true) ↔ Has key ks
  unfolding any
  any_legacy key [] = (λ h. cc, λ h. absurd h)
  any_legacy key (k ∷ ks) = (
    λ h. ground (arith, constant_time_eq_iff k key, any_legacy key ks),
    λ h. ground (arith, constant_time_eq_iff k key, any_legacy key ks),
  )

  any_metadata :
      (key : String) (ms : List ApiKeyMetadata)
      → (any (λ meta. constant_time_eq env meta.key key) ms ≡ true)
        ↔ Has key (map (λ meta. meta.key) ms)
  unfolding any
  any_metadata key [] = (λ h. cc, λ h. absurd h)
  any_metadata key (m ∷ ms) = (
    λ h. ground (arith, constant_time_eq_iff m.key key, any_metadata key ms),
    λ h. ground (arith, constant_time_eq_iff m.key key, any_metadata key ms),
  )

  Has-append : (key : String) (xs ys : List String) → Has key (xs ++ ys) ↔ (Has key xs ⊎ Has key ys)
  Has-append key [] ys = (λ h. inr h, λ h. ground arith)
  Has-append key (x ∷ xs) ys =
      (λ h. ground (arith, Has-append key xs ys), λ h. ground (arith, Has-append key xs ys))

  -- The handshake accepts a key exactly when it is one of the two lists of the configuration.
  pub validate_api_key_for_handshake_iff :
      (config : AcpAuthConfig) (key : String)
      → (validate_api_key_for_handshake env config key ≡ true) ↔ Has key (accepted_keys config)
  unfolding validate_api_key_for_handshake accepted_keys
  validate_api_key_for_handshake_iff config key = (
    λ h. ground (
      arith,
      any_legacy key config.api_keys,
      any_metadata key config.api_key_metadata,
      Has-append key config.api_keys
          (map (λ (meta : ApiKeyMetadata). meta.key) config.api_key_metadata),
    ),
    λ h. ground (
      arith,
      any_legacy key config.api_keys,
      any_metadata key config.api_key_metadata,
      Has-append key config.api_keys
          (map (λ (meta : ApiKeyMetadata). meta.key) config.api_key_metadata),
    ),
  )

  any_role : (role : String) (rs : List String) → (any (λ r. str_eq r role) rs ≡ true) ↔ Has role rs
  unfolding any
  any_role role [] = (λ h. cc, λ h. absurd h)
  any_role role (r ∷ rs) = (
    λ h. ground (arith, eq_iff r role, any_role role rs),
    λ h. ground (arith, eq_iff r role, any_role role rs),
  )

  Grants-in :
      (ms : List ApiKeyMetadata) (legacy : List String) (key role : String)
      → (is_role_authorized_in env ms legacy key role ≡ true) ↔ Grants ms legacy key role
  unfolding is_role_authorized_in
  Grants-in [] legacy key role = any_legacy key legacy
  Grants-in (m ∷ ms) legacy key role = (
    λ h. ground (
      arith,
      constant_time_eq_iff m.key key,
      any_role role m.allowed_roles,
      Grants-in ms legacy key role,
    ),
    λ h. ground (
      arith,
      constant_time_eq_iff m.key key,
      any_role role m.allowed_roles,
      Grants-in ms legacy key role,
    ),
  )

  -- A key may register a role exactly when the configuration grants it.
  pub is_role_authorized_iff :
      (config : AcpAuthConfig) (key role : String)
      → (is_role_authorized env config key role ≡ true)
        ↔ Grants config.api_key_metadata config.api_keys key role
  unfolding is_role_authorized
  is_role_authorized_iff config key role =
      Grants-in config.api_key_metadata config.api_keys key role

  Grants-Has :
      (ms : List ApiKeyMetadata) (legacy : List String) (key role : String)
      → Grants ms legacy key role
      → Has key legacy ⊎ Has key (map (λ meta. meta.key) ms)
  Grants-Has [] legacy key role h = inl h
  Grants-Has (m ∷ ms) legacy key role h = ground (arith, Grants-Has ms legacy key role)

  -- No key that the handshake refuses can register a role.
  pub is_role_authorized-accepted :
      (config : AcpAuthConfig) (key role : String)
      → is_role_authorized env config key role ≡ true
      → validate_api_key_for_handshake env config key ≡ true
  is_role_authorized-accepted config key role h =
      let ms = config.api_key_metadata in
      let ks = config.api_keys in
      (validate_api_key_for_handshake_iff config key).1 (
        unfold accepted_keys in
        (Has-append key ks (map (λ (m : ApiKeyMetadata). m.key) ms)).1
          (Grants-Has ms ks key role ((is_role_authorized_iff config key role).0 h)))

  -- The test of the server's own method leaves the keys with metadata out.
  pub validate_api_key_iff :
      (config : AcpAuthConfig) (key : String)
      → (validate_api_key env config key ≡ true) ↔ Has key config.api_keys
  unfolding validate_api_key
  validate_api_key_iff config key = any_legacy key config.api_keys
