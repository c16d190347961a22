-- ===== src/Acp/Auth.antt =====
-- API keys and roles: `AcpAuthConfig` of crates/cca-acp/src/server.rs and `constant_time_eq` of
-- crates/cca-core/src/util.rs.
pub mod Keys
use cca.Common.{
  ℕ, ◌≡◌, Bool, true, false, ◌||◌, List, [], ◌∷◌, Option, none, some, String, len, any, str_eq,
  if◌then◌else◌, ◌==◌,
}
use cca.Acp.Env.{Env}

pub record ApiKeyMetadata : Type 0 where
  pub key : String
  pub allowed_roles : List String
  pub key_id : Option String

pub record AcpAuthConfig : Type 0 where
  pub api_keys : List String
  pub api_key_metadata : List ApiKeyMetadata
  pub require_auth : Bool

abbrev is_empty {ℓ} : {A : Type ℓ} → List A → Bool
is_empty [] = true
is_empty (x ∷ xs) = false

module _ {C : Type 0} (env : Env C) where
  unfoldable pub constant_time_eq : String → String → Bool
  constant_time_eq a b = if len a == len b then env.ct_eq a b else false

  -- The first entry whose key matches decides. The legacy keys are tried where none does.
  unfoldable pub is_role_authorized_in : List ApiKeyMetadata → List String → String → String → Bool
  unfolding constant_time_eq any
  is_role_authorized_in [] legacy api_key role = any (λ k. constant_time_eq k api_key) legacy
  is_role_authorized_in (meta ∷ rest) legacy api_key role =
      let later = is_role_authorized_in rest legacy api_key role in
      if constant_time_eq meta.key api_key
      then (if is_empty meta.allowed_roles
          then true
          else any (λ r. str_eq r role) meta.allowed_roles)
      else later

  unfoldable pub is_role_authorized : AcpAuthConfig → String → String → Bool
  unfolding is_role_authorized_in
  is_role_authorized config = is_role_authorized_in config.api_key_metadata config.api_keys

  unfoldable pub get_key_id_in : List ApiKeyMetadata → String → Option String
  unfolding constant_time_eq
  get_key_id_in [] api_key = none
  get_key_id_in (meta ∷ rest) api_key =
      if constant_time_eq meta.key api_key then meta.key_id else get_key_id_in rest api_key

  unfoldable pub get_key_id : AcpAuthConfig → String → Option String
  unfolding get_key_id_in
  get_key_id config = get_key_id_in config.api_key_metadata

  -- `AcpServer::validate_api_key`: the legacy keys only.
  unfoldable pub validate_api_key : AcpAuthConfig → String → Bool
  unfolding constant_time_eq any
  validate_api_key config key = any (λ k. constant_time_eq k key) config.api_keys

  -- `validate_api_key_for_handshake`: the legacy keys and those with metadata.
  unfoldable pub validate_api_key_for_handshake : AcpAuthConfig → String → Bool
  unfolding constant_time_eq any
  validate_api_key_for_handshake config key =
      any (λ k. constant_time_eq k key) config.api_keys
      || any (λ meta. constant_time_eq meta.key key) config.api_key_metadata
