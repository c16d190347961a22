-- ===== src/Gate/Keys.antt =====
-- Which requests the check of keys lets through (crates/cca-daemon/src/auth.rs).
use cca.Common.{
  ◌≡◌, refl, sym, subst, ◌↔◌, ◌⊎◌, inl, inr, true, false, List, Option, none, some, String, str_eq,
  any, Has, any_sound, any_complete, eq_iff, arith, Bool-cases,
}
use cca.Acp.Env.{Env}
use cca.Acp.Auth.{constant_time_eq}
use cca.Acp.Auth.Keys.{constant_time_eq_iff}
use cca.Gate.{
  Request, Parsing, read, bypass_paths, DynamicAuthConfig, passes, bearer_token, is_known,
  dynamic_auth_middleware,
}

-- The credential is there, and one of the keys.
abbrev pub Known : List String → Option String → Type 0
Known api_keys credential = (key : String) × (credential ≡ some key) × Has key api_keys

module _ {C : Type 0} (env : Env C) (parsing : Parsing) where
  is_known_sound :
      (api_keys : List String) (c : Option String)
      → is_known env parsing api_keys c ≡ true
      → Known api_keys c
  unfolding is_known
  is_known_sound api_keys none h = absurd (ground arith)
  is_known_sound api_keys (some key) h =
      let (k, m, e) = any_sound (λ k. constant_time_eq env k key) api_keys h in
      (key, refl, subst (λ x. Has x api_keys) ((constant_time_eq_iff env k key).0 e) m)

  is_known_complete :
      (api_keys : List String) (c : Option String)
      → Known api_keys c
      → is_known env parsing api_keys c ≡ true
  unfolding is_known
  is_known_complete api_keys none (key, e, m) = absurd (ground arith)
  is_known_complete api_keys (some k) (key, e, m) =
      let same : k ≡ key = ground arith in
      any_complete (λ x. constant_time_eq env x k) key api_keys m
        ((constant_time_eq_iff env key k).1 (sym same))

  -- Why a request is let through.
  abbrev pub Allowed : DynamicAuthConfig → Request → Type 0
  Allowed config r =
      (config.required ≡ false)
      ⊎ (Has r.path bypass_paths
          ⊎ (Known config.api_keys (read r.x_api_key)
              ⊎ Known config.api_keys (bearer_token parsing r)))

  bypassed_sound :
      (path : String) → any (λ p. str_eq p path) bypass_paths ≡ true → Has path bypass_paths
  bypassed_sound path h =
      let (p, m, e) = any_sound (λ p. str_eq p path) bypass_paths h in
      subst (λ x. Has x bypass_paths) ((eq_iff p path).0 e) m

  bypassed_complete :
      (path : String) → Has path bypass_paths → any (λ p. str_eq p path) bypass_paths ≡ true
  bypassed_complete path m =
      any_complete (λ p. str_eq p path) path bypass_paths m ((eq_iff path path).1 refl)

  Allowed-sound :
      (config : DynamicAuthConfig) (r : Request)
      → dynamic_auth_middleware env parsing config r ≡ passes
      → Allowed config r
  unfolding dynamic_auth_middleware
  Allowed-sound config r h = elim (Bool-cases config.required) [
    | inr free ↦ inl free
    | inl must ↦ elim (Bool-cases (any (λ p. str_eq p r.path) bypass_paths)) [
      | inl b ↦ inr (inl (bypassed_sound r.path b))
      | inr b ↦ elim (Bool-cases (is_known env parsing config.api_keys (read r.x_api_key))) [
        | inl k ↦ inr (inr (inl (is_known_sound config.api_keys (read r.x_api_key) k)))
        | inr k ↦
            elim (Bool-cases (is_known env parsing config.api_keys (bearer_token parsing r))) [
              | inl t ↦ inr (inr (inr (is_known_sound config.api_keys (bearer_token parsing r) t)))
              | inr t ↦ absurd (ground (arith, h, must, b, k, t))
            ]
      ]
    ]
  ]

  Allowed-complete :
      (config : DynamicAuthConfig) (r : Request)
      → Allowed config r
      → dynamic_auth_middleware env parsing config r ≡ passes
  unfolding dynamic_auth_middleware
  Allowed-complete config r (inl free) = rw (dynamic_auth_middleware, free) refl
  Allowed-complete config r (inr (inl m)) = let b = bypassed_complete r.path m in ground (arith, b)
  Allowed-complete config r (inr (inr (inl k))) =
      let b = is_known_complete config.api_keys (read r.x_api_key) k in ground (arith, b)
  Allowed-complete config r (inr (inr (inr k))) =
      let b = is_known_complete config.api_keys (bearer_token parsing r) k in ground (arith, b)

  -- The middleware lets a request through exactly if no key is required, or its path is one of the two
  -- that are exempt, or its `X-API-Key` or its bearer token is one of the configured keys.
  pub dynamic_auth_middleware-passes :
      (config : DynamicAuthConfig) (r : Request)
      → (dynamic_auth_middleware env parsing config r ≡ passes) ↔ Allowed config r
  dynamic_auth_middleware-passes config r = (Allowed-sound config r, Allowed-complete config r)
