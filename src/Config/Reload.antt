-- ===== src/Config/Reload.antt =====
-- What a reload changes (crates/cca-daemon/src/config.rs and daemon.rs).
use cca.Common.{
  ◌≡◌, refl, sym, ap, subst, ◌∙◌, Bool, true, false, List, [], ◌∷◌, ◌++◌, some, String, str_eq,
  eq_iff, ==_iff, length, if-elim, arith, str_eq_refl,
}
use cca.Config.{
  Config, ReloadableConfig, ApiKeyConfig, diff, to_reloadable, reload_config, same_texts, same_bool,
  changed, is_empty,
}

-- The fields that are compared.
pub record Agrees (c d : ReloadableConfig) : Type 0 where
  pub keys : c.api_keys ≡ d.api_keys
  pub key_configs : length c.api_key_configs ≡ length d.api_key_configs
  pub rps : c.rate_limit_rps ≡ d.rate_limit_rps
  pub burst : c.rate_limit_burst ≡ d.rate_limit_burst
  pub global_rps : c.rate_limit_global_rps ≡ d.rate_limit_global_rps
  pub key_rps : c.rate_limit_api_key_rps ≡ d.rate_limit_api_key_rps
  pub key_burst : c.rate_limit_api_key_burst ≡ d.rate_limit_api_key_burst
  pub timeout : c.default_timeout_seconds ≡ d.default_timeout_seconds
  pub mode : c.permissions.mode ≡ d.permissions.mode
  pub allowed : c.permissions.allowed_tools ≡ d.permissions.allowed_tools
  pub denied : c.permissions.denied_tools ≡ d.permissions.denied_tools
  pub budget : c.token_budget_per_task ≡ d.token_budget_per_task
  pub learning : c.learning_enabled ≡ d.learning_enabled
  pub batch : c.training_batch_size ≡ d.training_batch_size

same_texts_sound : (xs ys : List String) → same_texts xs ys ≡ true → xs ≡ ys
unfolding same_texts
same_texts_sound [] [] e = refl
same_texts_sound [] (y ∷ ys) e = absurd (ground arith)
same_texts_sound (x ∷ xs) [] e = absurd (ground arith)
same_texts_sound (x ∷ xs) (y ∷ ys) e = ground (arith, same_texts_sound xs ys, eq_iff x y)

same_texts_refl : (xs : List String) → same_texts xs xs ≡ true
unfolding same_texts
same_texts_refl [] = refl
same_texts_refl (x ∷ xs) = ground (arith, same_texts_refl xs, str_eq_refl x)

same_bool_sound : (a b : Bool) → same_bool a b ≡ true → a ≡ b
same_bool_sound true b e = sym e
same_bool_sound false true e = absurd (ground arith)
same_bool_sound false false e = refl

-- A list of changes is empty only where the last field is the same and the others have none.
changed-empty :
    (fields : List String) (same : Bool) (name : String)
    → is_empty (fields ++ changed same name) ≡ true
    → (is_empty fields ≡ true) × (same ≡ true)
changed-empty [] true name e = (refl, refl)
changed-empty [] false name e = absurd (ground arith)
changed-empty (f ∷ fs) same name e = absurd (ground arith)

diff-empty : (c d : ReloadableConfig) → is_empty (diff c d) ≡ true → Agrees c d
unfolding diff
diff-empty c d e =
    let (e1, batch) = changed-empty _ _ "training_batch_size" e in
    let (e2, learning) = changed-empty _ _ "learning_enabled" e1 in
    let (e3, budget) = changed-empty _ _ "token_budget_per_task" e2 in
    let (e4, denied) = changed-empty _ _ "permissions.denied_tools" e3 in
    let (e5, allowed) = changed-empty _ _ "permissions.allowed_tools" e4 in
    let (e6, mode) = changed-empty _ _ "permissions.mode" e5 in
    let (e7, timeout) = changed-empty _ _ "default_timeout_seconds" e6 in
    let (e8, key_burst) = changed-empty _ _ "rate_limit_api_key_burst" e7 in
    let (e9, key_rps) = changed-empty _ _ "rate_limit_api_key_rps" e8 in
    let (e10, global_rps) = changed-empty _ _ "rate_limit_global_rps" e9 in
    let (e11, burst) = changed-empty _ _ "rate_limit_burst" e10 in
    let (e12, rps) = changed-empty _ _ "rate_limit_rps" e11 in
    let (e13, configs) = changed-empty _ _ "api_key_configs" e12 in
    let (e14, keys) = changed-empty [] _ "api_keys" e13 in
    record {
      keys = same_texts_sound c.api_keys d.api_keys keys;
      key_configs = (==_iff _ _).0 configs;
      rps = (==_iff _ _).0 rps;
      burst = (==_iff _ _).0 burst;
      global_rps = (==_iff _ _).0 global_rps;
      key_rps = (==_iff _ _).0 key_rps;
      key_burst = (==_iff _ _).0 key_burst;
      timeout = (==_iff _ _).0 timeout;
      mode = (eq_iff c.permissions.mode d.permissions.mode).0 mode;
      allowed = same_texts_sound c.permissions.allowed_tools d.permissions.allowed_tools allowed;
      denied = same_texts_sound c.permissions.denied_tools d.permissions.denied_tools denied;
      budget = (==_iff _ _).0 budget;
      learning = same_bool_sound c.learning_enabled d.learning_enabled learning;
      batch = (==_iff _ _).0 batch;
    }

-- As many keys with roles agree.
Agrees-of_many :
    (c : ReloadableConfig) (configs : List ApiKeyConfig)
    → length c.api_key_configs ≡ length configs
    → Agrees c (record c { api_key_configs = configs })
Agrees-of_many c configs as_many = record {
  keys = refl;
  key_configs = as_many;
  rps = refl;
  burst = refl;
  global_rps = refl;
  key_rps = refl;
  key_burst = refl;
  timeout = refl;
  mode = refl;
  allowed = refl;
  denied = refl;
  budget = refl;
  learning = refl;
  batch = refl;
}

Agrees-refl : (c : ReloadableConfig) → Agrees c c
Agrees-refl c = Agrees-of_many c c.api_key_configs refl

same_texts_of : (xs ys : List String) → xs ≡ ys → same_texts xs ys ≡ true
same_texts_of xs ys p = subst (λ zs. same_texts xs zs ≡ true) p (same_texts_refl xs)

str_eq_of : (s t : String) → s ≡ t → str_eq s t ≡ true
str_eq_of s t p = (eq_iff s t).1 p

same_bool_of : (a b : Bool) → a ≡ b → same_bool a b ≡ true
same_bool_of true b p = sym p
same_bool_of false true p = absurd (cc p)
same_bool_of false false p = refl

diff-Agrees : (c d : ReloadableConfig) → Agrees c d → diff c d ≡ []
unfolding diff
diff-Agrees c d a =
    rw
      (
        same_texts_of c.api_keys d.api_keys a.keys,
        (==_iff _ _).1 a.key_configs,
        (==_iff _ _).1 a.rps,
        (==_iff _ _).1 a.burst,
        (==_iff _ _).1 a.global_rps,
        (==_iff _ _).1 a.key_rps,
        (==_iff _ _).1 a.key_burst,
        (==_iff _ _).1 a.timeout,
        str_eq_of c.permissions.mode d.permissions.mode a.mode,
        same_texts_of c.permissions.allowed_tools d.permissions.allowed_tools a.allowed,
        same_texts_of c.permissions.denied_tools d.permissions.denied_tools a.denied,
        (==_iff _ _).1 a.budget,
        same_bool_of c.learning_enabled d.learning_enabled a.learning,
        (==_iff _ _).1 a.batch,
      )
      refl

-- A reload of a configuration that could be loaded succeeds, and afterwards every field that is
-- compared is that of the loaded configuration; of the keys with roles only their number is compared.
pub reload_config-Agrees :
    (loaded : Config) (current : ReloadableConfig)
    → let (after, success, fields) = reload_config (some loaded) current in
      (success ≡ true) × Agrees after (to_reloadable loaded)
unfolding reload_config
reload_config-Agrees loaded current =
    let fresh = to_reloadable loaded in
    if-elim (λ (r : ReloadableConfig × Bool × List String). (r.1 ≡ true) × Agrees r.0 fresh)
      (is_empty (diff current fresh)) (λ e. (refl, diff-empty current fresh e))
      (λ _. (refl, Agrees-refl fresh))

-- Other keys with roles, as many as before, are not noticed: a reload of a configuration that differs
-- from the current one in nothing else reports success and leaves the old keys.
pub reload_config-unnoticed :
    (loaded : Config) (current : ReloadableConfig) (configs : List ApiKeyConfig)
    → to_reloadable loaded ≡ record current { api_key_configs = configs }
    → length current.api_key_configs ≡ length configs
    → reload_config (some loaded) current ≡ (current, true, [])
unfolding reload_config
reload_config-unnoticed loaded current configs other as_many =
    let fresh = record current { api_key_configs = configs } in
    rw
      (ap (diff current) other ∙ diff-Agrees current fresh (Agrees-of_many current configs as_many))
      refl
