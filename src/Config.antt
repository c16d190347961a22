-- ===== src/Config.antt =====
-- crates/cca-daemon/src/config.rs: the permissions of the agents' tools, with the arguments that
-- crates/cca-daemon/src/agent_manager.rs makes of them, and the configuration that can be reloaded.
pub mod Permissions
pub mod Reload
use cca.Common.{
  ℕ, Bool, true, false, not, ◌&&◌, List, [], ◌∷◌, ◌++◌, Option, none, some, String, str_eq,
  String_discrete, if◌then◌else◌, ◌==◌, length,
}
use cca.Common.Map
use cca.Common.Map.{Map}

pub record ApiKeyConfig : Type 0 where
  pub key : String
  pub allowed_roles : List String
  pub key_id : Option String

pub record RolePermissions : Type 0 where
  pub allowed_tools : List String
  pub denied_tools : List String
  pub mode : Option String

pub record PermissionsConfig : Type 0 where
  pub mode : String
  pub allowed_tools : List String
  pub denied_tools : List String
  pub working_dir : String
  pub allow_network : Bool
  pub role_overrides : Map String RolePermissions

abbrev pub is_empty : List String → Bool
is_empty [] = true
is_empty (x ∷ xs) = false

abbrev pub allowed_by : Option RolePermissions → List String → List String
allowed_by none tools = tools
allowed_by (some o) tools = if not (is_empty o.allowed_tools) then o.allowed_tools else tools

unfoldable pub get_allowed_tools : PermissionsConfig → String → List String
get_allowed_tools p role =
    allowed_by (Map.get String_discrete role p.role_overrides) p.allowed_tools

abbrev pub network_tools : List String
network_tools = "Bash(curl *)" ∷ "Bash(wget *)" ∷ "Bash(nc *)" ∷ "Bash(netcat *)" ∷ []

abbrev pub denied_by : Option RolePermissions → List String
denied_by none = []
denied_by (some o) = o.denied_tools

unfoldable pub get_denied_tools : PermissionsConfig → String → List String
get_denied_tools p role =
    p.denied_tools
    ++ (if not p.allow_network then network_tools else [])
    ++ denied_by (Map.get String_discrete role p.role_overrides)

abbrev pub mode_by : Option RolePermissions → String → String
mode_by none mode = mode
mode_by (some o) mode = elim o.mode [ none ↦ mode | some m ↦ m ]

unfoldable pub get_mode : PermissionsConfig → String → String
get_mode p role = mode_by (Map.get String_discrete role p.role_overrides) p.mode

-- An argument of a command: a text, or texts that `join` puts commas between.
pub data Argument : Type 0 where
  flag : String → Argument
  joined : List String → Argument

abbrev pub option_of : String → List String → List Argument
option_of name tools = if not (is_empty tools) then flag name ∷ joined tools ∷ [] else []

-- The arguments that `apply_permissions_to_command` adds.
unfoldable pub apply_permissions_to_command : PermissionsConfig → String → List Argument
unfolding get_mode get_denied_tools get_allowed_tools
apply_permissions_to_command p role =
    let mode = get_mode p role in
    let denied = get_denied_tools p role in
    if str_eq mode "dangerous"
    then flag "--dangerously-skip-permissions" ∷ []
    else if str_eq mode "sandbox"
    then (flag "--allowedTools" ∷ flag "Read,Glob,Grep" ∷ option_of "--disallowedTools" denied)
    else (option_of "--allowedTools" (get_allowed_tools p role)
        ++ option_of "--disallowedTools" denied)

-- The same for a terminal.
unfoldable pub apply_permissions_to_pty_command : PermissionsConfig → String → List Argument
unfolding get_mode get_denied_tools get_allowed_tools
apply_permissions_to_pty_command p role =
    let mode = get_mode p role in
    let denied = get_denied_tools p role in
    if str_eq mode "dangerous"
    then flag "--dangerously-skip-permissions" ∷ []
    else if str_eq mode "sandbox"
    then (flag "--allowedTools" ∷ flag "Read,Glob,Grep" ∷ option_of "--disallowedTools" denied)
    else (option_of "--allowedTools" (get_allowed_tools p role)
        ++ option_of "--disallowedTools" denied)

pub record ReloadableConfig : Type 0 where
  pub api_keys : List String
  pub api_key_configs : List ApiKeyConfig
  pub rate_limit_rps : ℕ
  pub rate_limit_burst : ℕ
  pub rate_limit_global_rps : ℕ
  pub rate_limit_api_key_rps : ℕ
  pub rate_limit_api_key_burst : ℕ
  pub default_timeout_seconds : ℕ
  pub permissions : PermissionsConfig
  pub token_budget_per_task : ℕ
  pub learning_enabled : Bool
  pub training_batch_size : ℕ

-- The parts of `DaemonConfig`, `AgentsConfig` and `LearningConfig` that are reloaded.
pub record DaemonConfig : Type 0 where
  pub api_keys : List String
  pub api_key_configs : List ApiKeyConfig
  pub require_auth : Bool
  pub rate_limit_rps : ℕ
  pub rate_limit_burst : ℕ
  pub rate_limit_global_rps : ℕ
  pub rate_limit_api_key_rps : ℕ
  pub rate_limit_api_key_burst : ℕ

pub record AgentsConfig : Type 0 where
  pub default_timeout_seconds : ℕ
  pub token_budget_per_task : ℕ
  pub permissions : PermissionsConfig

pub record LearningConfig : Type 0 where
  pub enabled : Bool
  pub training_batch_size : ℕ

pub record Config : Type 0 where
  pub daemon : DaemonConfig
  pub agents : AgentsConfig
  pub learning : LearningConfig

-- `is_auth_required`: `dev` says whether the feature of development builds is on.
unfoldable pub is_auth_required : Bool → DaemonConfig → Bool
is_auth_required dev c = if dev then c.require_auth else true

unfoldable pub to_reloadable : Config → ReloadableConfig
to_reloadable c = record {
  api_keys = c.daemon.api_keys;
  api_key_configs = c.daemon.api_key_configs;
  rate_limit_rps = c.daemon.rate_limit_rps;
  rate_limit_burst = c.daemon.rate_limit_burst;
  rate_limit_global_rps = c.daemon.rate_limit_global_rps;
  rate_limit_api_key_rps = c.daemon.rate_limit_api_key_rps;
  rate_limit_api_key_burst = c.daemon.rate_limit_api_key_burst;
  default_timeout_seconds = c.agents.default_timeout_seconds;
  permissions = c.agents.permissions;
  token_budget_per_task = c.agents.token_budget_per_task;
  learning_enabled = c.learning.enabled;
  training_batch_size = c.learning.training_batch_size;
}

unfoldable pub same_texts : List String → List String → Bool
same_texts [] [] = true
same_texts [] (y ∷ ys) = false
same_texts (x ∷ xs) [] = false
same_texts (x ∷ xs) (y ∷ ys) = str_eq x y && same_texts xs ys

abbrev pub same_bool : Bool → Bool → Bool
same_bool true b = b
same_bool false b = not b

-- The name of a field where it changed.
abbrev pub changed : Bool → String → List String
changed same name = if not same then name ∷ [] else []

unfoldable pub diff : ReloadableConfig → ReloadableConfig → List String
unfolding same_texts
diff c d =
    changed (same_texts c.api_keys d.api_keys) "api_keys"
    ++ changed (length c.api_key_configs == length d.api_key_configs) "api_key_configs"
    ++ changed (c.rate_limit_rps == d.rate_limit_rps) "rate_limit_rps"
    ++ changed (c.rate_limit_burst == d.rate_limit_burst) "rate_limit_burst"
    ++ changed (c.rate_limit_global_rps == d.rate_limit_global_rps) "rate_limit_global_rps"
    ++ changed (c.rate_limit_api_key_rps == d.rate_limit_api_key_rps) "rate_limit_api_key_rps"
    ++ changed (c.rate_limit_api_key_burst == d.rate_limit_api_key_burst) "rate_limit_api_key_burst"
    ++ changed (c.default_timeout_seconds == d.default_timeout_seconds) "default_timeout_seconds"
    ++ changed (str_eq c.permissions.mode d.permissions.mode) "permissions.mode"
    ++ changed (same_texts c.permissions.allowed_tools d.permissions.allowed_tools)
        "permissions.allowed_tools"
    ++ changed (same_texts c.permissions.denied_tools d.permissions.denied_tools)
        "permissions.denied_tools"
    ++ changed (c.token_budget_per_task == d.token_budget_per_task) "token_budget_per_task"
    ++ changed (same_bool c.learning_enabled d.learning_enabled) "learning_enabled"
    ++ changed (c.training_batch_size == d.training_batch_size) "training_batch_size"

-- `reload_config` of crates/cca-daemon/src/daemon.rs, on what `Config::load` returns: the shared
-- configuration, whether it succeeded, and the changed fields. `sighup_handler` does the same to it.
unfoldable pub reload_config :
    Option Config → ReloadableConfig → ReloadableConfig × Bool × List String
unfolding to_reloadable diff
reload_config none current = (current, false, [])
reload_config (some loaded) current =
    let fresh = to_reloadable loaded in
    let fields = diff current fresh in
    if is_empty fields then (current, true, []) else (fresh, true, fields)
