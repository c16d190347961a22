-- ===== src/Tests/Agency.antt =====
-- The tables of tasks and agents of the daemon, a batch of delegations, and configurations.
use cca.Common.{
  ℕ, ◌≤◌, ◌≡◌, refl, inl, inr, true, false, List, [], ◌∷◌, none, some, String, String_discrete,
  ℕ_discrete, eq_iff, if_pos, codes, length, max, Has,
}
use cca.Common.Map
use cca.Common.Map.{Map, Distinct}
use cca.Core.Role.{backend}
use cca.Tokens.{Text, new}
use cca.Daemon.{TaskState}
use cca.Daemon.Cleanup.{max_tasks, task_cleanup}
use cca.Daemon.Cleanup.Removal.{task_cleanup-unfinished}
use cca.Daemon.Cleanup.Bound.{others, task_cleanup-bound}
use cca.Daemon.Delegations.{
  CoordinatorDelegation, DaemonState, DelegateTaskResponse, Turn, Answer, done, is_valid_role,
  mark_busy, announce_busy, release, update_agent_redis_state,
}
use cca.Daemon.Delegations.Execution.{
  prepare, execute_delegations, find_available_agent_excluding, acquire, settle_all,
  store_task_as_pattern, track_tokens,
}
use cca.Daemon.Delegations.Assignment.{NoRepeat, ids, prepare-NoRepeat}
use cca.Daemon.Delegations.Completion.{execute_delegations-free}
use cca.Agents.{ManagerConfig}
use cca.Agents.Manager
use cca.Agents.Calls.{Call, spawned, stopped, prepared, IsBounded, run-new-IsBounded}
use cca.Agents.Calls
use cca.Agents.History.{Keeps, remember_all}
use cca.Agents.Refinement.{run-new-Keeps}
use cca.Config.{
  ApiKeyConfig, PermissionsConfig, ReloadableConfig, Config, to_reloadable, reload_config,
}
use cca.Config.Reload.{Agrees, reload_config-Agrees}
use cca.Tests.Fixtures.{fl, server, orchestrator}

abbrev task : String → ℕ → TaskState
task status at = record {
  task_id = "t";
  description = "task";
  status = status;
  priority = "normal";
  output = none;
  error = none;
  assigned_agent = none;
  created_at = 0;
  updated_at = at;
}

-- Two tasks that nothing has changed for long.
abbrev tasks : Map String TaskState
tasks = ("t2", task "in_progress" 5) ∷ ("t1", task "completed" 5) ∷ []

other_names : ¬ (◌≡◌ {A = String} "t1" "t2")
other_names e = absurd (cc ((eq_iff "t1" "t2").1 e))

tasks-Distinct : Distinct tasks
tasks-Distinct = (λ h. elim h [ inl e ↦ other_names e | inr h' ↦ h' ], ((λ h. h), tt))

there : Map.get String_discrete "t2" tasks ≡ some (task "in_progress" 5)
unfolding Map.get
there = if_pos (String_discrete "t2" "t2") refl _ _

task_cleanup-unfinished_example :
    Map.get String_discrete "t2" (task_cleanup 9000000 tasks) ≡ some (task "in_progress" 5)
task_cleanup-unfinished_example =
    task_cleanup-unfinished 9000000 tasks "t2" (task "in_progress" 5) tasks-Distinct there
      (inr refl)

task_cleanup-bound_example : length (task_cleanup 9000000 tasks) ≤ max max_tasks (others tasks)
task_cleanup-bound_example = task_cleanup-bound 9000000 tasks tasks-Distinct

abbrev same_case : String → String
same_case s = s

abbrev turn : Turn ℕ ℕ
turn = record { tmux_available = false; existing = 0; spawns = false; meanwhile = λ n s. s }

abbrev delegation : String → CoordinatorDelegation
delegation t = record { role = "backend"; task = t; context = none }

abbrev daemon : DaemonState ℕ ℕ
daemon = record {
  acp_server = record server {
    connections =
        Map.update ℕ_discrete 1 (λ c. record c { role = some "backend" }) server.connections;
  };
  orchestrator = orchestrator;
  busy_agents = [];
  redis = true;
  postgres = false;
  agent_states = [];
  registered = [];
  patterns = [];
  metrics = new fl;
}

-- Two delegations to the only agent of their role.
abbrev batch : List (Turn ℕ ℕ × CoordinatorDelegation)
batch = (turn, delegation "a") ∷ (turn, delegation "b") ∷ []

prepare-NoRepeat_example : NoRepeat (ids (prepare same_case fl batch [] daemon).1)
prepare-NoRepeat_example = prepare-NoRepeat same_case fl batch daemon

abbrev answers : CoordinatorDelegation → ℕ → Answer × ℕ
answers d a = (done "output" 0, 7)

abbrev unchanged : DaemonState ℕ ℕ → DaemonState ℕ ℕ
unchanged s = s

abbrev response : DelegateTaskResponse
response = record {
  success = true;
  agent_id = some 1;
  role = "backend";
  output = some "output";
  error = none;
  duration_ms = 7;
  tokens_used = 0;
}

response_given :
    Has response
      (execute_delegations same_case fl 3 answers unchanged ((turn, delegation "a") ∷ []) daemon).1
unfolding execute_delegations prepare acquire is_valid_role find_available_agent_excluding mark_busy
    announce_busy settle_all release store_task_as_pattern track_tokens update_agent_redis_state
    Map.update ℕ_discrete Map.get
response_given = inl refl

execute_delegations-free_example :
    Map.get ℕ_discrete 1
      (execute_delegations same_case fl 3 answers unchanged
        ((turn, delegation "a") ∷ [])
        daemon).0.busy_agents
    ≡ none
execute_delegations-free_example =
    execute_delegations-free same_case fl 3 answers unchanged ((turn, delegation "a") ∷ []) daemon
      response 1 response_given refl

abbrev limits : ManagerConfig
limits = record { max_agents = 1; claude_path = "claude"; claude_md_path = λ role. "CLAUDE.md" }

abbrev size : Text → Text
size t = codes "1"

abbrev calls : List Call
calls = spawned 1 backend ∷ spawned 2 backend ∷ prepared 3 1 (codes "task") ∷ stopped 2 ∷ []

run-new-IsBounded_example : IsBounded limits (Calls.run size calls (Manager.new limits))
run-new-IsBounded_example = run-new-IsBounded limits size calls

run-new-Keeps_example :
    Keeps (Calls.run size calls (Manager.new limits)).agents (remember_all 1 size calls [])
run-new-Keeps_example = run-new-Keeps limits size calls

abbrev permissions : PermissionsConfig
permissions = record {
  mode = "allowlist";
  allowed_tools = "Read" ∷ [];
  denied_tools = "Bash(sudo *)" ∷ [];
  working_dir = "";
  allow_network = false;
  role_overrides = [];
}

abbrev key_of : String → ApiKeyConfig
key_of key = record { key = key; allowed_roles = []; key_id = none }

abbrev with_key : String → Config
with_key key = record {
  daemon = record {
    api_keys = [];
    api_key_configs = key_of key ∷ [];
    require_auth = true;
    rate_limit_rps = 100;
    rate_limit_burst = 50;
    rate_limit_global_rps = 1000;
    rate_limit_api_key_rps = 200;
    rate_limit_api_key_burst = 100;
  };
  agents = record {
    default_timeout_seconds = 300;
    token_budget_per_task = 50000;
    permissions = permissions;
  };
  learning = record { enabled = true; training_batch_size = 32 };
}

abbrev current : ReloadableConfig
current = record {
  api_keys = "old" ∷ [];
  api_key_configs = [];
  rate_limit_rps = 10;
  rate_limit_burst = 50;
  rate_limit_global_rps = 1000;
  rate_limit_api_key_rps = 200;
  rate_limit_api_key_burst = 100;
  default_timeout_seconds = 300;
  permissions = permissions;
  token_budget_per_task = 50000;
  learning_enabled = true;
  training_batch_size = 32;
}

reload_config-Agrees_example :
    let (after, success, fields) = reload_config (some (with_key "new")) current in
    (success ≡ true) × Agrees after (to_reloadable (with_key "new"))
reload_config-Agrees_example = reload_config-Agrees (with_key "new") current
