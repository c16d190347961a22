-- ===== src/Agents/Manager.antt =====
-- The calls of `AgentManager` (crates/cca-daemon/src/agent_manager.rs).
use cca.Common.{
  ℕ, ◌-◌, Bool, true, false, List, [], ◌∷◌, Option, none, some, ℕ_discrete, if◌then◌else◌, ltb, leb,
  length, drop,
}
use cca.Common.Map
use cca.Common.Map.{Map}
use cca.Core.Role.{AgentRole}
use cca.Tokens.{Text}
use cca.Agents.{
  new_agent, Level, LogEntry, ManagedAgent, TaskConfig, ManagerConfig, AgentManager, Outcome,
  safe_truncate_with_ellipsis, log, log_all, start_entry, result_entries, ready, maximum_reached,
  not_found, session_failed, ok, err,
}

unfoldable pub new : ManagerConfig → AgentManager
new config = record { agents = []; config = config }

-- An agent without sessions and logs, ready at once.
unfoldable pub registered : ℕ → AgentRole → ManagedAgent
unfolding new_agent
registered id role = record {
  agent = record (new_agent id role) { state = ready };
  interactive_session = false;
  current_task = none;
  logs = [];
}

unfoldable pub spawn : ℕ → AgentRole → AgentManager → AgentManager × Outcome ℕ
unfolding registered
spawn id role m =
    if leb m.config.max_agents (length m.agents)
    then (m, err maximum_reached)
    else (record m { agents = Map.insert ℕ_discrete id (registered id role) m.agents }, ok id)

-- A change of an agent that has to be there.
abbrev pub change :
    ℕ
    → (ManagedAgent → ManagedAgent)
    → Option ManagedAgent
    → AgentManager
    → AgentManager × Outcome (Unit {0})
change id f none m = (m, err not_found)
change id f (some a) m = (record m { agents = Map.update ℕ_discrete id f m.agents }, ok tt)

-- `opened` says whether the terminal and its process could be started.
abbrev pub open_session : Bool → Bool → ℕ → AgentManager → AgentManager × Outcome (Unit {0})
open_session true opened id m = (m, ok tt)
open_session false false id m = (m, err session_failed)
open_session false true id m = (
  record m {
    agents = Map.update ℕ_discrete id (λ a. record a { interactive_session = true }) m.agents;
  },
  ok tt,
)

abbrev pub open_by :
    Option ManagedAgent → Bool → ℕ → AgentManager → AgentManager × Outcome (Unit {0})
open_by none opened id m = (m, err not_found)
open_by (some a) opened id m = open_session a.interactive_session opened id m

unfoldable pub start_interactive_session :
    Bool → ℕ → AgentManager → AgentManager × Outcome (Unit {0})
start_interactive_session opened id m = open_by (Map.get ℕ_discrete id m.agents) opened id m

unfoldable pub stop_interactive_session : ℕ → AgentManager → AgentManager × Outcome (Unit {0})
stop_interactive_session id m =
    change id (λ a. record a { interactive_session = false }) (Map.get ℕ_discrete id m.agents) m

-- The states that `stop` sets are of an agent that it then removes.
abbrev pub stop_by : Option ManagedAgent → ℕ → AgentManager → AgentManager × Outcome (Unit {0})
stop_by none id m = (m, err not_found)
stop_by (some a) id m = (record m { agents = Map.remove ℕ_discrete id m.agents }, ok tt)

unfoldable pub stop : ℕ → AgentManager → AgentManager × Outcome (Unit {0})
stop id m = stop_by (Map.get ℕ_discrete id m.agents) id m

unfoldable pub stop_ids : List ℕ → AgentManager → AgentManager
unfolding stop
stop_ids [] m = m
stop_ids (id ∷ ids) m = stop_ids ids (stop id m).0

unfoldable pub stop_all : AgentManager → AgentManager
unfolding stop_ids
stop_all m = stop_ids (Map.keys m.agents) m

abbrev pub prepare_by :
    Option ManagedAgent → ℕ → ℕ → Text → AgentManager → AgentManager × Outcome TaskConfig
prepare_by none now id message m = (m, err not_found)
prepare_by (some a) now id message m = (
  record m {
    agents =
        Map.update ℕ_discrete id
          (λ x.
            log (start_entry now message)
              (record x { current_task = some (safe_truncate_with_ellipsis message 100) }))
          m.agents;
  },
  ok (record {
    role = a.agent.role;
    claude_path = m.config.claude_path;
    claude_md_path = m.config.claude_md_path a.agent.role;
    system_prompt = none;
  }),
)

unfoldable pub prepare_task : ℕ → ℕ → Text → AgentManager → AgentManager × Outcome TaskConfig
unfolding log start_entry safe_truncate_with_ellipsis
prepare_task now id message m = prepare_by (Map.get ℕ_discrete id m.agents) now id message m

unfoldable pub record_task_result :
    (Text → Text) → ℕ → ℕ → Bool → Text → Option Text → AgentManager → AgentManager
unfolding log result_entries
record_task_result size now id success output reason m = record m {
  agents =
      Map.update ℕ_discrete id
        (λ a.
          log_all (result_entries size now success output reason)
            (record a { current_task = none }))
        m.agents;
}

unfoldable pub add_log : ℕ → ℕ → Level → Text → AgentManager → AgentManager
unfolding log
add_log now id level message m = record m {
  agents =
      Map.update ℕ_discrete id (log (record { timestamp = now; level = level; message = message }))
        m.agents;
}

unfoldable pub clear_current_task : ℕ → AgentManager → AgentManager
clear_current_task id m = record m {
  agents = Map.update ℕ_discrete id (λ a. record a { current_task = none }) m.agents;
}

abbrev pub logs_of : Option ManagedAgent → List LogEntry
logs_of none = []
logs_of (some a) = a.logs

-- The last entries, as many as are asked for.
unfoldable pub get_logs : ℕ → ℕ → AgentManager → List LogEntry
get_logs id limit m =
    let logs = logs_of (Map.get ℕ_discrete id m.agents) in
    if ltb limit (length logs) then drop (length logs - limit) logs else logs

unfoldable pub get_current_task : ℕ → AgentManager → Option Text
get_current_task id m = elim (Map.get ℕ_discrete id m.agents) [
  | none ↦ none
  | some a ↦ a.current_task
]
