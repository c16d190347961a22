-- ===== src/Agents.antt =====
-- `AgentManager` of crates/cca-daemon/src/agent_manager.rs: the table of agents with their tasks and
-- logs, and the calls that change it. The processes and terminals are left out: a session is there or
-- not. Texts of tasks and logs are lists of code points.
pub mod Manager
pub mod Calls
pub mod History
pub mod Refinement
use cca.Common.{
  ℕ, zero, suc, ◌+◌, ◌-◌, ◌≤◌, ◌≡◌, Bool, true, false, not, List, [], ◌∷◌, ◌++◌, map, Option, none,
  some, String, codes, ℕ_discrete, if◌then◌else◌, ltb, leb, ◌==◌, length, take, drop,
}
use cca.Common.Map
use cca.Common.Map.{Map}
use cca.Core.Role.{AgentRole}
use cca.Tokens.{Text}
use cca.Tokens.Lines.{newline}

-- `AgentState` and `Agent` of crates/cca-core/src/agent.rs.
pub data AgentState : Type 0 where
  starting ready busy stopping stopped : AgentState
  error : String → AgentState

pub record Agent : Type 0 where
  pub id : ℕ
  pub role : AgentRole
  pub state : AgentState
  pub name : Option String
  pub context_hash : Option String
  pub pid : Option ℕ

-- `Agent::new`, with the fresh identifier.
unfoldable pub new_agent : ℕ → AgentRole → Agent
new_agent id role = record {
  id = id;
  role = role;
  state = starting;
  name = none;
  context_hash = none;
  pid = none;
}

pub data Level : Type 0 where
  info debug failure : Level
  other : String → Level

pub record LogEntry : Type 0 where
  pub timestamp : ℕ
  pub level : Level
  pub message : Text

pub record ManagedAgent : Type 0 where
  pub agent : Agent
  pub interactive_session : Bool
  pub current_task : Option Text
  pub logs : List LogEntry

pub record TaskConfig : Type 0 where
  pub role : AgentRole
  pub claude_path : String
  pub claude_md_path : String
  pub system_prompt : Option String

-- What the manager uses of its configuration; `claude_md_path` is the path of a role's file in the
-- data directory.
pub record ManagerConfig : Type 0 where
  pub max_agents : ℕ
  pub claude_path : String
  pub claude_md_path : AgentRole → String

pub record AgentManager : Type 0 where
  pub agents : Map ℕ ManagedAgent
  pub config : ManagerConfig

pub data ManagerError : Type 0 where
  maximum_reached not_found session_failed : ManagerError

pub data Outcome (A : Type 0) : Type 0 where
  ok : A → Outcome A
  err : ManagerError → Outcome A

abbrev pub max_log_entries : ℕ
max_log_entries = 100

-- `safe_truncate` and `safe_truncate_with_ellipsis` of crates/cca-core/src/util.rs.
unfoldable pub safe_truncate : Text → ℕ → Text
safe_truncate t max_chars = take max_chars t

unfoldable pub safe_truncate_with_ellipsis : Text → ℕ → Text
unfolding safe_truncate
safe_truncate_with_ellipsis t max_chars =
    if leb (length t) max_chars then t else safe_truncate t max_chars ++ codes "..."

-- `push`, and `remove(0)` where the list is then longer than the limit.
unfoldable pub push_log : LogEntry → List LogEntry → List LogEntry
push_log e logs =
    if ltb max_log_entries (length (logs ++ e ∷ []))
    then drop 1 (logs ++ e ∷ [])
    else logs ++ e ∷ []

-- `replace('\n', "\\n")`.
unfoldable pub escape_newlines : Text → Text
escape_newlines [] = []
escape_newlines (c ∷ cs) =
    let rest = escape_newlines cs in if c == newline then 92 ∷ b'n' ∷ rest else c ∷ rest

unfoldable pub log : LogEntry → ManagedAgent → ManagedAgent
unfolding push_log
log e m = record m { logs = push_log e m.logs }

abbrev pub log_all : List LogEntry → ManagedAgent → ManagedAgent
log_all [] m = m
log_all (e ∷ es) m = log_all es (log e m)

-- The entries that a task leaves when it starts and when it ends; `decimal` prints a number, and the
-- size of an output is in bytes.
unfoldable pub start_entry : ℕ → Text → LogEntry
unfolding safe_truncate_with_ellipsis
start_entry now task = record {
  timestamp = now;
  level = info;
  message = codes "Starting task: " ++ safe_truncate_with_ellipsis task 100;
}

abbrev pub unwrap_error : Option Text → Text
unwrap_error none = codes "unknown error"
unwrap_error (some t) = t

unfoldable pub result_entries : (Text → Text) → ℕ → Bool → Text → Option Text → List LogEntry
unfolding safe_truncate_with_ellipsis escape_newlines
result_entries size now true output reason =
    record {
      timestamp = now;
      level = info;
      message = codes "Task completed successfully (" ++ size output ++ codes " bytes)";
    }
    ∷ record {
      timestamp = now;
      level = debug;
      message = codes "Output: " ++ escape_newlines (safe_truncate_with_ellipsis output 200);
    }
    ∷ []
result_entries size now false output reason =
    record {
      timestamp = now;
      level = failure;
      message = codes "Task failed: " ++ unwrap_error reason;
    }
    ∷ []
