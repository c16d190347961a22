-- ===== src/Daemon/Delegations.antt =====
-- `find_available_agent_excluding` and `execute_delegations` of crates/cca-daemon/src/daemon.rs.
pub mod Execution
pub mod Assignment
pub mod Completion
use cca.Common.{
  ℕ, zero, suc, ◌+◌, ◌%◌, Bool, true, false, not, ◌&&◌, ◌||◌, List, [], ◌∷◌, ◌++◌, Option, none,
  some, String, str_eq, ℕ_discrete, F64, if◌then◌else◌, ltb, leb, ◌==◌, u32_mod, any, find, map,
}
use cca.Common.Map
use cca.Common.Map.{Map}
use cca.Acp.Server.{AcpServer, agents_with_roles}
use cca.Orchestrator.{Orchestrator}
use cca.Orchestrator.Routing.{register_agent}
use cca.Tokens.{TokenMetrics, record_usage}

-- The error texts are formatted from these.
pub data DelegationError : Type 0 where
  unknown_role all_busy not_connected spawn_failed no_tmux : String → DelegationError
  task_failed : String → DelegationError

pub record CoordinatorDelegation : Type 0 where
  pub role : String
  pub task : String
  pub context : Option String

pub record DelegateTaskResponse : Type 0 where
  pub success : Bool
  -- `none` where no agent was found, and the text is empty.
  pub agent_id : Option ℕ
  pub role : String
  pub output : Option String
  pub error : Option DelegationError
  pub duration_ms : ℕ
  pub tokens_used : ℕ

-- The parts of `DaemonState` that these functions use. `agent_states` are the updates that went to
-- Redis, `registered` and `patterns` what went to PostgreSQL, the last ones first.
pub record DaemonState (C F : Type 0) : Type 0 where
  pub acp_server : AcpServer C
  pub orchestrator : Orchestrator C F
  pub busy_agents : Map ℕ String
  pub redis : Bool
  pub postgres : Bool
  pub agent_states : List (ℕ × String × String)
  pub registered : List (ℕ × String)
  pub patterns : List (ℕ × String × String × String × ℕ)
  pub metrics : TokenMetrics F

-- What a delegation meets while it is prepared: whether tmux is there, how many agents of the role it
-- runs, whether it spawns one, and what other tasks do to the state before each look at it.
pub record Turn (C F : Type 0) : Type 0 where
  pub tmux_available : Bool
  pub existing : ℕ
  pub spawns : Bool
  pub meanwhile : ℕ → DaemonState C F → DaemonState C F

-- What `send_task` answers: an output with its tokens, or the text of an error.
pub data Answer : Type 0 where
  done : String → ℕ → Answer
  failed : String → Answer

-- The agent of a delegation, or why it has none.
pub data Acquired : Type 0 where
  agent : ℕ → Acquired
  refused : DelegationError → Acquired

-- `Vec::contains`.
unfoldable pub contains_id : ℕ → List ℕ → Bool
unfolding any
contains_id a = any (λ b. a == b)

abbrev is_none : Option String → Bool
is_none none = true
is_none (some s) = false

-- `contains_key`.
unfoldable pub is_busy : ℕ → Map ℕ String → Bool
is_busy a busy = not (is_none (Map.get ℕ_discrete a busy))

unfoldable pub is_free :
    (String → String) → String → List ℕ → Map ℕ String → ℕ × Option String → Bool
unfolding is_busy contains_id
is_free to_lowercase role exclude busy (a, none) = false
is_free to_lowercase role exclude busy (a, some r) =
    str_eq (to_lowercase r) (to_lowercase role)
    && not (is_busy a busy)
    && not (contains_id a exclude)

abbrev pub or_empty : Option String → String
or_empty none = ""
or_empty (some r) = r

unfoldable pub is_valid_role : (String → String) → String → Bool
is_valid_role to_lowercase role =
    any (str_eq (to_lowercase role))
      ("frontend" ∷ "backend" ∷ "dba" ∷ "devops" ∷ "security" ∷ "qa" ∷ [])

abbrev pub refusal : String → DelegationError → DelegateTaskResponse
refusal role e = record {
  success = false;
  agent_id = none;
  role = role;
  output = none;
  error = some e;
  duration_ms = 0;
  tokens_used = 0;
}

-- Phase 2: busy marks.
unfoldable pub mark_busy : List (CoordinatorDelegation × ℕ) → Map ℕ String → Map ℕ String
mark_busy [] busy = busy
mark_busy ((d, a) ∷ prepared) busy = mark_busy prepared (Map.insert ℕ_discrete a d.task busy)

-- The agents that are assigned after an outcome, and the outcome in front of those behind it.
abbrev pub with_assigned : Acquired → List ℕ → List ℕ
with_assigned (agent a) already_assigned = already_assigned ++ a ∷ []
with_assigned (refused e) already_assigned = already_assigned

module _ {C F : Type 0} where
  -- An attempt, or where it found nothing what comes later.
  abbrev pub first_found :
      DaemonState C F × Option ℕ → DaemonState C F × Option ℕ → DaemonState C F × Option ℕ
  first_found (s, some a) later = (s, some a)
  first_found (s, none) later = later

  abbrev pub add_outcome :
      CoordinatorDelegation
      → Acquired
      → DaemonState C F × List (CoordinatorDelegation × ℕ) × List DelegateTaskResponse
      → DaemonState C F × List (CoordinatorDelegation × ℕ) × List DelegateTaskResponse
  add_outcome d (agent a) (s, prepared, errors) = (s, (d, a) ∷ prepared, errors)
  add_outcome d (refused e) (s, prepared, errors) = (s, prepared, refusal d.role e ∷ errors)

  -- Without an agent for any delegation the call ends before the second phase.
  abbrev pub batch_result :
      DaemonState C F × List (CoordinatorDelegation × ℕ) × List DelegateTaskResponse
      → DaemonState C F × List DelegateTaskResponse
      → DaemonState C F × List DelegateTaskResponse
  batch_result (s, [], errors) settled = (s, errors)
  batch_result (s, p ∷ ps, errors) settled = (settled.0, errors ++ settled.1)

  unfoldable pub update_agent_redis_state : ℕ → String → String → DaemonState C F → DaemonState C F
  update_agent_redis_state a role status s =
      if s.redis then record s { agent_states = (a, role, status) ∷ s.agent_states } else s

  unfoldable pub announce_busy :
      List (CoordinatorDelegation × ℕ) → DaemonState C F → DaemonState C F
  unfolding update_agent_redis_state
  announce_busy [] s = s
  announce_busy ((d, a) ∷ prepared) s =
      announce_busy prepared (update_agent_redis_state a d.role "busy" s)

  -- The agent is no longer busy, whatever it answered.
  unfoldable pub release : CoordinatorDelegation → ℕ → DaemonState C F → DaemonState C F
  unfolding update_agent_redis_state
  release d a s =
      update_agent_redis_state a d.role "idle"
        (record s { busy_agents = Map.remove ℕ_discrete a s.busy_agents })
