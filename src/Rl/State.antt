-- ===== src/Rl/State.antt =====
-- crates/cca-rl/src/state.rs: states, actions, and their numbering. Floats are the type `F`.
pub mod Indices
use cca.Common.{
  ℕ, ◌+◌, Bool, true, false, List, [], ◌∷◌, ◌++◌, Option, none, some, String, F64, ◌==◌,
  if◌then◌else◌, length,
}
use cca.Core.Role.{AgentRole, coordinator, frontend, backend, dba, devops, security, qa, custom}

pub record AgentState (F : Type 0) : Type 0 where
  pub role : AgentRole
  pub is_busy : Bool
  pub success_rate : F
  pub avg_completion_time : F

pub record State (F : Type 0) : Type 0 where
  pub task_type : String
  pub available_agents : List (AgentState F)
  pub token_usage : F
  pub success_history : List F
  pub complexity : F
  pub features : List F

-- `Composite` holds a vector of actions.
mutual
  pub data Action (F : Type 0) : Type 0 where
    route_to_agent : AgentRole → Action F
    allocate_tokens : F → Action F
    use_pattern : String → Action F
    compress_context : F → Action F
    composite : Actions F → Action F

  pub data Actions (F : Type 0) : Type 0 where
    nil : Actions F
    cons : Action F → Actions F → Actions F

module _ {F : Type 0} (fl : F64 F) where
  unfoldable pub agent_features : List (AgentState F) → List F
  agent_features [] = []
  agent_features (a ∷ rest) =
      (if a.is_busy then fl.decimal 1 0 else fl.decimal 0 0)
      ∷ a.success_rate
      ∷ fl.div a.avg_completion_time (fl.decimal 300 0)
      ∷ agent_features rest

  unfoldable pub to_features : State F → List F
  unfolding agent_features
  to_features s =
      s.features
      ++ (agent_features s.available_agents ++ (s.token_usage ∷ s.complexity ∷ s.success_history))

  unfoldable pub dimension : State F → ℕ
  unfolding to_features
  dimension s = length (to_features s)

unfoldable pub role_index : AgentRole → ℕ
role_index coordinator = 0
role_index frontend = 1
role_index backend = 2
role_index dba = 3
role_index devops = 4
role_index security = 5
role_index qa = 6
role_index (custom name) = 7

unfoldable pub to_index : {F : Type 0} → Action F → ℕ
unfolding role_index
to_index (route_to_agent role) = role_index role
to_index (allocate_tokens x) = 8
to_index (use_pattern name) = 9
to_index (compress_context x) = 10
to_index (composite actions) = 11

unfoldable pub from_index : {F : Type 0} → ℕ → Option (Action F)
from_index index =
    if index == 0
    then some (route_to_agent coordinator)
    else if index == 1
    then some (route_to_agent frontend)
    else if index == 2
    then some (route_to_agent backend)
    else if index == 3
    then some (route_to_agent dba)
    else if index == 4
    then some (route_to_agent devops)
    else if index == 5
    then some (route_to_agent security)
    else if index == 6
    then some (route_to_agent qa)
    else none

abbrev pub action_space_size : ℕ
action_space_size = 12
