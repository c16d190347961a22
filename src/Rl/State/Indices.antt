-- ===== src/Rl/State/Indices.antt =====
-- The numbering of actions, and the length of a feature vector (crates/cca-rl/src/state.rs).
use cca.Common.{ℕ, ◌+◌, ◌*◌, ◌<◌, ◌≡◌, List, [], ◌∷◌, ◌++◌, some, F64, arith, length, length-append}
use cca.Core.Role.{AgentRole, coordinator}
use cca.Rl.State.{
  State, AgentState, Action, route_to_agent, allocate_tokens, agent_features, dimension, role_index,
  to_index, from_index, action_space_size,
}

role_index-lt : (r : AgentRole) → role_index r < 8
unfolding role_index
role_index-lt coordinator = omega arith
role_index-lt _ = omega arith

module _ {F : Type 0} where
  -- Every action has a place in the table of values.
  pub to_index-lt : (a : Action F) → to_index a < action_space_size
  unfolding to_index
  to_index-lt (route_to_agent r) = omega (arith, role_index-lt r)
  to_index-lt (allocate_tokens x) = omega arith
  to_index-lt _ = omega arith

  -- An index that is read as an action is below 7, and it is the index of that action.
  pub to_index-from_index :
      (i : ℕ) (a : Action F) → from_index i ≡ some a → (to_index a ≡ i) × (i < 7)
  unfolding from_index to_index
  to_index-from_index i a h = (ground arith, ground arith)

module _ {F : Type 0} (fl : F64 F) where
  length-agent_features :
      (as' : List (AgentState F)) → length (agent_features fl as') ≡ 3 * length as'
  unfolding agent_features
  length-agent_features [] = omega arith
  length-agent_features (a ∷ rest) = omega (arith, length-agent_features rest)

  -- The dimension of a state is that of its own features, three for each agent, two, and its history.
  pub dimension_lem :
      (s : State F)
      → dimension fl s
        ≡ length s.features + 3 * length s.available_agents + 2 + length s.success_history
  unfolding dimension
  dimension_lem s = omega (
    arith,
    length-append s.features (
        agent_features fl s.available_agents ++ (s.token_usage ∷ s.complexity ∷ s.success_history)),
    length-append (agent_features fl s.available_agents)
        (s.token_usage ∷ s.complexity ∷ s.success_history),
    length-agent_features s.available_agents,
  )
