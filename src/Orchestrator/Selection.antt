-- ===== src/Orchestrator/Selection.antt =====
-- Which agent gets a task (crates/cca-daemon/src/orchestrator.rs): `find_best_agent_heuristic` and
-- `find_best_agent_rl`.
use cca.Common.{
  ℕ, Bool, true, false, ◌&&◌, List, [], ◌∷◌, Option, none, some, String, F64, Result, ok, err,
  panic, if◌then◌else◌, ltb, leb, str_eq, keep_if, ite, String_discrete,
}
use cca.Common.Map
use cca.Core.Role.{AgentRole, from_str}
use cca.Rl.State.{
  State, Action, Actions, route_to_agent, allocate_tokens, use_pattern, compress_context, composite,
  nil, cons,
}
use cca.Rl.Engine.{Draws}
use cca.Rl.Service.{RlService, AgentInfo, StateBuilder, builder, add_agent, with_complexity, build}
use cca.Rl.Service
use cca.Orchestrator.{AgentWorkload, Orchestrator, Services, Error, no_available_agent}

pub AgentRole-discrete : Discrete AgentRole
AgentRole-discrete = hlevel String_discrete

abbrev pub or_unavailable : String → Option ℕ → Result Error ℕ
or_unavailable role none = err (no_available_agent role)
or_unavailable role (some a) = ok a

module _ {F : Type 0} where
  -- The role asked for, and room for one more task.
  unfoldable pub is_available : String → AgentWorkload F → Bool
  is_available role w = str_eq w.role role && ltb w.current_tasks w.max_tasks

  unfoldable pub candidates : String → List (AgentWorkload F) → List (AgentWorkload F)
  unfolding is_available
  candidates role = keep_if (is_available role)

  -- The stable sort of `sort_by_key`.
  unfoldable pub insert_by_load : AgentWorkload F → List (AgentWorkload F) → List (AgentWorkload F)
  insert_by_load w [] = w ∷ []
  insert_by_load w (x ∷ xs) =
      if leb w.current_tasks x.current_tasks then w ∷ x ∷ xs else x ∷ insert_by_load w xs

  unfoldable pub sort_by_load : List (AgentWorkload F) → List (AgentWorkload F)
  unfolding insert_by_load
  sort_by_load [] = []
  sort_by_load (w ∷ ws) = insert_by_load w (sort_by_load ws)

  abbrev pub first_id : List (AgentWorkload F) → Option ℕ
  first_id [] = none
  first_id (w ∷ ws) = some w.agent_id

  -- `min_by_key`: the first of the least.
  unfoldable pub min_by_load : List (AgentWorkload F) → Option (AgentWorkload F)
  min_by_load [] = none
  min_by_load (w ∷ ws) = elim (min_by_load ws) [
    | none ↦ some w
    | some v ↦ some (if leb w.current_tasks v.current_tasks then w else v)
  ]

  abbrev pub id_of : Option (AgentWorkload F) → Option ℕ
  id_of none = none
  id_of (some w) = some w.agent_id

module _ {C F : Type 0} where
  unfoldable pub find_best_agent_heuristic : String → Orchestrator C F → Result Error ℕ
  unfolding candidates sort_by_load
  find_best_agent_heuristic role o =
      or_unavailable role (first_id (sort_by_load (candidates role (Map.values o.agent_workloads))))

module _ {F : Type 0} (sv : Services) (fl : F64 F) where
  unfoldable pub has_role : AgentRole → AgentWorkload F → Bool
  has_role role w = ite (AgentRole-discrete (from_str sv.to_lowercase w.role) role) true false

  unfoldable pub best_with_role : AgentRole → List (AgentWorkload F) → Option ℕ
  unfolding has_role min_by_load
  best_with_role role ws = id_of (min_by_load (keep_if (has_role role) ws))

  -- The first `RouteToAgent` of a composite action.
  unfoldable pub primary_role : Actions F → Option AgentRole
  primary_role nil = none
  primary_role (cons (route_to_agent role) rest) = some role
  primary_role (cons (allocate_tokens x) rest) = primary_role rest
  primary_role (cons (use_pattern name) rest) = primary_role rest
  primary_role (cons (compress_context x) rest) = primary_role rest
  primary_role (cons (composite actions) rest) = primary_role rest

  abbrev pub best_with : Option AgentRole → List (AgentWorkload F) → Option ℕ
  best_with none ws = none
  best_with (some role) ws = best_with_role role ws

  unfoldable pub select_agent : Action F → List (AgentWorkload F) → Option ℕ
  unfolding best_with_role primary_role
  select_agent (route_to_agent role) ws = best_with_role role ws
  select_agent (composite actions) ws = best_with (primary_role actions) ws
  select_agent (allocate_tokens x) ws = none
  select_agent (use_pattern name) ws = none
  select_agent (compress_context x) ws = none

  -- The state for a prediction, with each of the workloads as an agent.
  unfoldable pub add_workloads : List (AgentWorkload F) → StateBuilder F → StateBuilder F
  unfolding add_agent
  add_workloads [] b = b
  add_workloads (w ∷ ws) b = add_workloads ws (
      add_agent
        (record {
          role = from_str sv.to_lowercase w.role;
          is_busy = ltb 0 w.current_tasks;
          success_rate = w.success_rate;
          avg_completion_time = w.avg_completion_time;
        })
        b)

  unfoldable pub state_of : String → List (AgentWorkload F) → State F
  unfolding add_workloads builder with_complexity build
  state_of description ws =
      build (add_workloads ws (with_complexity (fl.decimal 5 1) (builder fl description)))

module _ {C F : Type 0} (sv : Services) (fl : F64 F) where
  abbrev pub or_heuristic : String → Orchestrator C F → Option ℕ → Result Error ℕ
  or_heuristic role o none = find_best_agent_heuristic role o
  or_heuristic role o (some a) = ok a

  -- A panic of the prediction is one of this call.
  abbrev pub by_action :
      String → Orchestrator C F → List (AgentWorkload F) → Result String (Action F) → Result Error ℕ
  by_action role o ws (ok action) = or_heuristic role o (select_agent sv fl action ws)
  by_action role o ws (err message) = panic
  by_action role o ws panic = panic

  -- The choice among these candidates.
  unfoldable pub predict_among :
      Draws F
      → RlService F
      → String
      → String
      → Orchestrator C F
      → List (AgentWorkload F)
      → Result Error ℕ
  unfolding select_agent state_of find_best_agent_heuristic
  predict_among d rl role description o [] = err (no_available_agent role)
  predict_among d rl role description o (w ∷ ws) =
      by_action role o (w ∷ ws) (Service.predict fl d (state_of sv fl description (w ∷ ws)) rl)

  unfoldable pub find_best_agent_rl :
      Draws F → RlService F → String → String → Orchestrator C F → Result Error ℕ
  unfolding candidates predict_among
  find_best_agent_rl d rl role description o =
      predict_among d rl role description o (candidates role (Map.values o.agent_workloads))

  -- The choice of `route_task_auto`.
  unfoldable pub find_best_agent : Draws F → String → String → Orchestrator C F → Result Error ℕ
  unfolding find_best_agent_rl find_best_agent_heuristic
  find_best_agent d role description o = elim o.rl_service [
    | none ↦ find_best_agent_heuristic role o
    | some rl ↦
        if o.use_rl_routing
        then find_best_agent_rl d rl role description o
        else find_best_agent_heuristic role o
  ]
