-- ===== src/Orchestrator/Available.antt =====
-- Whichever way an agent is chosen for a task (crates/cca-daemon/src/orchestrator.rs), it is one of
-- the available ones.
use cca.Common.{
  ℕ, ◌≡◌, refl, sym, inl, inr, true, List, [], ◌∷◌, Option, none, some, String, F64, Result, ok,
  err, panic, arith, keep_if, keep_if-Has, subst, Has, Has-keep_if, Bool-cases, Option-cases,
}
use cca.Common.Map
use cca.Core.Role.{AgentRole}
use cca.Rl.State.{Action, route_to_agent, allocate_tokens, use_pattern, compress_context, composite}
use cca.Rl.Engine.{Draws}
use cca.Rl.Service.{RlService}
use cca.Rl.Service
use cca.Orchestrator.{AgentWorkload, Orchestrator, Services}
use cca.Orchestrator.LeastBusy.{Has-min_by_load, find_best_agent_heuristic-least}
use cca.Orchestrator.Selection.{
  is_available, candidates, min_by_load, find_best_agent_heuristic, has_role, best_with_role,
  best_with, select_agent, find_best_agent_rl, find_best_agent, primary_role, or_heuristic,
  by_action, state_of, predict_among,
}

module _ {F : Type 0} where
  -- One of the workloads is that of this agent.
  abbrev pub Names : ℕ → List (AgentWorkload F) → Type 0
  Names a ws = (w : AgentWorkload F) × Has w ws × (w.agent_id ≡ a)

module _ {F : Type 0} (sv : Services) (fl : F64 F) where
  best_with_role-Names :
      (role : AgentRole) (a : ℕ) (ws : List (AgentWorkload F))
      → best_with_role sv fl role ws ≡ some a
      → Names a ws
  unfolding best_with_role
  best_with_role-Names role a ws h =
      let kept = keep_if (has_role sv fl role) ws in
      elim (Option-cases (min_by_load kept)) [
        | inl e ↦ absurd (ground arith)
        | inr (w, e) ↦ (w, (Has-keep_if _ w ws (Has-min_by_load w kept e)).0, ground arith)
      ]

  best_with-Names :
      (role : Option AgentRole) (a : ℕ) (ws : List (AgentWorkload F))
      → best_with sv fl role ws ≡ some a
      → Names a ws
  best_with-Names none a ws h = absurd (ground arith)
  best_with-Names (some role) a ws h = best_with_role-Names role a ws h

  select_agent-Names :
      (action : Action F) (a : ℕ) (ws : List (AgentWorkload F))
      → select_agent sv fl action ws ≡ some a
      → Names a ws
  unfolding select_agent
  select_agent-Names (route_to_agent role) a ws h = best_with_role-Names role a ws h
  select_agent-Names (composite actions) a ws h =
      best_with-Names (primary_role sv fl actions) a ws h
  select_agent-Names (allocate_tokens x) a ws h = absurd (ground arith)
  select_agent-Names (use_pattern name) a ws h = absurd (ground arith)
  select_agent-Names (compress_context x) a ws h = absurd (ground arith)

module _ {C F : Type 0} where
  heuristic-Names :
      (role : String) (o : Orchestrator C F) (a : ℕ)
      → find_best_agent_heuristic role o ≡ ok a
      → Names a (candidates role (Map.values o.agent_workloads))
  unfolding candidates
  heuristic-Names role o a h = elim (find_best_agent_heuristic-least role o) [
    | inl (w, m, t, l, e) ↦
        (w, keep_if-Has (is_available role) w (Map.values o.agent_workloads) m t, ground arith)
    | inr (n, e) ↦ absurd (ground arith)
  ]

module _ {C F : Type 0} (sv : Services) (fl : F64 F) where
  or_heuristic-Names :
      (role : String) (o : Orchestrator C F) (choice : Option ℕ) (a : ℕ)
      → ((b : ℕ) → choice ≡ some b → Names b (candidates role (Map.values o.agent_workloads)))
      → or_heuristic sv fl role o choice ≡ ok a
      → Names a (candidates role (Map.values o.agent_workloads))
  or_heuristic-Names role o none a k h = heuristic-Names role o a h
  or_heuristic-Names role o (some b) a k h = k a (ground arith)

  by_action-Names :
      (role : String) (o : Orchestrator C F) (cs : List (AgentWorkload F))
      (r : Result String (Action F)) (a : ℕ)
      → candidates role (Map.values o.agent_workloads) ≡ cs
      → by_action sv fl role o cs r ≡ ok a
      → Names a (candidates role (Map.values o.agent_workloads))
  by_action-Names role o cs (ok action) a q h =
      or_heuristic-Names role o (select_agent sv fl action cs) a
        (λ b e. subst (Names b) (sym q) (select_agent-Names sv fl action b cs e)) h
  by_action-Names role o cs (err m) a q h = absurd (ground arith)
  by_action-Names role o cs panic a q h = absurd (ground arith)

  predict_among-Names :
      (d : Draws F) (rl : RlService F) (role description : String) (o : Orchestrator C F)
      (cs : List (AgentWorkload F)) (a : ℕ)
      → candidates role (Map.values o.agent_workloads) ≡ cs
      → predict_among sv fl d rl role description o cs ≡ ok a
      → Names a (candidates role (Map.values o.agent_workloads))
  unfolding predict_among
  predict_among-Names d rl role description o [] a q h = absurd (ground arith)
  predict_among-Names d rl role description o (w ∷ ws) a q h =
      by_action-Names role o (w ∷ ws)
        (Service.predict fl d (state_of sv fl description (w ∷ ws)) rl) a q h

  by_service :
      (d : Draws F) (service : Option (RlService F)) (role description : String)
      (o : Orchestrator C F) (a : ℕ)
      → o.rl_service ≡ service
      → find_best_agent sv fl d role description o ≡ ok a
      → Names a (candidates role (Map.values o.agent_workloads))
  unfolding find_best_agent find_best_agent_rl
  by_service d none role description o a q h = heuristic-Names role o a (ground arith)
  by_service d (some rl) role description o a q h = elim (Bool-cases o.use_rl_routing) [
    | inl t ↦ predict_among-Names d rl role description o _ a refl (ground arith)
    | inr f ↦ heuristic-Names role o a (ground arith)
  ]

  -- The agent that `route_task_auto` picks, by prediction or by the heuristic, is one of those that
  -- have the role asked for and room for one more task.
  pub find_best_agent-available :
      (d : Draws F) (role description : String) (o : Orchestrator C F) (a : ℕ)
      → find_best_agent sv fl d role description o ≡ ok a
      → (w : AgentWorkload F) × Has w (Map.values o.agent_workloads)
        × (is_available role w ≡ true)
        × (w.agent_id ≡ a)
  unfolding candidates
  find_best_agent-available d role description o a h =
      let (w, m, e) = by_service d o.rl_service role description o a refl h in
      let k = Has-keep_if (is_available role) w (Map.values o.agent_workloads) m in (w, k.0, k.1, e)
