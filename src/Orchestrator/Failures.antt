-- ===== src/Orchestrator/Failures.antt =====
-- The failures that the orchestrator reports or swallows (crates/cca-daemon/src/orchestrator.rs).
use cca.Common.{
  ℕ, ◌≡◌, refl, sym, ap, ◌∙◌, Bool, true, false, List, [], ◌∷◌, Option, none, some, String, F64,
  Result, ok, err, panic, arith, ℕ_discrete, subst, Bool-cases, Option-cases, inl, inr,
}
use cca.Common.Map
use cca.Common.Map.{Map}
use cca.Core.Task.{Task, TaskResult}
use cca.Core.Task
use cca.Acp.Env.{Env}
use cca.Rl.Engine.{Draws}
use cca.Rl.Service.{RlService}
use cca.Orchestrator.{Orchestrator, Services, Error, no_available_agent}
use cca.Orchestrator.Selection.{
  candidates, find_best_agent, find_best_agent_heuristic, find_best_agent_rl, predict_among,
  sort_by_load, or_unavailable, first_id,
}
use cca.Orchestrator.Routing.{route_to, route_task_auto}
use cca.Orchestrator.Delegation.{
  fresh_aggregation, after_routing, route_all, expect_results, delegate_to_specialists,
}
use cca.Orchestrator.Outcomes.{credit, forget_start, finish_task}
use cca.Orchestrator.Results.{process_result, or_panic, settle, then_aggregate}
use cca.Orchestrator.Tables.{tables, publish_result-tables}
use cca.Orchestrator.Workloads.{learn-tables, agent_of}

module _ {C F : Type 0} (sv : Services) (fl : F64 F) (uuid_text : ℕ → String) where
  unfinished :
      (now : ℕ) (result : TaskResult) (e : Error) (r : Orchestrator C F × Option Error)
      → (then_aggregate sv fl uuid_text now result r).1 ≡ err e
      → (then_aggregate sv fl uuid_text now result r).0.pending_aggregations
        ≡ r.0.pending_aggregations
  unfolding then_aggregate
  unfinished now result e (o, none) h = absurd (ground arith)
  unfinished now result e (o, some e') h = refl

  unsettled :
      (now duration_ms : ℕ) (result : TaskResult) (e : Error) (before : Orchestrator C F)
      (r : Result Error (Orchestrator C F))
      → ((o : Orchestrator C F) → r ≡ ok o → tables o ≡ tables before)
      → (or_panic sv fl uuid_text now duration_ms result before r).1 ≡ err e
      → (or_panic sv fl uuid_text now duration_ms result before r).0.pending_aggregations
        ≡ before.pending_aggregations
  unfolding or_panic settle finish_task
  unsettled now duration_ms result e before (ok o) k h =
      unfinished now result e _ h
      ∙ ap (λ t. t.2) (publish_result-tables sv fl duration_ms result (finish_task now result o))
      ∙ ap (λ t. t.2) (k o refl)
  unsettled now duration_ms result e before (err x) k h = refl
  unsettled now duration_ms result e before panic k h = refl

  credit-pending :
      (success : Bool) (duration_ms : ℕ) (agent : Option ℕ) (o : Orchestrator C F)
      → (credit fl success duration_ms agent o).pending_aggregations ≡ o.pending_aggregations
  unfolding credit
  credit-pending success duration_ms none o = refl
  credit-pending success duration_ms (some a) o = refl

  -- Where `process_result` reports an error, the pending aggregations are as they were before the
  -- call.
  pub process_result-unpublished :
      (now : ℕ) (d : Draws F) (result : TaskResult) (e : Error) (o : Orchestrator C F)
      → (process_result sv fl uuid_text now d result o).1 ≡ err e
      → (process_result sv fl uuid_text now d result o).0.pending_aggregations
        ≡ o.pending_aggregations
  unfolding process_result forget_start
  process_result-unpublished now d result e o h =
      unsettled now _ result e _ _
        (λ o' q. learn-tables sv fl d (agent_of sv fl uuid_text result o) _ _ result _ o' q) h
      ∙ credit-pending result.success _ (agent_of sv fl uuid_text result o)
          (forget_start result.task_id o)

module _ {C F : Type 0} (sv : Services) (env : Env C) (fl : F64 F) where
  nobody_least :
      (role : String) (o : Orchestrator C F)
      → o.agent_workloads ≡ []
      → find_best_agent_heuristic role o ≡ err (no_available_agent role)
  unfolding find_best_agent_heuristic candidates cca.Common.keep_if
  nobody_least role o h =
      ap (λ m. or_unavailable role (first_id (sort_by_load (candidates role (Map.values m))))) h

  nobody_predicted :
      (d : Draws F) (rl : RlService F) (role description : String) (o : Orchestrator C F)
      → o.agent_workloads ≡ []
      → find_best_agent_rl sv fl d rl role description o ≡ err (no_available_agent role)
  unfolding find_best_agent_rl predict_among candidates cca.Common.keep_if
  nobody_predicted d rl role description o h =
      ap (λ m. predict_among sv fl d rl role description o (candidates role (Map.values m))) h

  nobody :
      (d : Draws F) (role description : String) (o : Orchestrator C F)
      → o.agent_workloads ≡ []
      → find_best_agent sv fl d role description o ≡ err (no_available_agent role)
  unfolding find_best_agent
  nobody d role description o h = elim (Option-cases o.rl_service) [
    | inl e ↦ let k = nobody_least role o h in ground arith
    | inr (rl, e) ↦
        let k = nobody_least role o h in
        let q = nobody_predicted d rl role description o h in ground arith
  ]

  none_routed :
      (now parent_id : ℕ) (subtasks : List (Draws F × String × Task)) (o : Orchestrator C F)
      → o.agent_workloads ≡ []
      → route_all sv env fl now parent_id subtasks o ≡ (o, ok [])
  unfolding route_all route_task_auto route_to after_routing
  none_routed now parent_id [] o h = refl
  none_routed now parent_id ((d, role, task) ∷ rest) o h =
      let t = Task.with_parent parent_id task in
      let e : route_task_auto sv env fl now d t role o ≡ (o, err (no_available_agent role)) =
        ap (route_to sv env fl now t o) (nobody d role t.description o h) in
      ap (λ r. after_routing r (route_all sv env fl now parent_id rest r.0)) e
      ∙ ap (after_routing (o, err (no_available_agent role))) (none_routed now parent_id rest o h)

  -- With no agent registered, a delegation of any subtasks is reported as a success, the parent is
  -- stored, and its aggregation waits for no result at all.
  pub delegate_to_specialists-idle :
      (now : ℕ) (parent : Task) (subtasks : List (Draws F × String × Task)) (o : Orchestrator C F)
      → o.agent_workloads ≡ []
      → let (o', r) = delegate_to_specialists sv env fl now parent subtasks o in
        (r ≡ ok parent.id)
        × (Map.get ℕ_discrete parent.id o'.pending_aggregations
            ≡ some (fresh_aggregation parent.id []))
        × (Map.get ℕ_discrete parent.id o'.tasks ≡ some parent)
  unfolding delegate_to_specialists expect_results
  delegate_to_specialists-idle now parent subtasks o h =
      let o1 = record o { tasks = Map.insert ℕ_discrete parent.id parent o.tasks } in
      let e = ap (expect_results sv env fl parent.id) (none_routed now parent.id subtasks o1 h) in
      (
        ap (λ t. t.1) e,
        ap (λ t. Map.get ℕ_discrete parent.id t.0.pending_aggregations) e
            ∙ Map.get-insert_self ℕ_discrete parent.id _ o.pending_aggregations,
        ap (λ t. Map.get ℕ_discrete parent.id t.0.tasks) e
            ∙ Map.get-insert_self ℕ_discrete parent.id parent o.tasks,
      )
