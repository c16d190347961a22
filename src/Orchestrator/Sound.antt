-- ===== src/Orchestrator/Sound.antt =====
-- The load of the agents (crates/cca-daemon/src/orchestrator.rs): what routing, delegation and
-- results keep of the table of workloads.
use cca.Common.{
  ℕ, ◌≡◌, refl, sym, ap, Bool, true, List, [], ◌∷◌, Option, none, some, String, F64, Result, ok,
  err, panic, ℕ_discrete, arith, subst, Has,
}
use cca.Common.Map
use cca.Common.Map.{Map, Distinct, keys, values}
use cca.Core.Task.{Task, TaskResult}
use cca.Core.Task
use cca.Acp.Env.{Env}
use cca.Rl.Engine.{Draws}
use cca.Orchestrator.{AgentWorkload, Orchestrator, Services, Error}
use cca.Orchestrator.Selection.{is_available}
use cca.Orchestrator.Available.{find_best_agent-available}
use cca.Orchestrator.Routing.{one_more, note_task, assigned, route_task, route_to, route_task_auto}
use cca.Orchestrator.Delegation.{route_all, expect_results, delegate_to_specialists, after_routing}
use cca.Orchestrator.Outcomes.{credit}
use cca.Orchestrator.Tables.{deliver-tables}
use cca.Orchestrator.Capacity.{AllFit, one_more-AllFit, update-AllFit, after_result-Fits}

module _ {F : Type 0} where
  -- A table of workloads without a key twice, in which each entry fits its agent.
  abbrev pub IsWithin : Map ℕ (AgentWorkload F) → Type 0
  IsWithin m = AllFit m × Distinct m

  -- An available agent of the table takes one task more.
  one_more-IsWithin :
      (role : String) (a : ℕ) (m : Map ℕ (AgentWorkload F))
      → IsWithin m
      → (w : AgentWorkload F) × Has w (values m) × (is_available role w ≡ true) × (w.agent_id ≡ a)
      → IsWithin (Map.update ℕ_discrete a one_more m)
  unfolding is_available
  one_more-IsWithin role a m h (w, q, t, e) = (
    one_more-AllFit a w m h.0 h.1 q e (ground arith),
    Map.update-Distinct ℕ_discrete a one_more m h.1,
  )

module _ {C F : Type 0} (sv : Services) (env : Env C) (fl : F64 F) where
  pub route_task-workloads :
      (now agent_id : ℕ) (task : Task) (o : Orchestrator C F)
      → (route_task sv env now agent_id task o).0.agent_workloads
        ≡ Map.update ℕ_discrete agent_id one_more o.agent_workloads
  unfolding route_task note_task
  route_task-workloads now agent_id task o =
      ap (λ t. t.1)
        (deliver-tables sv env now agent_id (assigned now agent_id task)
          (note_task now agent_id (assigned now agent_id task) o))

  route_to-IsWithin :
      (now : ℕ) (task : Task) (role : String) (o : Orchestrator C F) (choice : Result Error ℕ)
      → ((a : ℕ)
          → choice ≡ ok a
          → (w : AgentWorkload F) × Has w (values o.agent_workloads)
            × (is_available role w ≡ true)
            × (w.agent_id ≡ a))
      → IsWithin o.agent_workloads
      → IsWithin (route_to sv env fl now task o choice).0.agent_workloads
  unfolding route_to
  route_to-IsWithin now task role o (ok a) k h =
      subst IsWithin (sym (route_task-workloads now a task o))
        (one_more-IsWithin role a o.agent_workloads h (k a refl))
  route_to-IsWithin now task role o (err e) k h = h
  route_to-IsWithin now task role o panic k h = h

  pub route_task_auto-IsWithin :
      (now : ℕ) (d : Draws F) (task : Task) (role : String) (o : Orchestrator C F)
      → IsWithin o.agent_workloads
      → IsWithin (route_task_auto sv env fl now d task role o).0.agent_workloads
  unfolding route_task_auto
  route_task_auto-IsWithin now d task role o h =
      route_to-IsWithin now task role o _
        (find_best_agent-available sv fl d role task.description o) h

  after_routing-IsWithin :
      (r : Orchestrator C F × Result Error ℕ) (rest : Orchestrator C F × Result Error (List ℕ))
      → IsWithin r.0.agent_workloads
      → IsWithin rest.0.agent_workloads
      → IsWithin (after_routing r rest).0.agent_workloads
  unfolding after_routing
  after_routing-IsWithin (o, ok id) (o', ids) h h' = h'
  after_routing-IsWithin (o, err e) (o', ids) h h' = h'
  after_routing-IsWithin (o, panic) (o', ids) h h' = h

  route_all-IsWithin :
      (now parent_id : ℕ) (subtasks : List (Draws F × String × Task)) (o : Orchestrator C F)
      → IsWithin o.agent_workloads
      → IsWithin (route_all sv env fl now parent_id subtasks o).0.agent_workloads
  unfolding route_all
  route_all-IsWithin now parent_id [] o h = h
  route_all-IsWithin now parent_id ((d, role, task) ∷ rest) o h =
      let t = Task.with_parent parent_id task in
      let h' = route_task_auto-IsWithin now d t role o h in
      after_routing-IsWithin _ _ h' (route_all-IsWithin now parent_id rest _ h')

  expect_results-workloads :
      (parent_id : ℕ) (r : Orchestrator C F × Result Error (List ℕ))
      → (expect_results sv env fl parent_id r).0.agent_workloads ≡ r.0.agent_workloads
  unfolding expect_results
  expect_results-workloads parent_id (o, ok ids) = refl
  expect_results-workloads parent_id (o, err e) = refl
  expect_results-workloads parent_id (o, panic) = refl

  pub delegate_to_specialists-IsWithin :
      (now : ℕ) (parent : Task) (subtasks : List (Draws F × String × Task)) (o : Orchestrator C F)
      → IsWithin o.agent_workloads
      → IsWithin (delegate_to_specialists sv env fl now parent subtasks o).0.agent_workloads
  unfolding delegate_to_specialists
  delegate_to_specialists-IsWithin now parent subtasks o h =
      subst IsWithin (sym (expect_results-workloads parent.id _))
        (route_all-IsWithin now parent.id subtasks _ h)

module _ {C F : Type 0} (fl : F64 F) where
  pub credit-IsWithin :
      (success : Bool) (duration_ms : ℕ) (agent : Option ℕ) (o : Orchestrator C F)
      → IsWithin o.agent_workloads
      → IsWithin (credit fl success duration_ms agent o).agent_workloads
  unfolding credit
  credit-IsWithin success duration_ms none o h = h
  credit-IsWithin success duration_ms (some a) o h = (
    update-AllFit a _ o.agent_workloads (after_result-Fits fl success duration_ms) h.0,
    Map.update-Distinct ℕ_discrete a _ o.agent_workloads h.1,
  )
