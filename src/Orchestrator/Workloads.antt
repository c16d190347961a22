-- ===== src/Orchestrator/Workloads.antt =====
-- What a result changes in the table of workloads (crates/cca-daemon/src/orchestrator.rs): the entry
-- of the agent that had the task, whatever the services answer.
use cca.Common.{
  ℕ, ◌≡◌, refl, ap, ◌∙◌, Option, none, some, String, F64, Result, ok, err, panic, Option-cases,
  Bool-cases, inl, inr, arith, ℕ_discrete, leb, length,
}
use cca.Common.Map
use cca.Core.Task.{TaskResult}
use cca.Rl.Engine.{Draws}
use cca.Rl.Service.{RlService}
use cca.Orchestrator.{PendingAggregation, Orchestrator, Services, Error}
use cca.Orchestrator.Outcomes.{
  credit, forget_start, finish_task, assigned_agent, elapsed, parent_of,
}
use cca.Orchestrator.Aggregation.{
  try_aggregate_result, take_result, aggregate_results, with_result, keep_result, close_parent,
}
use cca.Orchestrator.Results.{
  process_result, or_panic, settle, then_aggregate, learn, learn_by, learnt, experience_of, kept_by,
}
use cca.Orchestrator.Tables.{tables, publish_result-tables}

module _ {C F : Type 0} (uuid_text : ℕ → String) where
  take_result-workloads :
      (now parent_id task_id : ℕ) (result : TaskResult) (agg : PendingAggregation)
      (o : Orchestrator C F)
      → (take_result uuid_text now parent_id task_id result agg o).0.agent_workloads
        ≡ o.agent_workloads
  unfolding take_result aggregate_results keep_result close_parent
  take_result-workloads now parent_id task_id result agg o =
      elim (Bool-cases (leb agg.required_count (length (with_result task_id result agg).results))) [
        | inl e ↦ rw (take_result, e) refl
        | inr e ↦ rw (take_result, e) refl
      ]

  try_aggregate_result-workloads :
      (now task_id : ℕ) (result : TaskResult) (o : Orchestrator C F)
      → (try_aggregate_result uuid_text now task_id result o).0.agent_workloads ≡ o.agent_workloads
  unfolding try_aggregate_result
  try_aggregate_result-workloads now task_id result o =
      elim (Option-cases (parent_of (Map.get ℕ_discrete task_id o.tasks))) [
        | inl e ↦ rw (try_aggregate_result, e) refl
        | inr (p, e) ↦ elim (Option-cases (Map.get ℕ_discrete p o.pending_aggregations)) [
          | inl n ↦ rw (try_aggregate_result, e, n) refl
          | inr (agg, s) ↦
              rw (try_aggregate_result, e, s) (take_result-workloads now p task_id result agg o)
        ]
      ]

module _ {C F : Type 0} (sv : Services) (fl : F64 F) (uuid_text : ℕ → String) where
  then_aggregate-workloads :
      (now : ℕ) (result : TaskResult) (r : Orchestrator C F × Option Error)
      → (then_aggregate sv fl uuid_text now result r).0.agent_workloads ≡ r.0.agent_workloads
  unfolding then_aggregate
  then_aggregate-workloads now result (o, none) =
      try_aggregate_result-workloads uuid_text now result.task_id result o
  then_aggregate-workloads now result (o, some e) = refl

  settle-workloads :
      (now duration_ms : ℕ) (result : TaskResult) (o : Orchestrator C F)
      → (settle sv fl uuid_text now duration_ms result o).0.agent_workloads ≡ o.agent_workloads
  unfolding settle finish_task
  settle-workloads now duration_ms result o =
      then_aggregate-workloads now result _
      ∙ ap (λ t. t.1) (publish_result-tables sv fl duration_ms result (finish_task now result o))

  or_panic-workloads :
      (now duration_ms : ℕ) (result : TaskResult) (before : Orchestrator C F)
      (r : Result Error (Orchestrator C F))
      → ((o : Orchestrator C F) → r ≡ ok o → o.agent_workloads ≡ before.agent_workloads)
      → (or_panic sv fl uuid_text now duration_ms result before r).0.agent_workloads
        ≡ before.agent_workloads
  unfolding or_panic
  or_panic-workloads now duration_ms result before (ok o) k =
      settle-workloads now duration_ms result o ∙ k o refl
  or_panic-workloads now duration_ms result before (err e) k = refl
  or_panic-workloads now duration_ms result before panic k = refl

module _ {C F : Type 0} (sv : Services) (fl : F64 F) where
  keep_learnt :
      (o : Orchestrator C F) (r : Result Error (RlService F)) (o' : Orchestrator C F)
      → kept_by o r ≡ ok o'
      → tables o' ≡ tables o
  unfolding kept_by
  keep_learnt o (ok rl) o' h = ground arith
  keep_learnt o (err e) o' h = absurd (ground arith)
  keep_learnt o panic o' h = absurd (ground arith)

  learn_by-tables :
      (service : Option (RlService F)) (d : Draws F) (a duration_ms : ℕ) (description : String)
      (result : TaskResult) (o o' : Orchestrator C F)
      → learn_by sv fl service d a duration_ms description result o ≡ ok o'
      → tables o' ≡ tables o
  unfolding learn_by
  learn_by-tables none d a duration_ms description result o o' h = ground arith
  learn_by-tables (some rl) d a duration_ms description result o o' h =
      keep_learnt o (learnt fl d (experience_of sv fl a duration_ms description result o) rl) o' h

  pub learn-tables :
      (d : Draws F) (agent : Option ℕ) (duration_ms : ℕ) (description : String)
      (result : TaskResult) (o o' : Orchestrator C F)
      → learn sv fl d agent duration_ms description result o ≡ ok o'
      → tables o' ≡ tables o
  unfolding learn
  learn-tables d none duration_ms description result o o' h = ground arith
  learn-tables d (some a) duration_ms description result o o' h =
      learn_by-tables o.rl_service d a duration_ms description result o o' h

module _ {C F : Type 0} (sv : Services) (fl : F64 F) (uuid_text : ℕ → String) where
  -- The duration and the agent of a result, as the tables have them.
  abbrev pub duration_of : ℕ → TaskResult → Orchestrator C F → ℕ
  duration_of now result o =
      elapsed now result (Map.get ℕ_discrete result.task_id o.task_start_times)

  abbrev pub agent_of : TaskResult → Orchestrator C F → Option ℕ
  agent_of result o = assigned_agent (Map.get ℕ_discrete result.task_id o.tasks)

  pub process_result-workloads :
      (now : ℕ) (d : Draws F) (result : TaskResult) (o : Orchestrator C F)
      → (process_result sv fl uuid_text now d result o).0.agent_workloads
        ≡ (credit fl result.success
            (duration_of now result o)
            (agent_of result o)
            (forget_start result.task_id o)).agent_workloads
  unfolding process_result
  process_result-workloads now d result o =
      or_panic-workloads sv fl uuid_text now _ result _ _
        (λ o' e. ap (λ t. t.1) (learn-tables sv fl d (agent_of result o) _ _ result _ o' e))
