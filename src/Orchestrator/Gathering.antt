-- ===== src/Orchestrator/Gathering.antt =====
-- The results of all the subtasks, as they arrive one after another
-- (crates/cca-daemon/src/orchestrator.rs).
use cca.Common.{
  ℕ, suc, ◌+◌, ◌≡◌, refl, ap, ◌∙◌, List, [], ◌∷◌, ◌++◌, Option, none, some, String, ℕ_discrete,
  if_pos, arith, length, replicate, Has,
}
use mathlib.Core.Option
use cca.Common.Map
use cca.Common.Map.{Map, keys}
use cca.Core.Task.{Task, TaskResult}
use cca.Orchestrator.{PendingAggregation, Orchestrator}
use cca.Orchestrator.Outcomes.{parent_of}
use cca.Orchestrator.Aggregation.{
  aggregated, aggregate_results, with_result, keep_result, close_parent, try_aggregate_result,
}
use cca.Orchestrator.Finishing.{taken, waits, closes, length-insert_new}

-- Results for tasks that have none yet, each other's included.
abbrev pub AreNew : List TaskResult → Map ℕ TaskResult → Type 0
AreNew [] m = Unit {0}
AreNew (r ∷ rs) m = (¬ Has r.task_id (keys m)) × AreNew rs (Map.insert ℕ_discrete r.task_id r m)

-- Results of tasks that are subtasks of this parent.
abbrev pub HaveParent : ℕ → List TaskResult → Map ℕ Task → Type 0
HaveParent p [] tasks = Unit {0}
HaveParent p (r ∷ rs) tasks =
    (parent_of (Map.get ℕ_discrete r.task_id tasks) ≡ some p) × HaveParent p rs tasks

-- The aggregation with these results in it.
abbrev pub with_results : List TaskResult → PendingAggregation → PendingAggregation
with_results [] agg = agg
with_results (r ∷ rs) agg = with_results rs (with_result r.task_id r agg)

module _ {C F : Type 0} (uuid_text : ℕ → String) where
  -- The aggregation's part of `process_result`, for a sequence of results.
  unfoldable pub gather :
      ℕ → List TaskResult → Orchestrator C F → Orchestrator C F × List (Option TaskResult)
  unfolding try_aggregate_result
  gather now [] o = (o, [])
  gather now (r ∷ rs) o =
      let (o', answer) = try_aggregate_result uuid_text now r.task_id r o in
      let (o'', answers) = gather now rs o' in (o'', answer ∷ answers)

  -- What `gather` answers, and whether the parent still waits after it.
  abbrev outcome :
      ℕ
      → ℕ
      → List TaskResult
      → Orchestrator C F
      → List (Option TaskResult) × Option PendingAggregation
  outcome now p rs o =
      let (o', answers) = gather now rs o in (answers, Map.get ℕ_discrete p o'.pending_aggregations)

  gather-step :
      (now p : ℕ) (r : TaskResult) (rs : List TaskResult) (o o' : Orchestrator C F)
      (answer : Option TaskResult)
      → try_aggregate_result uuid_text now r.task_id r o ≡ (o', answer)
      → outcome now p (r ∷ rs) o ≡ (answer ∷ (outcome now p rs o').0, (outcome now p rs o').1)
  unfolding gather
  gather-step now p r rs o o' answer e =
      ap (λ t. (t.1 ∷ (outcome now p rs t.0).0, (outcome now p rs t.0).1)) e

  closed :
      (now p : ℕ) (agg : PendingAggregation) (o : Orchestrator C F)
      → Map.get ℕ_discrete p (close_parent uuid_text now p agg o).0.pending_aggregations ≡ none
  unfolding close_parent aggregate_results
  closed now p agg o =
      Map.get-remove ℕ_discrete p p o.pending_aggregations ∙ if_pos (ℕ_discrete p p) refl _ _

  kept :
      (p : ℕ) (r : TaskResult) (agg : PendingAggregation) (o : Orchestrator C F)
      → Map.get ℕ_discrete p o.pending_aggregations ≡ some agg
      → Map.get ℕ_discrete p (keep_result uuid_text p r.task_id r o).pending_aggregations
        ≡ some (with_result r.task_id r agg)
  unfolding keep_result
  kept p r agg o h =
      Map.get-update ℕ_discrete p p (with_result r.task_id r) o.pending_aggregations
      ∙ if_pos (ℕ_discrete p p) refl _ _
      ∙ ap (Option.map (with_result r.task_id r)) h

  gather_last :
      (now p : ℕ) (r : TaskResult) (agg : PendingAggregation) (o : Orchestrator C F)
      → parent_of (Map.get ℕ_discrete r.task_id o.tasks) ≡ some p
      → ¬ Has r.task_id (keys agg.results)
      → Map.get ℕ_discrete p o.pending_aggregations ≡ some agg
      → suc (length agg.results) ≡ agg.required_count
      → outcome now p (r ∷ []) o
        ≡ (some (aggregated uuid_text (with_result r.task_id r agg)) ∷ [], none)
  unfolding close_parent aggregate_results gather
  gather_last now p r agg o hp hn hg hl =
      let agg' = with_result r.task_id r agg in
      gather-step now p r [] o (close_parent uuid_text now p agg' o).0 _
        (taken uuid_text now p r agg o hp hg ∙ closes uuid_text now p r agg o hn hl)
      ∙ ap (λ t. (some (aggregated uuid_text agg') ∷ [], t)) (closed now p agg' o)

  -- As the results of subtasks of a parent arrive one by one, each for a task that has no result
  -- yet, and as many as the aggregation of the parent still requires, every one but the last is
  -- kept, and the last one completes the aggregation: it is answered by the aggregate of all of
  -- them, and the parent waits no longer.
  pub gather-completes :
      (now p : ℕ) (r : TaskResult) (rs : List TaskResult) (agg : PendingAggregation)
      (o : Orchestrator C F)
      → HaveParent p (r ∷ rs) o.tasks
      → AreNew (r ∷ rs) agg.results
      → Map.get ℕ_discrete p o.pending_aggregations ≡ some agg
      → length agg.results + length (r ∷ rs) ≡ agg.required_count
      → let (o', answers) = gather now (r ∷ rs) o in
        (answers
          ≡ replicate (length rs) none
            ++ some (aggregated uuid_text (with_results (r ∷ rs) agg)) ∷ [])
        × (Map.get ℕ_discrete p o'.pending_aggregations ≡ none)
  unfolding keep_result with_result
  gather-completes now p r [] agg o hp hn hg hl =
      let e = gather_last now p r agg o hp.0 hn.0 hg (omega (arith, hl)) in
      (ap (λ t. t.0) e, ap (λ t. t.1) e)
  gather-completes now p r (s ∷ rs) agg o hp hn hg hl =
      let o1 = keep_result uuid_text p r.task_id r o in
      let n = length-insert_new r.task_id r agg.results hn.0 in
      let e = gather-step now p r (s ∷ rs) o o1 none (
        taken uuid_text now p r agg o hp.0 hg
        ∙ waits uuid_text now p r agg o hn.0 (omega (arith, hl))) in
      let rest =
        gather-completes now p s rs (with_result r.task_id r agg) o1 hp.1 hn.1 (kept p r agg o hg)
          (omega (arith, hl, n)) in
      (ap (λ t. t.0) e ∙ ap (λ t. none ∷ t) rest.0, ap (λ t. t.1) e ∙ rest.1)
