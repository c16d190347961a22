-- ===== src/Orchestrator/Aggregation.antt =====
-- `try_aggregate_result` and `aggregate_results` of crates/cca-daemon/src/orchestrator.rs.
use Prim.Native.String.{◌++◌ as str_append}
use cca.Common.{
  ℕ, Bool, true, ◌&&◌, List, [], ◌∷◌, Option, none, some, String, if◌then◌else◌, leb, add_u64,
  ℕ_discrete, length,
}
use cca.Common.Map
use cca.Common.Map.{Map}
use cca.Core.Task.{Task, TaskResult}
use cca.Core.Task
use cca.Orchestrator.{PendingAggregation, Orchestrator}
use cca.Orchestrator.Outcomes.{parent_of}

-- What the loop of `aggregate_results` collects.
pub record Summary : Type 0 where
  pub combined_output : String
  pub total_tokens : ℕ
  pub total_duration : ℕ
  pub all_success : Bool
  pub errors : List String

-- `slice::join`.
unfoldable pub join : String → List String → String
join sep [] = ""
join sep (x ∷ []) = x
join sep (x ∷ y ∷ ys) = str_append x (str_append sep (join sep (y ∷ ys)))

abbrev pub section_text : String → String → String
section_text id output =
    str_append "\n--- Task " (str_append id (str_append " ---\n" (str_append output "\n")))

abbrev pub error_line : String → Option String → List String → List String
error_line id none rest = rest
error_line id (some e) rest = str_append "Task " (str_append id (str_append ": " e)) ∷ rest

unfoldable pub with_result : ℕ → TaskResult → PendingAggregation → PendingAggregation
with_result task_id result agg = record agg {
  results = Map.insert ℕ_discrete task_id result agg.results;
}

module _ (uuid_text : ℕ → String) where
  -- A result in front of what the others add up to.
  unfoldable pub collect : ℕ × TaskResult → Summary → Summary
  collect (id, r) s = record {
    combined_output =
        if r.success
        then str_append (section_text (uuid_text id) r.output) s.combined_output
        else s.combined_output;
    total_tokens = add_u64 r.tokens_used s.total_tokens;
    total_duration = add_u64 r.duration_ms s.total_duration;
    all_success = r.success && s.all_success;
    errors = if r.success then s.errors else error_line (uuid_text id) r.error s.errors;
  }

  unfoldable pub summary : Map ℕ TaskResult → Summary
  unfolding collect
  summary [] = record {
    combined_output = "";
    total_tokens = 0;
    total_duration = 0;
    all_success = true;
    errors = [];
  }
  summary (e ∷ m) = collect e (summary m)

  -- `None` where there are no errors.
  abbrev pub errors_text : List String → Option String
  unfolding join
  errors_text [] = none
  errors_text (e ∷ es) = some (join "; " (e ∷ es))

  unfoldable pub aggregated : PendingAggregation → TaskResult
  unfolding summary
  aggregated agg =
      let s = summary agg.results in
      record {
        task_id = agg.parent_task_id;
        success = s.all_success;
        output = s.combined_output;
        tokens_used = s.total_tokens;
        duration_ms = s.total_duration;
        error = errors_text s.errors;
        metadata = "null";
      }

  unfoldable pub finish_parent : ℕ → Summary → Task → Task
  unfolding join Task.complete Task.fail
  finish_parent now s t =
      if s.all_success then Task.complete now t else Task.fail now (join "; " s.errors) t

  module _ {C F : Type 0} where
    unfoldable pub aggregate_results :
        ℕ → PendingAggregation → Orchestrator C F → Orchestrator C F × TaskResult
    unfolding finish_parent summary aggregated
    aggregate_results now agg o = (
      record o {
        tasks =
            Map.update ℕ_discrete agg.parent_task_id (finish_parent now (summary agg.results))
              o.tasks;
      },
      aggregated agg,
    )

    -- The result kept until the others are in.
    unfoldable pub keep_result : ℕ → ℕ → TaskResult → Orchestrator C F → Orchestrator C F
    unfolding with_result
    keep_result parent_id task_id result o = record o {
      pending_aggregations =
          Map.update ℕ_discrete parent_id (with_result task_id result) o.pending_aggregations;
    }

    -- The end of the aggregation, whose results these are.
    unfoldable pub close_parent :
        ℕ → ℕ → PendingAggregation → Orchestrator C F → Orchestrator C F × Option TaskResult
    unfolding aggregate_results
    close_parent now parent_id agg o =
        let (o', r) = aggregate_results now agg (record o {
          pending_aggregations = Map.remove ℕ_discrete parent_id o.pending_aggregations;
        }) in
        (o', some r)

    unfoldable pub take_result :
        ℕ
        → ℕ
        → ℕ
        → TaskResult
        → PendingAggregation
        → Orchestrator C F
        → Orchestrator C F × Option TaskResult
    unfolding with_result keep_result close_parent
    take_result now parent_id task_id result agg o =
        if leb agg.required_count (length (with_result task_id result agg).results)
        then close_parent now parent_id (with_result task_id result agg) o
        else (keep_result parent_id task_id result o, none)

    unfoldable pub try_aggregate_result :
        ℕ → ℕ → TaskResult → Orchestrator C F → Orchestrator C F × Option TaskResult
    unfolding take_result
    try_aggregate_result now task_id result o =
        elim (parent_of (Map.get ℕ_discrete task_id o.tasks)) [
          | none ↦ (o, none)
          | some parent_id ↦ elim (Map.get ℕ_discrete parent_id o.pending_aggregations) [
            | none ↦ (o, none)
            | some agg ↦ take_result now parent_id task_id result agg o
          ]
        ]
