-- ===== src/Orchestrator/Outcomes.antt =====
-- The results of tasks (crates/cca-daemon/src/orchestrator.rs): what they change in the workload of
-- the agent, the experience that is learnt from them, and their aggregation into the parent's.
use cca.Common.{
  ℕ, ◌-◌, ◌%◌, Bool, List, [], ◌∷◌, Option, none, some, String, F64, if◌then◌else◌, ltb, leb,
  add_u32, u64_mod, ℕ_discrete, length, take,
}
use cca.Common.Map
use cca.Common.Map.{Map}
use cca.Core.Task.{Task, TaskResult, TaskStatus}
use cca.Core.Task
use cca.Orchestrator.{AgentWorkload, Orchestrator}

-- `as_millis() as u64` of the time since the start, or the duration that the result reports.
abbrev pub elapsed : ℕ → TaskResult → Option ℕ → ℕ
elapsed now result none = result.duration_ms
elapsed now result (some start) = (now - start) % u64_mod

-- `unwrap_or_default` of an error.
abbrev pub error_text : Option String → String
error_text none = ""
error_text (some e) = e

-- The change of a task that has this result.
unfoldable pub finish : ℕ → TaskResult → Task → Task
unfolding Task.complete Task.fail
finish now result task =
    if result.success then Task.complete now task else Task.fail now (error_text result.error) task

abbrev pub assigned_agent : Option Task → Option ℕ
assigned_agent none = none
assigned_agent (some t) = t.assigned_to

abbrev pub task_description : Option Task → String
task_description none = ""
task_description (some t) = t.description

abbrev pub parent_of : Option Task → Option ℕ
parent_of none = none
parent_of (some t) = t.parent_task

module _ {F : Type 0} (fl : F64 F) where
  unfoldable pub count_result : Bool → AgentWorkload F → AgentWorkload F
  count_result success w =
      if success
      then record w { tasks_completed = add_u32 w.tasks_completed 1 }
      else record w { tasks_failed = add_u32 w.tasks_failed 1 }

  unfoldable pub rate : AgentWorkload F → AgentWorkload F
  rate w =
      let total = add_u32 w.tasks_completed w.tasks_failed in
      if ltb 0 total
      then record w { success_rate = fl.div (fl.of_nat w.tasks_completed) (fl.of_nat total) }
      else w

  -- An exponential moving average, that the first duration starts.
  unfoldable pub average_time : ℕ → AgentWorkload F → AgentWorkload F
  average_time duration_ms w =
      let alpha = fl.decimal 2 1 in
      let rest = fl.sub (fl.decimal 1 0) alpha in
      if fl.eq w.avg_completion_time (fl.decimal 0 0)
      then record w { avg_completion_time = fl.of_nat duration_ms }
      else record w {
        avg_completion_time =
            fl.add (fl.mul alpha (fl.of_nat duration_ms)) (fl.mul rest w.avg_completion_time);
      }

  unfoldable pub one_less : AgentWorkload F → AgentWorkload F
  one_less w = if ltb 0 w.current_tasks then record w { current_tasks = w.current_tasks - 1 } else w

  unfoldable pub after_result : Bool → ℕ → AgentWorkload F → AgentWorkload F
  unfolding count_result rate average_time one_less
  after_result success duration_ms w =
      average_time duration_ms (rate (count_result success (one_less w)))

module _ {C F : Type 0} where
  unfoldable pub credit : F64 F → Bool → ℕ → Option ℕ → Orchestrator C F → Orchestrator C F
  unfolding after_result
  credit fl success duration_ms none o = o
  credit fl success duration_ms (some agent_id) o = record o {
    agent_workloads =
        Map.update ℕ_discrete agent_id (after_result fl success duration_ms) o.agent_workloads;
  }

  unfoldable pub forget_start : ℕ → Orchestrator C F → Orchestrator C F
  forget_start task_id o = record o {
    task_start_times = Map.remove ℕ_discrete task_id o.task_start_times;
  }

  unfoldable pub finish_task : ℕ → TaskResult → Orchestrator C F → Orchestrator C F
  unfolding finish
  finish_task now result o = record o {
    tasks = Map.update ℕ_discrete result.task_id (finish now result) o.tasks;
  }

  -- `store_result`.
  unfoldable pub store_result : ℕ → ℕ → TaskResult → Orchestrator C F → Orchestrator C F
  unfolding finish
  store_result now task_id result o = record o {
    tasks = Map.update ℕ_discrete task_id (finish now result) o.tasks;
  }

  unfoldable pub get_task : ℕ → Orchestrator C F → Option Task
  get_task task_id o = Map.get ℕ_discrete task_id o.tasks

  unfoldable pub get_task_status : ℕ → Orchestrator C F → Option TaskStatus
  get_task_status task_id o = elim (Map.get ℕ_discrete task_id o.tasks) [
    | none ↦ none
    | some t ↦ some t.status
  ]

  unfoldable pub get_agent_workloads : Orchestrator C F → List (AgentWorkload F)
  get_agent_workloads o = Map.values o.agent_workloads

  unfoldable pub pending_aggregation_count : Orchestrator C F → ℕ
  pending_aggregation_count o = length o.pending_aggregations

-- The stable sort of `list_tasks`: the youngest first.
unfoldable pub insert_by_age : Task → List Task → List Task
insert_by_age t [] = t ∷ []
insert_by_age t (x ∷ xs) =
    if leb x.created_at t.created_at then t ∷ x ∷ xs else x ∷ insert_by_age t xs

unfoldable pub sort_by_age : List Task → List Task
unfolding insert_by_age
sort_by_age [] = []
sort_by_age (t ∷ ts) = insert_by_age t (sort_by_age ts)

module _ {C F : Type 0} where
  unfoldable pub list_tasks : ℕ → Orchestrator C F → List Task
  unfolding sort_by_age
  list_tasks limit o = take limit (sort_by_age (Map.values o.tasks))
