-- ===== src/Tests/Routing.antt =====
-- The orchestrator on concrete tasks and results.
use cca.Common.{
  ℕ, ◌+◌, ◌%◌, ◌<◌, ◌≡◌, refl, ◌⊎◌, ◌↔◌, Bool, true, false, List, [], ◌∷◌, ◌++◌, Option, none, some,
  String, Result, ok, err, ℕ_discrete, arith, u64_mod, length, replicate, Has, inl, inr, if_pos,
}
use mathlib.Core.Option
use cca.Common.Map
use cca.Common.Map.{AllValues}
use cca.Acp.Env.{Env}
use cca.Orchestrator.{Services, AgentWorkload, Orchestrator, no_available_agent}
use cca.Orchestrator.Selection.{
  is_available, candidates, find_best_agent_heuristic, find_best_agent,
}
use cca.Orchestrator.LeastBusy.{AllAtLeast, find_best_agent_heuristic-least}
use cca.Orchestrator.Available.{find_best_agent-available}
use cca.Orchestrator.Routing.{route_task}
use cca.Orchestrator.Results.{process_result}
use cca.Orchestrator.Aggregation.{aggregated}
use cca.Orchestrator.Capacity.{load}
use cca.Orchestrator.Life.{Call, connect, use_redis, register, route, finish}
use cca.Orchestrator.Delivery.{route_task-unsent, process_result-route_task}
use cca.Orchestrator.Gathering.{gather, with_results, gather-completes}
use cca.Tests.Fixtures.{
  env, fl, sv, server, draws, task, result, workload, aggregation, orchestrator,
}

abbrev calls : List (Services × Env ℕ × Call ℕ ℕ)
calls =
    (sv, env, connect server)
    ∷ (sv, env, use_redis)
    ∷ (sv, env, register 1 "backend" [] 1)
    ∷ (sv, env, route 5 draws (task 7 none) "backend")
    ∷ (sv, env, finish 6 draws (result 7))
    ∷ []

gather-completes_example :
    ((gather env.uuid_text 5 (result 1 ∷ result 2 ∷ []) orchestrator).1
      ≡ none
        ∷ some (aggregated env.uuid_text (with_results (result 1 ∷ result 2 ∷ []) aggregation))
        ∷ [])
    × (Map.get ℕ_discrete 9
          (gather env.uuid_text 5 (result 1 ∷ result 2 ∷ []) orchestrator).0.pending_aggregations
        ≡ none)
unfolding Map.get ℕ_discrete Map.insert
gather-completes_example =
    gather-completes env.uuid_text 5 9 (result 1) (result 2 ∷ []) aggregation orchestrator
      (refl, (refl, tt)) ((λ h. h), ((λ h. elim h [ inl e ↦ ground arith | inr q ↦ q ]), tt)) refl
      refl

find_best_agent_heuristic-least_example :
    ((w : AgentWorkload ℕ) × Has w (Map.values orchestrator.agent_workloads)
      × (is_available "backend" w ≡ true)
      × AllAtLeast w.current_tasks (candidates "backend" (Map.values orchestrator.agent_workloads))
      × (find_best_agent_heuristic "backend" orchestrator ≡ ok w.agent_id))
    ⊎ ((candidates "backend" (Map.values orchestrator.agent_workloads) ≡ [])
        × (find_best_agent_heuristic "backend" orchestrator ≡ err (no_available_agent "backend")))
find_best_agent_heuristic-least_example = find_best_agent_heuristic-least "backend" orchestrator

find_best_agent-available_example :
    (w : AgentWorkload ℕ) × Has w (Map.values orchestrator.agent_workloads)
    × (is_available "backend" w ≡ true)
    × (w.agent_id ≡ 2)
unfolding find_best_agent find_best_agent_heuristic candidates is_available cca.Common.keep_if
find_best_agent-available_example =
    find_best_agent-available sv fl draws "backend" "task" orchestrator 2 refl

abbrev routed : Orchestrator ℕ ℕ
routed = (route_task sv env 5 1 (task 7 none) orchestrator).0

first_workload : Map.get ℕ_discrete 1 orchestrator.agent_workloads ≡ some (workload 1 2)
unfolding Map.get ℕ_discrete
first_workload = refl

process_result-route_task_example :
    Option.map load (
      Map.get ℕ_discrete 1
        (process_result sv fl env.uuid_text 8 draws (result 7) routed).0.agent_workloads)
    ≡ some (load (workload 1 2))
process_result-route_task_example =
    process_result-route_task sv env fl 5 8 1 draws (task 7 none) (result 7) (workload 1 2)
      orchestrator refl first_workload (omega arith)

abbrev redis_configured : Orchestrator ℕ ℕ
redis_configured = record orchestrator { redis = true }

abbrev connected : Orchestrator ℕ ℕ
connected = record orchestrator { acp_server = some server }

missing : Map.get ℕ_discrete 5 server.connections ≡ none
unfolding Map.get ℕ_discrete
missing = refl

route_task-unsent_example :
    ((route_task sv env 3 5 (task 7 none) connected).1 ≡ ok 7)
    × ((route_task sv env 3 5 (task 7 none) connected).0.acp_server ≡ some server)
    × ((route_task sv env 3 5 (task 7 none) connected).0.published ≡ [])
route_task-unsent_example =
    route_task-unsent sv env 3 5 (task 7 none) "params" "json" server connected refl refl refl refl
      missing

abbrev deserted : Orchestrator ℕ ℕ
deserted = record orchestrator { agent_workloads = [] }
