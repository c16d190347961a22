-- ===== src/Orchestrator/Tables.antt =====
-- What sending leaves alone (crates/cca-daemon/src/orchestrator.rs): the four tables of the
-- orchestrator, whatever becomes of the message.
use cca.Common.{ℕ, F64, ◌≡◌, refl, Option, none, some, String, Option-cases, Bool-cases, inl, inr}
use cca.Common.Map.{Map}
use cca.Core.Task.{Task, TaskResult}
use cca.Acp.Env.{Env}
use cca.Acp.Server.{AcpServer, Sent}
use cca.Orchestrator.{AgentWorkload, PendingAggregation, Orchestrator, Services}
use cca.Orchestrator.Routing.{
  publish, send_task_via_redis, or_by_redis, deliver, deliver_by, agent_tasks,
}
use cca.Orchestrator.Results.{publish_result}

module _ {C F : Type 0} where
  abbrev pub tables :
      Orchestrator C F → Map ℕ Task × Map ℕ (AgentWorkload F) × Map ℕ PendingAggregation × Map ℕ ℕ
  tables o = (o.tasks, o.agent_workloads, o.pending_aggregations, o.task_start_times)

module _ {C F : Type 0} (sv : Services) where
  pub publish-tables :
      (channel message : String) (o : Orchestrator C F)
      → tables (publish sv channel message o).0 ≡ tables o
  unfolding publish
  publish-tables channel message o = elim (Bool-cases (sv.publish channel message)) [
    | inl e ↦ rw e refl
    | inr e ↦ rw e refl
  ]

  pub send_task_via_redis-tables :
      (agent_text : String) (task : Task) (o : Orchestrator C F)
      → tables (send_task_via_redis sv agent_text task o).0 ≡ tables o
  unfolding send_task_via_redis
  send_task_via_redis-tables agent_text task o = elim (Bool-cases o.redis) [
    | inr e ↦ rw e refl
    | inl e ↦ elim (Option-cases (sv.task_json task)) [
      | inl n ↦ rw (e, n) refl
      | inr (m, s) ↦ rw (e, s) (publish-tables (agent_tasks agent_text) m o)
    ]
  ]

  pub publish_result-tables :
      (fl : F64 F) (duration_ms : ℕ) (result : TaskResult) (o : Orchestrator C F)
      → tables (publish_result sv fl duration_ms result o).0 ≡ tables o
  unfolding publish_result
  publish_result-tables fl duration_ms result o = elim (Bool-cases o.redis) [
    | inr e ↦ rw e refl
    | inl e ↦ elim (Option-cases (sv.result_json result duration_ms)) [
      | inl n ↦ rw (e, n) refl
      | inr (m, s) ↦ rw (e, s) (publish-tables "cca:coord" m o)
    ]
  ]

module _ {C F : Type 0} (sv : Services) (env : Env C) where
  or_by_redis-tables :
      (agent_id : ℕ) (task : Task) (o : Orchestrator C F) (answer : AcpServer C × Sent)
      → tables (or_by_redis sv env agent_id task o answer).0 ≡ tables o
  unfolding or_by_redis
  or_by_redis-tables agent_id task o (acp, Sent.ok) = refl
  or_by_redis-tables agent_id task o (acp, Sent.err e) =
      send_task_via_redis-tables sv (env.uuid_text agent_id) task
        (record o { acp_server = some acp })

  deliver_by-tables :
      (acp : Option (AcpServer C)) (now agent_id : ℕ) (task : Task) (o : Orchestrator C F)
      → tables (deliver_by sv env acp now agent_id task o).0 ≡ tables o
  unfolding deliver_by
  deliver_by-tables none now agent_id task o =
      send_task_via_redis-tables sv (env.uuid_text agent_id) task o
  deliver_by-tables (some acp) now agent_id task o = elim (Option-cases (sv.assign_params task)) [
    | inl n ↦ rw (deliver_by, n) refl
    | inr (params, s) ↦ rw (deliver_by, s) (or_by_redis-tables agent_id task o _)
  ]

  pub deliver-tables :
      (now agent_id : ℕ) (task : Task) (o : Orchestrator C F)
      → tables (deliver sv env now agent_id task o).0 ≡ tables o
  unfolding deliver
  deliver-tables now agent_id task o = deliver_by-tables o.acp_server now agent_id task o
