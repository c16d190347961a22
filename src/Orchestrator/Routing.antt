-- ===== src/Orchestrator/Routing.antt =====
-- Registration of agents, and the way of a task to its agent
-- (crates/cca-daemon/src/orchestrator.rs): over ACP, over Redis where ACP fails or is missing.
use cca.Common.{
  ℕ, List, ◌∷◌, Option, none, some, String, F64, Result, ok, err, panic, if◌then◌else◌, add_u32,
  ℕ_discrete,
}
use Prim.Native.String.{◌++◌ as str_append}
use cca.Common.Map
use cca.Core.Task.{Task}
use cca.Core.Task
use cca.Acp.Env.{Env}
use cca.Acp.Message.{request}
use cca.Acp.Server.{AcpServer, Sent, send_to}
use cca.Rl.Engine.{Draws}
use cca.Orchestrator.{AgentWorkload, Orchestrator, Services, Error, serialization, redis_failure}
use cca.Orchestrator.Selection.{find_best_agent}

unfoldable pub fresh_workload :
    {F : Type 0} → F64 F → ℕ → String → List String → ℕ → AgentWorkload F
fresh_workload fl agent_id role capabilities max_tasks = record {
  agent_id = agent_id;
  role = role;
  current_tasks = 0;
  max_tasks = max_tasks;
  capabilities = capabilities;
  success_rate = fl.decimal 1 0;
  avg_completion_time = fl.decimal 0 0;
  tasks_completed = 0;
  tasks_failed = 0;
}

-- The channel `cca:tasks:{id}` of an agent.
abbrev pub agent_tasks : String → String
agent_tasks id = str_append "cca:tasks:" id

unfoldable pub one_more : {F : Type 0} → AgentWorkload F → AgentWorkload F
one_more w = record w { current_tasks = add_u32 w.current_tasks 1 }

-- The task as it is sent.
unfoldable pub assigned : ℕ → ℕ → Task → Task
unfolding Task.start Task.assign_to
assigned now agent_id task = Task.start now (Task.assign_to agent_id task)

module _ {C F : Type 0} where
  unfoldable pub register_agent :
      F64 F → ℕ → String → List String → ℕ → Orchestrator C F → Orchestrator C F
  unfolding fresh_workload
  register_agent fl agent_id role capabilities max_tasks o = record o {
    agent_workloads =
        Map.insert ℕ_discrete agent_id (fresh_workload fl agent_id role capabilities max_tasks)
          o.agent_workloads;
  }

  unfoldable pub unregister_agent : ℕ → Orchestrator C F → Orchestrator C F
  unregister_agent agent_id o = record o {
    agent_workloads = Map.remove ℕ_discrete agent_id o.agent_workloads;
  }

  -- The three tables that `route_task` writes before it sends anything.
  unfoldable pub note_task : ℕ → ℕ → Task → Orchestrator C F → Orchestrator C F
  unfolding one_more
  note_task now agent_id task o = record o {
    tasks = Map.insert ℕ_discrete task.id task o.tasks;
    task_start_times = Map.insert ℕ_discrete task.id now o.task_start_times;
    agent_workloads = Map.update ℕ_discrete agent_id one_more o.agent_workloads;
  }

module _ {C F : Type 0} (sv : Services) where
  unfoldable pub publish : String → String → Orchestrator C F → Orchestrator C F × Option Error
  publish channel message o =
      if sv.publish channel message
      then (record o { published = (channel, message) ∷ o.published }, none)
      else (o, some redis_failure)

  -- The `Err` of a `Result<()>`, if any.
  unfoldable pub send_task_via_redis :
      String → Task → Orchestrator C F → Orchestrator C F × Option Error
  unfolding publish
  send_task_via_redis agent_text task o =
      if o.redis
      then elim (sv.task_json task) [
        | none ↦ (o, some serialization)
        | some message ↦ publish (agent_tasks agent_text) message o
      ]
      else (o, none)

abbrev pub or_error : ℕ → Option Error → Result Error ℕ
or_error id none = ok id
or_error id (some e) = err e

module _ {C F : Type 0} (sv : Services) (env : Env C) where
  -- What `route_task` does with the answer of the ACP server.
  unfoldable pub or_by_redis :
      ℕ → Task → Orchestrator C F → AcpServer C × Sent → Orchestrator C F × Option Error
  unfolding send_task_via_redis
  or_by_redis agent_id task o (acp, Sent.ok) = (record o { acp_server = some acp }, none)
  or_by_redis agent_id task o (acp, Sent.err e) =
      send_task_via_redis sv (env.uuid_text agent_id) task (record o { acp_server = some acp })

  -- Over this ACP server, if there is one.
  unfoldable pub deliver_by :
      Option (AcpServer C) → ℕ → ℕ → Task → Orchestrator C F → Orchestrator C F × Option Error
  unfolding or_by_redis send_task_via_redis send_to request
  deliver_by none now agent_id task o = send_task_via_redis sv (env.uuid_text agent_id) task o
  deliver_by (some acp) now agent_id task o = elim (sv.assign_params task) [
    | none ↦ (o, some serialization)
    | some params ↦
        or_by_redis agent_id task o
          (send_to env now agent_id (request (env.uuid_text task.id) "taskAssign" params) acp)
  ]

  unfoldable pub deliver : ℕ → ℕ → Task → Orchestrator C F → Orchestrator C F × Option Error
  unfolding deliver_by
  deliver now agent_id task o = deliver_by o.acp_server now agent_id task o

  unfoldable pub route_task : ℕ → ℕ → Task → Orchestrator C F → Orchestrator C F × Result Error ℕ
  unfolding assigned note_task deliver
  route_task now agent_id task o =
      let t = assigned now agent_id task in
      let (o', e) = deliver now agent_id t (note_task now agent_id t o) in (o', or_error task.id e)

module _ {C F : Type 0} (sv : Services) (env : Env C) (fl : F64 F) where
  unfoldable pub route_to :
      ℕ → Task → Orchestrator C F → Result Error ℕ → Orchestrator C F × Result Error ℕ
  unfolding route_task
  route_to now task o (ok agent_id) = route_task sv env now agent_id task o
  route_to now task o (err e) = (o, err e)
  route_to now task o panic = (o, panic)

  unfoldable pub route_task_auto :
      ℕ → Draws F → Task → String → Orchestrator C F → Orchestrator C F × Result Error ℕ
  unfolding route_to find_best_agent
  route_task_auto now d task required_role o =
      route_to now task o (find_best_agent sv fl d required_role task.description o)
