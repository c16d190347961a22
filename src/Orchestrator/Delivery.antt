-- ===== src/Orchestrator/Delivery.antt =====
-- What `route_task` leaves behind, whatever becomes of the message, and how the result of the task
-- undoes it (crates/cca-daemon/src/orchestrator.rs).
use cca.Common.{
  ℕ, ◌+◌, ◌-◌, ◌%◌, ◌<◌, ◌≡◌, refl, ap, ◌∙◌, Bool, false, Option, none, some, String, F64, ok,
  ℕ_discrete, if_pos, if◌then◌else◌, arith, u32_mod,
}
use mathlib.Core.Option
use cca.Common.Map
use cca.Core.Task.{Task, TaskResult}
use cca.Acp.Env.{Env}
use cca.Acp.Message.{AcpMessage, request}
use cca.Acp.Server.{AcpServer, Sent, not_connected, send_to}
use cca.Rl.Engine.{Draws}
use cca.Orchestrator.{AgentWorkload, Orchestrator, Services}
use cca.Orchestrator.Routing.{
  one_more, note_task, assigned, deliver, deliver_by, or_by_redis, send_task_via_redis, route_task,
  or_error,
}
use cca.Orchestrator.Outcomes.{assigned_agent, credit, forget_start, after_result}
use cca.Orchestrator.Results.{process_result}
use cca.Orchestrator.Tables.{deliver-tables}
use cca.Orchestrator.Workloads.{process_result-workloads, agent_of, duration_of}
use cca.Orchestrator.Capacity.{load, after_result-load}

if_false {ℓ} : {A : Type ℓ} (x y : A) (b : Bool) → b ≡ false → (if b then x else y) ≡ y
if_false x y b h = rw h refl

module _ {C : Type 0} where
  send_to-missing :
      (env : Env C) (now agent_id : ℕ) (message : AcpMessage) (json : String) (acp : AcpServer C)
      → env.to_json message ≡ some json
      → Map.get ℕ_discrete agent_id acp.connections ≡ none
      → send_to env now agent_id message acp ≡ (acp, Sent.err not_connected)
  unfolding send_to
  send_to-missing env now agent_id message json acp hj hc = rw (send_to, hj, hc) refl

module _ {C F : Type 0} (sv : Services) (env : Env C) where
  -- Whatever becomes of its message, a routed task is in the table as in progress and assigned, its
  -- start is noted, its agent, if known, has a task more, and the pending aggregations are as
  -- before.
  pub route_task-noted :
      (now agent_id : ℕ) (task : Task) (o : Orchestrator C F)
      → let o' = (route_task sv env now agent_id task o).0 in
        (Map.get ℕ_discrete task.id o'.tasks ≡ some (assigned now agent_id task))
        × (Map.get ℕ_discrete task.id o'.task_start_times ≡ some now)
        × (Map.get ℕ_discrete agent_id o'.agent_workloads
            ≡ Option.map one_more (Map.get ℕ_discrete agent_id o.agent_workloads))
        × (o'.pending_aggregations ≡ o.pending_aggregations)
  unfolding route_task note_task assigned
  route_task-noted now agent_id task o =
      let t = assigned now agent_id task in
      let same = deliver-tables sv env now agent_id t (note_task now agent_id t o) in
      (
        ap (λ x. Map.get ℕ_discrete task.id x.0) same
            ∙ Map.get-insert_self ℕ_discrete task.id t o.tasks,
        ap (λ x. Map.get ℕ_discrete task.id x.3) same
            ∙ Map.get-insert_self ℕ_discrete task.id now o.task_start_times,
        ap (λ x. Map.get ℕ_discrete agent_id x.1) same
            ∙ Map.get-update ℕ_discrete agent_id agent_id one_more o.agent_workloads
            ∙ if_pos (ℕ_discrete agent_id agent_id) refl _ _,
        ap (λ x. x.2) same,
      )

  or_by_redis-unsent :
      (agent_id : ℕ) (task : Task) (acp : AcpServer C) (answer : AcpServer C × Sent)
      (o : Orchestrator C F)
      → o.redis ≡ false
      → answer ≡ (acp, Sent.err not_connected)
      → or_by_redis sv env agent_id task o answer ≡ (record o { acp_server = some acp }, none)
  unfolding or_by_redis send_task_via_redis
  or_by_redis-unsent agent_id task acp answer o hr e =
      ap (or_by_redis sv env agent_id task o) e ∙ if_false _ _ o.redis hr

  deliver_by-unsent :
      (now agent_id : ℕ) (task : Task) (params json : String) (acp : AcpServer C)
      (o : Orchestrator C F)
      → o.redis ≡ false
      → sv.assign_params task ≡ some params
      → env.to_json (request (env.uuid_text task.id) "taskAssign" params) ≡ some json
      → Map.get ℕ_discrete agent_id acp.connections ≡ none
      → deliver_by sv env (some acp) now agent_id task o
        ≡ (record o { acp_server = some acp }, none)
  unfolding deliver_by
  deliver_by-unsent now agent_id task params json acp o hr hp hj hc =
      rw (deliver_by, hp)
        (or_by_redis-unsent agent_id task acp _ o hr
          (send_to-missing env now agent_id _ json acp hj hc))

  -- Without Redis, a task whose parameters and message can be serialised, for an agent that has no
  -- connection at the configured ACP server, is reported as routed, though the server is unchanged
  -- and nothing is published.
  pub route_task-unsent :
      (now agent_id : ℕ) (task : Task) (params json : String) (acp : AcpServer C)
      (o : Orchestrator C F)
      → o.acp_server ≡ some acp
      → o.redis ≡ false
      → sv.assign_params (assigned now agent_id task) ≡ some params
      → env.to_json (request (env.uuid_text task.id) "taskAssign" params) ≡ some json
      → Map.get ℕ_discrete agent_id acp.connections ≡ none
      → let (o', r) = route_task sv env now agent_id task o in
        (r ≡ ok task.id) × (o'.acp_server ≡ some acp) × (o'.published ≡ o.published)
  unfolding route_task deliver note_task assigned
  route_task-unsent now agent_id task params json acp o ha hr hp hj hc =
      let o1 = note_task now agent_id (assigned now agent_id task) o in
      let e =
        ap (λ s. deliver_by sv env s now agent_id (assigned now agent_id task) o1) ha
        ∙ deliver_by-unsent now agent_id (assigned now agent_id task) params json acp o1 hr hp hj
            hc in
      (ap (λ p. or_error task.id p.1) e, ap (λ p. p.0.acp_server) e, ap (λ p. p.0.published) e)

module _ {C F : Type 0} (sv : Services) (env : Env C) (fl : F64 F) where
  credited :
      (success : Bool) (duration_ms agent_id : ℕ) (agent : Option ℕ) (o : Orchestrator C F)
      → agent ≡ some agent_id
      → Map.get ℕ_discrete agent_id (credit fl success duration_ms agent o).agent_workloads
        ≡ Option.map
            (after_result fl success duration_ms)
            (Map.get ℕ_discrete agent_id o.agent_workloads)
  unfolding credit
  credited success duration_ms agent_id none o e = absurd (ground arith)
  credited success duration_ms agent_id (some a) o e =
      let same : a ≡ agent_id = ground arith in
      Map.get-update ℕ_discrete agent_id a (after_result fl success duration_ms) o.agent_workloads
      ∙ if_pos (ℕ_discrete a agent_id) same _ _

  -- For an agent that is known and has fewer than 2^32 - 1 tasks, the result of a task gives back
  -- the room that its routing took: whatever the services answer, its identifier, maximum and number
  -- of tasks after the result are those before the routing.
  pub process_result-route_task :
      (now later agent_id : ℕ) (d : Draws F) (task : Task) (result : TaskResult)
      (w : AgentWorkload F) (o : Orchestrator C F)
      → result.task_id ≡ task.id
      → Map.get ℕ_discrete agent_id o.agent_workloads ≡ some w
      → w.current_tasks + 1 < u32_mod
      → let routed = (route_task sv env now agent_id task o).0 in
        let o' = (process_result sv fl env.uuid_text later d result routed).0 in
        Option.map load (Map.get ℕ_discrete agent_id o'.agent_workloads) ≡ some (load w)
  unfolding one_more forget_start assigned
  process_result-route_task now later agent_id d task result w o he hw hlt =
      let routed = (route_task sv env now agent_id task o).0 in
      let n = route_task-noted sv env now agent_id task o in
      let agent : agent_of sv fl env.uuid_text result routed ≡ some agent_id =
        ap assigned_agent (ap (λ k. Map.get ℕ_discrete k routed.tasks) he ∙ n.0) in
      let duration = duration_of sv fl env.uuid_text later result routed in
      let loaded = one_more w in
      let room : (w.current_tasks + 1) % u32_mod - 1 ≡ w.current_tasks = omega (arith, hlt) in
      ap (λ m. Option.map load (Map.get ℕ_discrete agent_id m))
        (process_result-workloads sv fl env.uuid_text later d result routed)
      ∙ ap (Option.map load) (
          credited result.success duration agent_id _ (forget_start result.task_id routed) agent
          ∙ ap (Option.map (after_result fl result.success duration))
              (n.2 ∙ ap (Option.map one_more) hw))
      ∙ ap some (
          after_result-load fl result.success duration loaded
          ∙ ap (λ k. (w.agent_id, w.max_tasks, k)) room)
