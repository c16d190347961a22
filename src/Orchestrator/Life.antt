-- ===== src/Orchestrator/Life.antt =====
-- The load of the agents over the life of the orchestrator (crates/cca-daemon/src/orchestrator.rs):
-- calls in any order, and what they keep.
use cca.Common.{ℕ, Bool, ◌<◌, List, [], ◌∷◌, String, F64, u32_mod}
use cca.Common.Map
use cca.Core.Task.{Task, TaskResult}
use cca.Acp.Env.{Env}
use cca.Rl.Engine.{Draws}
use cca.Acp.Server.{AcpServer}
use cca.Rl.Service.{RlService}
use cca.Orchestrator.{Orchestrator, Services, with_acp, with_redis, with_rl, set_rl_routing}
use cca.Orchestrator.Routing.{register_agent, unregister_agent, route_task_auto}
use cca.Orchestrator.Delegation.{delegate_to_specialists}
use cca.Orchestrator.Results.{process_result}

-- The calls of an orchestrator; `route_task` alone, on an agent that its caller has chosen, is not
-- among them.
pub data Call (C F : Type 0) : Type 0 where
  connect : AcpServer C → Call C F
  use_redis : Call C F
  learn_with : RlService F → Call C F
  enable_rl : Bool → Call C F
  register : ℕ → String → List String → ℕ → Call C F
  unregister : ℕ → Call C F
  route : ℕ → Draws F → Task → String → Call C F
  delegate : ℕ → Task → List (Draws F × String × Task) → Call C F
  finish : ℕ → Draws F → TaskResult → Call C F

module _ {C F : Type 0} (fl : F64 F) where
  -- A call, with the services as they answer during it.
  unfoldable pub call : Services → Env C → Call C F → Orchestrator C F → Orchestrator C F
  unfolding with_acp with_redis with_rl set_rl_routing register_agent unregister_agent
      route_task_auto delegate_to_specialists process_result
  call sv env (connect acp) o = with_acp acp o
  call sv env use_redis o = with_redis o
  call sv env (learn_with rl) o = with_rl rl o
  call sv env (enable_rl enabled) o = set_rl_routing enabled o
  call sv env (register id role capabilities max_tasks) o =
      register_agent fl id role capabilities max_tasks o
  call sv env (unregister id) o = unregister_agent id o
  call sv env (route now d task role) o = (route_task_auto sv env fl now d task role o).0
  call sv env (delegate now parent subtasks) o =
      (delegate_to_specialists sv env fl now parent subtasks o).0
  call sv env (finish now d result) o = (process_result sv fl env.uuid_text now d result o).0

  unfoldable pub run : List (Services × Env C × Call C F) → Orchestrator C F → Orchestrator C F
  unfolding call
  run [] o = o
  run ((sv, env, c) ∷ cs) o = run cs (call sv env c o)

  -- The maximum of a registration is a u32.
  abbrev HasMaximum : Call C F → Type 0
  HasMaximum (register id role capabilities max_tasks) = max_tasks < u32_mod
  HasMaximum _ = Unit {0}

  abbrev pub HaveMaxima : List (Services × Env C × Call C F) → Type 0
  HaveMaxima [] = Unit {0}
  HaveMaxima ((sv, env, c) ∷ cs) = HasMaximum c × HaveMaxima cs
