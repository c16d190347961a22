-- ===== src/Orchestrator.antt =====
-- crates/cca-daemon/src/orchestrator.rs: its state, and the services it is configured with. Every
-- lock is held for one statement; a call of a method is one step here, at the time that is given.
pub mod Selection
pub mod Routing
pub mod Delegation
pub mod Outcomes
pub mod Aggregation
pub mod Results
pub mod Announcing
pub mod Tables
pub mod Capacity
pub mod Workloads
pub mod Sound
pub mod Life
pub mod Delivery
pub mod Finishing
pub mod Gathering
pub mod Failures
pub mod LeastBusy
pub mod Available
use cca.Common.{ℕ, Bool, true, false, List, [], ◌∷◌, Option, none, some, String, F64}
use cca.Common.Map
use cca.Common.Map.{Map}
use cca.Core.Task.{Task, TaskResult}
use cca.Core.Task
use cca.Acp.Server.{AcpServer}
use cca.Rl.Service.{RlService}

pub record AgentWorkload (F : Type 0) : Type 0 where
  pub agent_id : ℕ
  pub role : String
  pub current_tasks : ℕ
  pub max_tasks : ℕ
  pub capabilities : List String
  pub success_rate : F
  pub avg_completion_time : F
  pub tasks_completed : ℕ
  pub tasks_failed : ℕ

pub record PendingAggregation : Type 0 where
  pub parent_task_id : ℕ
  pub subtask_ids : List ℕ
  pub results : Map ℕ TaskResult
  pub required_count : ℕ

-- `redis` says whether Redis is configured, and `published` is what went to its channels, the last
-- message first.
pub record Orchestrator (C F : Type 0) : Type 0 where
  pub tasks : Map ℕ Task
  pub agent_workloads : Map ℕ (AgentWorkload F)
  pub pending_aggregations : Map ℕ PendingAggregation
  pub acp_server : Option (AcpServer C)
  pub redis : Bool
  pub published : List (String × String)
  pub rl_service : Option (RlService F)
  pub use_rl_routing : Bool
  pub task_start_times : Map ℕ ℕ

-- serde_json on the daemon's own types, the outcome of a Redis publication, and the lower case of a
-- text.
pub record Services : Type 0 where
  pub task_json : Task → Option String
  pub assign_params : Task → Option String
  pub result_json : TaskResult → ℕ → Option String
  pub publish : String → String → Bool
  pub to_lowercase : String → String

pub data Error : Type 0 where
  no_available_agent : String → Error
  serialization : Error
  redis_failure : Error

module _ {C F : Type 0} where
  unfoldable pub new : Orchestrator C F
  new = record {
    tasks = [];
    agent_workloads = [];
    pending_aggregations = [];
    acp_server = none;
    redis = false;
    published = [];
    rl_service = none;
    use_rl_routing = false;
    task_start_times = [];
  }

  unfoldable pub with_acp : AcpServer C → Orchestrator C F → Orchestrator C F
  with_acp acp o = record o { acp_server = some acp }

  unfoldable pub with_redis : Orchestrator C F → Orchestrator C F
  with_redis o = record o { redis = true }

  unfoldable pub with_rl : RlService F → Orchestrator C F → Orchestrator C F
  with_rl rl o = record o { rl_service = some rl; use_rl_routing = true }

  unfoldable pub set_rl_routing : Bool → Orchestrator C F → Orchestrator C F
  set_rl_routing enabled o = record o { use_rl_routing = enabled }
