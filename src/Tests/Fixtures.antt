-- ===== src/Tests/Fixtures.antt =====
-- A server, an orchestrator and an engine with concrete services: channels are numbers of free
-- places, texts are compared byte by byte, floats are numbers.
use Prim.Native.Nat.{compare}
use cca.Common.{
  ℕ, zero, suc, ◌+◌, ◌-◌, ◌*◌, ◌/◌, min, max, true, false, [], ◌∷◌, Option, none, some, String,
  str_eq, eq_iff, ltb, ◌==◌, F64,
}
use cca.Acp.Env.{Env, TrySend, accepted, full}
use cca.Acp.Message.{AcpMessage}
use cca.Acp.Auth.{AcpAuthConfig}
use cca.Acp.Connection.{AgentConnection, no_metrics}
use cca.Acp.Server.{AcpServer}
use cca.Core.Task.{Task, TaskResult}
use cca.Core.Task
use cca.Rl.State.{State, route_to_agent}
use cca.Core.Role.{backend}
use cca.Rl.Experience.{Experience}
use cca.Rl.Engine.{Draws}
use cca.Orchestrator.{AgentWorkload, Orchestrator, Services, PendingAggregation}

abbrev pub try_slot : ℕ → String → TrySend ℕ
try_slot zero text = full
try_slot (suc n) text = accepted n

abbrev pub env : Env ℕ
env = record {
  try_send = try_slot;
  channel = λ room. room;
  to_json = λ m. some "json";
  to_value = λ fields. some "value";
  object = λ fields. "object";
  quote = λ s. s;
  get_str = λ params key. some params;
  heartbeat_timestamp = λ params. none;
  of_codes = λ codes. "key";
  uuid_text = λ n. "id";
  nat_text = λ n. "n";
  ct_eq = str_eq;
  ct_eq_lem = λ a b same. eq_iff a b;
}

abbrev pub fl : F64 ℕ
fl = record {
  of_nat = λ n. n;
  decimal = λ n k. n;
  to_nat = λ x. x;
  negate = λ x. x;
  neg_infinity = 0;
  add = λ a b. a + b;
  sub = λ a b. a - b;
  mul = λ a b. a * b;
  div = λ a b. a / b;
  fmin = min;
  fmax = max;
  lt = ltb;
  eq = λ a b. a == b;
  partial_cmp = λ a b. some (compare a b);
  fixed2 = λ x. "0.00";
}

abbrev pub config : AcpAuthConfig
config = record { api_keys = "key" ∷ []; api_key_metadata = []; require_auth = true }

abbrev pub connection : ℕ → ℕ → AgentConnection ℕ
connection id room = record {
  agent_id = id;
  role = none;
  sender = room;
  connected_at = 0;
  last_heartbeat = 0;
  metadata = [];
  authenticated = false;
  authenticated_key = none;
  backpressure = no_metrics;
}

-- Agent 1 has room for two messages, agent 2 for none, and one drop cuts an agent off.
abbrev pub server : AcpServer ℕ
server = record {
  connections = (1, connection 1 2) ∷ (2, connection 2 0) ∷ [];
  pending_requests = ("request", record { created_at = 0 }) ∷ [];
  auth_config = config;
  backpressure_config = record { channel_capacity = 4; max_consecutive_drops = 1 };
  broadcasts = [];
  answers = [];
}

abbrev pub message : AcpMessage
message = record {
  jsonrpc = "2.0";
  id = some "7";
  method = some "agent.register";
  params = some "backend";
  result = none;
  error = none;
}

abbrev pub sv : Services
sv = record {
  task_json = λ t. some "task";
  assign_params = λ t. some "params";
  result_json = λ r d. some "result";
  publish = λ channel text. false;
  to_lowercase = λ s. s;
}

abbrev pub task : ℕ → Option ℕ → Task
task id parent = record {
  id = id;
  description = "task";
  status = Task.pending;
  assigned_to = none;
  parent_task = parent;
  priority = 5;
  token_budget = none;
  created_at = 0;
  started_at = none;
  completed_at = none;
  metadata = "null";
}

abbrev pub result : ℕ → TaskResult
result id = record {
  task_id = id;
  success = true;
  output = "done";
  tokens_used = 10;
  duration_ms = 5;
  error = none;
  metadata = "null";
}

abbrev pub workload : ℕ → ℕ → AgentWorkload ℕ
workload id current = record {
  agent_id = id;
  role = "backend";
  current_tasks = current;
  max_tasks = 3;
  capabilities = [];
  success_rate = 1;
  avg_completion_time = 0;
  tasks_completed = 0;
  tasks_failed = 0;
}

abbrev pub aggregation : PendingAggregation
aggregation = record {
  parent_task_id = 9;
  subtask_ids = 1 ∷ 2 ∷ [];
  results = [];
  required_count = 2;
}

-- Agents 1 and 2 with two tasks and one, and task 9 waiting for tasks 1 and 2.
abbrev pub orchestrator : Orchestrator ℕ ℕ
orchestrator = record {
  tasks = (1, task 1 (some 9)) ∷ (2, task 2 (some 9)) ∷ (9, task 9 none) ∷ [];
  agent_workloads = (1, workload 1 2) ∷ (2, workload 2 1) ∷ [];
  pending_aggregations = (9, aggregation) ∷ [];
  acp_server = none;
  redis = false;
  published = [];
  rl_service = none;
  use_rl_routing = false;
  task_start_times = [];
}

abbrev pub state : State ℕ
state = record {
  task_type = "task";
  available_agents = [];
  token_usage = 0;
  success_history = [];
  complexity = 1;
  features = [];
}

abbrev pub experience : ℕ → Experience ℕ
experience reward = record {
  state = state;
  action = route_to_agent backend;
  reward = reward;
  next_state = none;
  done = true;
}

abbrev pub draws : Draws ℕ
draws = record { choose = λ xs n. xs; draw = 1; pick_index = 0 }
