-- ===== src/Core/Task.antt =====
-- crates/cca-core/src/task.rs. Identifiers are numbers (a UUID is a 128-bit number), instants are
-- numbers that the caller reads off the clock, and a JSON value is kept as its text.
pub mod Lifecycle
use cca.Common.{ℕ, ◌≡◌, Bool, true, false, Option, none, some, String}

pub data TaskStatus : Type 0 where
  pending : TaskStatus
  in_progress : TaskStatus
  completed : TaskStatus
  failed : String → TaskStatus
  cancelled : TaskStatus

pub record Task : Type 0 where
  pub id : ℕ
  pub description : String
  pub status : TaskStatus
  pub assigned_to : Option ℕ
  pub parent_task : Option ℕ
  pub priority : ℕ
  pub token_budget : Option ℕ
  pub created_at : ℕ
  pub started_at : Option ℕ
  pub completed_at : Option ℕ
  pub metadata : String

-- `Task::new`: the fresh identifier and the time are what `TaskId::new` and `Utc::now` return.
unfoldable pub new : ℕ → ℕ → String → Task
new id now description = record {
  id = id;
  description = description;
  status = pending;
  assigned_to = none;
  parent_task = none;
  priority = 5;
  token_budget = none;
  created_at = now;
  started_at = none;
  completed_at = none;
  metadata = "null";
}

unfoldable pub with_priority : ℕ → Task → Task
with_priority priority t = record t { priority = priority }

unfoldable pub with_budget : ℕ → Task → Task
with_budget budget t = record t { token_budget = some budget }

unfoldable pub with_parent : ℕ → Task → Task
with_parent parent t = record t { parent_task = some parent }

unfoldable pub assign_to : ℕ → Task → Task
assign_to agent t = record t { assigned_to = some agent }

unfoldable pub start : ℕ → Task → Task
start now t = record t { status = in_progress; started_at = some now }

unfoldable pub complete : ℕ → Task → Task
complete now t = record t { status = completed; completed_at = some now }

unfoldable pub fail : ℕ → String → Task → Task
fail now reason t = record t { status = failed reason; completed_at = some now }

unfoldable pub cancel : ℕ → Task → Task
cancel now t = record t { status = cancelled; completed_at = some now }

pub record TaskResult : Type 0 where
  pub task_id : ℕ
  pub success : Bool
  pub output : String
  pub tokens_used : ℕ
  pub duration_ms : ℕ
  pub error : Option String
  pub metadata : String

unfoldable pub success_result : ℕ → String → TaskResult
success_result task_id output = record {
  task_id = task_id;
  success = true;
  output = output;
  tokens_used = 0;
  duration_ms = 0;
  error = none;
  metadata = "null";
}

unfoldable pub failure_result : ℕ → String → TaskResult
failure_result task_id error = record {
  task_id = task_id;
  success = false;
  output = "";
  tokens_used = 0;
  duration_ms = 0;
  error = some error;
  metadata = "null";
}
