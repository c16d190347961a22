-- ===== src/Daemon.antt =====
-- crates/cca-daemon/src/daemon.rs: the table of tasks and the parts of the API handlers that decide.
pub mod Cleanup
pub mod Sanitizer
pub mod Extraction
pub mod Delegations
use cca.Common.{ℕ, Option, String}

-- Times are milliseconds.
pub record TaskState : Type 0 where
  pub task_id : String
  pub description : String
  pub status : String
  pub priority : String
  pub output : Option String
  pub error : Option String
  pub assigned_agent : Option String
  pub created_at : ℕ
  pub updated_at : ℕ
