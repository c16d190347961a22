-- ===== src/Core.antt =====
-- crates/cca-core/src: the types that the daemon, the ACP server and the learner share.
pub mod Task
pub mod Role
