-- ===== src/Rl.antt =====
-- crates/cca-rl and crates/cca-daemon/src/rl.rs: the learner that routes tasks.
pub mod State
pub mod Experience
pub mod QLearning
pub mod Engine
pub mod Service
