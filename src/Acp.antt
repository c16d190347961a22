-- ===== src/Acp.antt =====
-- crates/cca-acp: the WebSocket server through which the agents talk to the daemon.
pub mod Message
pub mod Env
pub mod Percent
pub mod Auth
pub mod Connection
pub mod Server
pub mod Handshake
pub mod Handler
pub mod Session
pub mod Client
