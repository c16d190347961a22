-- ===== src/Tests.antt =====
-- Concrete runs of the components: for each theorem with hypotheses, a case in which they hold.
mod Fixtures
pub mod Protocol
pub mod Routing
pub mod Learning
pub mod Access
pub mod Contexts
pub mod Client
pub mod Agency
pub mod Mcp
