-- ===== src/Config/Permissions.antt =====
-- Which tools an agent is denied (crates/cca-daemon/src/config.rs and agent_manager.rs).
use cca.Common.{List, String, Has}
use cca.Config.{Argument, flag, joined}

-- The arguments say that these tools are denied.
abbrev pub Denies : List String → List Argument → Type 0
Denies tools args = Has (flag "--disallowedTools") args × Has (joined tools) args
