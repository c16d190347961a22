-- ===== src/Acp/Session/Refusal.antt =====
-- What a connection that has not authenticated can do (crates/cca-acp/src/server.rs).
use cca.Common.{ℕ, ◌≡◌, Bool, Option, none, some, String, ℕ_discrete}
use cca.Common.Map
use cca.Acp.Env.{Env}
use cca.Acp.Connection.{AgentConnection}
use cca.Acp.Server.{AcpServer}

-- What a connection may do: its role, whether it is authenticated, and by which key.
abbrev pub rights :
    {C : Type 0} → Option (AgentConnection C) → Option (Option String × Bool × Option String)
rights none = none
rights (some conn) = some (conn.role, conn.authenticated, conn.authenticated_key)

-- Nothing is delivered, published or granted.
pub record Unmoved {C : Type 0} (s' s : AcpServer C) : Type 0 where
  pub pending_requests : s'.pending_requests ≡ s.pending_requests
  pub broadcasts : s'.broadcasts ≡ s.broadcasts
  pub answers : s'.answers ≡ s.answers
  pub rights_kept :
      (j : ℕ)
      → rights (Map.get ℕ_discrete j s'.connections) ≡ rights (Map.get ℕ_discrete j s.connections)
