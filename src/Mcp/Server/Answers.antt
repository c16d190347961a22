-- ===== src/Mcp/Server/Answers.antt =====
-- The responses that the MCP server writes (crates/cca-mcp/src/server.rs).
use cca.Common.{◌≡◌, List, [], ◌∷◌, Option, none, some}
use cca.Mcp.{JsonRpcResponse}
use cca.Mcp.Server.{Line, blank, request, malformed, unreadable}

module _ {J : Type 0} where
  -- A result or an error, and not both.
  abbrev HasOne : Option J → Option (cca.Mcp.JsonRpcError J) → Type 0
  HasOne none none = ⊥
  HasOne none (some e) = Unit {0}
  HasOne (some r) none = Unit {0}
  HasOne (some r) (some e) = ⊥

  -- A response of the version 2.0 with this identifier.
  abbrev pub Answers : J → JsonRpcResponse J → Type 0
  Answers id r = (r.id ≡ id) × (r.jsonrpc ≡ "2.0") × HasOne r.result r.error

  abbrev pub AllReadable : List (Line J) → Type 0
  AllReadable [] = Unit {0}
  AllReadable (blank ∷ lines) = AllReadable lines
  AllReadable (request r ∷ lines) = AllReadable lines
  AllReadable (malformed ∷ lines) = AllReadable lines
  AllReadable (unreadable ∷ lines) = ⊥

  -- The lines that are not blank are answered one by one, a malformed one under null.
  abbrev pub AreAnswered : J → List (Line J) → List (JsonRpcResponse J) → Type 0
  AreAnswered null [] [] = Unit {0}
  AreAnswered null [] (r ∷ rs) = ⊥
  AreAnswered null (blank ∷ lines) rs = AreAnswered null lines rs
  AreAnswered null (unreadable ∷ lines) rs = ⊥
  AreAnswered null (request q ∷ lines) [] = ⊥
  AreAnswered null (request q ∷ lines) (r ∷ rs) = Answers q.id r × AreAnswered null lines rs
  AreAnswered null (malformed ∷ lines) [] = ⊥
  AreAnswered null (malformed ∷ lines) (r ∷ rs) = Answers null r × AreAnswered null lines rs
