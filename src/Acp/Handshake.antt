-- ===== src/Acp/Handshake.antt =====
-- The API key of a WebSocket handshake (crates/cca-acp/src/server.rs): where it is looked for, and
-- the connection that the handshake opens. Query and header values are lists of code points.
use cca.Common.{
  ℕ, Bool, true, false, not, List, [], ◌∷◌, Option, none, some, String, ◌==◌, if◌then◌else◌,
  ℕ_discrete,
}
use cca.Common.Map
use cca.Acp.Env.{Env}
use cca.Acp.Percent.{percent_decode}
use cca.Acp.Auth.{AcpAuthConfig, validate_api_key_for_handshake}
use cca.Acp.Connection.{new, set_authenticated}
use cca.Acp.Server.{AcpServer}

-- A header value: `to_str` fails on one that is not visible ASCII.
pub data Header : Type 0 where
  text : List ℕ → Header
  opaque : Header

pub record UpgradeRequest : Type 0 where
  pub query : Option (List ℕ)
  pub x_api_key : Option Header
  pub authorization : Option Header

-- `str::split` at one character: the piece before the first one, and the others.
unfoldable pub split_first : ℕ → List ℕ → List ℕ × List (List ℕ)
split_first sep [] = ([], [])
split_first sep (c ∷ cs) =
    let (piece, pieces) = split_first sep cs in
    if c == sep then ([], piece ∷ pieces) else (c ∷ piece, pieces)

unfoldable pub split : ℕ → List ℕ → List (List ℕ)
unfolding split_first
split sep cs = let (piece, pieces) = split_first sep cs in piece ∷ pieces

unfoldable pub strip_prefix : List ℕ → List ℕ → Option (List ℕ)
strip_prefix [] cs = some cs
strip_prefix (p ∷ ps) [] = none
strip_prefix (p ∷ ps) (c ∷ cs) = if c == p then strip_prefix ps cs else none

abbrev pub token_prefix : List ℕ
token_prefix = b't' ∷ b'o' ∷ b'k' ∷ b'e' ∷ b'n' ∷ b'=' ∷ []

abbrev pub bearer_prefix : List ℕ
bearer_prefix = b'B' ∷ b'e' ∷ b'a' ∷ b'r' ∷ b'e' ∷ b'r' ∷ b' ' ∷ []

-- The first pair of the query that starts with `token=`.
unfoldable pub find_token : List (List ℕ) → Option (List ℕ)
unfolding strip_prefix
find_token [] = none
find_token (pair ∷ pairs) = elim (strip_prefix token_prefix pair) [
  | some value ↦ some value
  | none ↦ find_token pairs
]

unfoldable pub bearer_token : Option Header → Option (List ℕ)
unfolding strip_prefix
bearer_token none = none
bearer_token (some opaque) = none
bearer_token (some (text value)) = strip_prefix bearer_prefix value

unfoldable pub header_key : Option Header → Option Header → Option (List ℕ)
unfolding bearer_token
header_key (some (text key)) authorization = some key
header_key (some opaque) authorization = bearer_token authorization
header_key none authorization = bearer_token authorization

abbrev query_token : Option (List ℕ) → Option (List ℕ)
query_token none = none
query_token (some query) = find_token (split b'&' query)

-- A token that cannot be decoded ends the search: the headers are not read.
unfoldable pub extract_api_key_from_request : UpgradeRequest → Option (List ℕ)
unfolding header_key find_token split percent_decode
extract_api_key_from_request r = elim (query_token r.query) [
  | some value ↦ percent_decode value
  | none ↦ header_key r.x_api_key r.authorization
]

pub record HandshakeAuthResult : Type 0 where
  pub authenticated : Bool
  pub api_key : Option String

module _ {C : Type 0} (env : Env C) where
  -- The callback of `accept_hdr_async`.
  unfoldable pub handshake : AcpAuthConfig → UpgradeRequest → HandshakeAuthResult
  handshake config r =
      if not config.require_auth
      then record { authenticated = true; api_key = none }
      else elim (extract_api_key_from_request r) [
        | none ↦ record { authenticated = false; api_key = none }
        | some key ↦
            if validate_api_key_for_handshake env config (env.of_codes key)
            then record { authenticated = true; api_key = some (env.of_codes key) }
            else record { authenticated = false; api_key = none }
      ]

  -- The registration of the connection in `handle_connection`, under the fresh identifier.
  unfoldable pub open_connection : ℕ → ℕ → HandshakeAuthResult → AcpServer C → AcpServer C
  unfolding new set_authenticated
  open_connection now agent_id auth s =
      let conn = new now agent_id (env.channel s.backpressure_config.channel_capacity) in
      let conn' =
        if auth.authenticated
        then set_authenticated auth.api_key conn
        else if not s.auth_config.require_auth
        then set_authenticated none conn
        else conn in
      record s { connections = Map.insert ℕ_discrete agent_id conn' s.connections }
