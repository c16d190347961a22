-- ===== src/Tests/Protocol.antt =====
-- The ACP server and the types of cca-core on concrete messages.
use cca.Common.{
  ℕ, ◌≡◌, refl, ◌↔◌, true, List, [], ◌∷◌, none, some, ite, ℕ_discrete, String_discrete, arith, inl,
  inr, if_pos,
}
use cca.Common.Map
use cca.Acp.Auth.{is_role_authorized}
use cca.Acp.Auth.Keys.{Grants, is_role_authorized_iff}
use cca.Acp.Connection.{try_send_with_backpressure}
use cca.Acp.Server.{AcpServer, send_to, broadcast}
use cca.Acp.Server.Sending.{survivor, delivered, get-send_to}
use cca.Acp.Server.Broadcasting.{keep, get-broadcast}
use cca.Acp.Handshake.{UpgradeRequest, text}
use cca.Acp.Session.{Frame, parsed, close}
use cca.Acp.Session.Guard.{Inv}
use cca.Acp.Session.Interleaving
use cca.Acp.Session.Interleaving.{Event, opens, receives, drains, announces, run-guarded}
use cca.Acp.Percent.{percent_decode}
use cca.Acp.Percent.Escapes.{escape_all, percent_decode-escape_all}
use cca.Tests.Fixtures.{env, config, server, message}

-- An upgrade request with the key in its header, and two frames: a registration and the end.
abbrev upgrade : UpgradeRequest
upgrade = record {
  query = none;
  x_api_key = some (text (107 ∷ 101 ∷ 121 ∷ []));
  authorization = none;
}

abbrev frames : List (ℕ × Frame)
frames = (1, parsed message) ∷ (2, close) ∷ []

abbrev empty_server : AcpServer ℕ
empty_server = record server { connections = [] }

-- Two agents connect, one registers, and a broadcast follows.
abbrev events : List (Event ℕ)
events =
    opens 0 3 upgrade
    ∷ opens 1 4 upgrade
    ∷ receives 2 3 (parsed message)
    ∷ drains 3 2
    ∷ announces 3 message
    ∷ []

run-guarded_example : Inv env config (Interleaving.run env events empty_server)
run-guarded_example = run-guarded env config refl events empty_server refl refl

get-broadcast_example :
    Map.get ℕ_discrete 2 (broadcast env 5 message server).0.connections
    ≡ keep
        (λ conn. survivor (try_send_with_backpressure env 5 1 "json" conn))
        (Map.get ℕ_discrete 2 server.connections)
get-broadcast_example =
    get-broadcast env 5 message server "json" 2 refl (refl, (refl, tt))
      ((λ h. elim h [ inl e ↦ ground arith | inr q ↦ q ]), ((λ h. h), tt))

get-send_to_example :
    Map.get ℕ_discrete 1 (send_to env 5 2 message server).0.connections
    ≡ ite
        (ℕ_discrete 2 1)
        (delivered env 5 2 message server (some "json") (Map.get ℕ_discrete 2 server.connections))
        (Map.get ℕ_discrete 1 server.connections)
get-send_to_example = get-send_to env 5 2 message server 1

is_role_authorized_iff_example :
    (is_role_authorized env config "key" "backend" ≡ true)
    ↔ Grants config.api_key_metadata config.api_keys "key" "backend"
is_role_authorized_iff_example = is_role_authorized_iff env config "key" "backend"

found : Map.get String_discrete "request" server.pending_requests ≡ some (record { created_at = 0 })
unfolding Map.get
found = if_pos (String_discrete "request" "request") refl _ _

percent_decode-escape_all_example :
    percent_decode (escape_all (107 ∷ 43 ∷ [])) ≡ some (107 ∷ 43 ∷ [])
percent_decode-escape_all_example =
    percent_decode-escape_all (107 ∷ 43 ∷ []) (omega arith, (omega arith, tt))
