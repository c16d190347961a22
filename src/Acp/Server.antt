-- ===== src/Acp/Server.antt =====
-- `AcpServer` of crates/cca-acp/src/server.rs: the table of connections, sending to one of them,
-- broadcasting, and the requests that wait for an answer. A call that holds a lock to its end is one
-- function; the time of the call, in milliseconds, is an argument.
pub mod Sending
pub mod Broadcasting
pub mod Requests
use cca.Common.{
  ℕ, zero, suc, ◌+◌, ◌-◌, ◌≡◌, Bool, true, false, List, [], ◌∷◌, Option, none, some, String, ltb,
  if◌then◌else◌, ℕ_discrete, String_discrete, str_eq, find, map,
}
use cca.Common.Map
use cca.Common.Map.{Map}
use cca.Acp.Env.{Env}
use cca.Acp.Message.{AcpMessage, request}
use cca.Acp.Auth.{AcpAuthConfig}
use cca.Acp.Connection.{
  BackpressureConfig, AgentConnection, SendResult, sent, dropped, disconnect_slow_consumer,
  try_send_with_backpressure,
}

-- The sender of the oneshot channel is known by the identifier of its request.
pub record PendingRequest : Type 0 where
  pub created_at : ℕ

pub record AcpServer (C : Type 0) : Type 0 where
  pub connections : Map ℕ (AgentConnection C)
  pub pending_requests : Map String PendingRequest
  pub auth_config : AcpAuthConfig
  pub backpressure_config : BackpressureConfig
  -- The messages that went to the broadcast channel, and the answers that went to the oneshot
  -- channels of the requests, the last ones first.
  pub broadcasts : List AcpMessage
  pub answers : List (String × AcpMessage)

pub data SendError : Type 0 where
  serialization dropped_backpressure slow_consumption not_connected : SendError

pub data Sent : Type 0 where
  ok : Sent
  err : SendError → Sent

-- `BroadcastResult`.
pub record BroadcastResult : Type 0 where
  pub sent_count : ℕ
  pub dropped_count : ℕ
  pub disconnected : List ℕ

abbrev is_empty : List ℕ → Bool
is_empty [] = true
is_empty (x ∷ xs) = false

unfoldable pub had_backpressure : BroadcastResult → Bool
had_backpressure r =
    if ltb 0 r.dropped_count then true else (if is_empty r.disconnected then false else true)

abbrev has_role : String → Option String → Bool
has_role role none = false
has_role role (some r) = str_eq r role

-- `cleanup_pending_requests`: requests older than fifteen minutes go, their oneshot senders with
-- them.
unfoldable pub retain_recent : ℕ → Map String PendingRequest → Map String PendingRequest
retain_recent now [] = []
retain_recent now ((id, req) ∷ m) =
    let rest = retain_recent now m in
    if ltb (now - req.created_at) 900000 then (id, req) ∷ rest else rest

module _ {C : Type 0} where
  -- `disconnect`: whether there was such a connection.
  unfoldable pub disconnect : ℕ → AcpServer C → AcpServer C × Bool
  disconnect agent_id s = elim (Map.get ℕ_discrete agent_id s.connections) [
    | none ↦ (s, false)
    | some conn ↦ (record s { connections = Map.remove ℕ_discrete agent_id s.connections }, true)
  ]

  -- The connection as `get_mut` leaves it.
  unfoldable pub put : ℕ → AgentConnection C → AcpServer C → AcpServer C
  put agent_id conn s = record s {
    connections = Map.update ℕ_discrete agent_id (λ _. conn) s.connections;
  }

  -- The three branches of `send_to` on what the channel made of the message.
  unfoldable pub after_send : ℕ → AcpServer C → AgentConnection C × SendResult → AcpServer C × Sent
  unfolding put disconnect
  after_send agent_id s (conn, sent) = (put agent_id conn s, ok)
  after_send agent_id s (conn, dropped) = (put agent_id conn s, err dropped_backpressure)
  after_send agent_id s (conn, disconnect_slow_consumer) =
      ((disconnect agent_id (put agent_id conn s)).0, err slow_consumption)

  unfoldable pub register_agent_role : ℕ → String → AcpServer C → AcpServer C
  register_agent_role agent_id role s = record s {
    connections =
        Map.update ℕ_discrete agent_id (λ conn. record conn { role = some role }) s.connections;
  }

  -- The first connection, in the order of the table, with this role.
  unfoldable pub find_agent_by_role : String → AcpServer C → Option ℕ
  find_agent_by_role role s =
      elim (find (λ conn. has_role role conn.role) (Map.values s.connections)) [
        | none ↦ none
        | some conn ↦ some conn.agent_id
      ]

  unfoldable pub agents_with_roles : AcpServer C → List (ℕ × Option String)
  agents_with_roles s = map (λ conn. (conn.agent_id, conn.role)) (Map.values s.connections)

  unfoldable pub remove_all : List ℕ → Map ℕ (AgentConnection C) → Map ℕ (AgentConnection C)
  remove_all [] m = m
  remove_all (a ∷ ids) m = remove_all ids (Map.remove ℕ_discrete a m)

  unfoldable pub cleanup_pending_requests : ℕ → AcpServer C → AcpServer C
  unfolding retain_recent
  cleanup_pending_requests now s = record s {
    pending_requests = retain_recent now s.pending_requests;
  }

  -- An answer that arrives: its request stops waiting, and gets it.
  unfoldable pub receive_response : String → AcpMessage → AcpServer C → AcpServer C
  receive_response id message s = elim (Map.get String_discrete id s.pending_requests) [
    | none ↦ s
    | some req ↦ record s {
      pending_requests = Map.remove String_discrete id s.pending_requests;
      answers = (id, message) ∷ s.answers;
    }
  ]

  -- `request` when its time is over.
  unfoldable pub time_out : String → AcpServer C → AcpServer C
  time_out id s = record s { pending_requests = Map.remove String_discrete id s.pending_requests }

module _ {C : Type 0} (env : Env C) where
  unfoldable pub send_to : ℕ → ℕ → AcpMessage → AcpServer C → AcpServer C × Sent
  unfolding after_send try_send_with_backpressure
  send_to now agent_id message s = elim (env.to_json message) [
    | none ↦ (s, err serialization)
    | some json ↦ elim (Map.get ℕ_discrete agent_id s.connections) [
      | none ↦ (s, err not_connected)
      | some conn ↦
          after_send agent_id s (
            try_send_with_backpressure env now s.backpressure_config.max_consecutive_drops json
              conn)
    ]
  ]

  -- One round of the loop of `broadcast`, and those behind it.
  unfoldable pub send_all :
      ℕ → ℕ → String → Map ℕ (AgentConnection C) → Map ℕ (AgentConnection C) × BroadcastResult
  send_all now max_drops json [] =
      ([], record { sent_count = 0; dropped_count = 0; disconnected = [] })
  send_all now max_drops json ((a, conn) ∷ m) =
      let (rest, r) = send_all now max_drops json m in
      let (conn', result) = try_send_with_backpressure env now max_drops json conn in
      (
        (a, conn') ∷ rest,
        elim result [
          | sent ↦ record r { sent_count = suc r.sent_count }
          | dropped ↦ record r { dropped_count = suc r.dropped_count }
          | disconnect_slow_consumer ↦ record r { disconnected = conn.agent_id ∷ r.disconnected }
        ],
      )

  unfoldable pub broadcast : ℕ → AcpMessage → AcpServer C → AcpServer C × Option BroadcastResult
  unfolding send_all remove_all
  broadcast now message s = elim (env.to_json message) [
    | none ↦ (s, none)
    | some json ↦
        let (conns, r) =
          send_all now s.backpressure_config.max_consecutive_drops json s.connections in
        (
          record s {
            connections = remove_all r.disconnected conns;
            broadcasts = message ∷ s.broadcasts;
          },
          some r,
        )
  ]

  -- `request` up to its wait: `id` is the fresh UUID, and an error of `send_to` ends the call.
  unfoldable pub begin_request : ℕ → String → ℕ → String → String → AcpServer C → AcpServer C × Sent
  unfolding send_to request
  begin_request now id agent_id method params s =
      send_to now agent_id (request id method params) (record s {
        pending_requests =
            Map.insert String_discrete id (record { created_at = now }) s.pending_requests;
      })
