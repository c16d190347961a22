-- ===== src/Acp/Server/Sending.antt =====
-- What `send_to` of crates/cca-acp/src/server.rs does to the table of connections.
use cca.Common.{
  ℕ, ◌≡◌, refl, ◌↔◌, inl, inr, Option, none, some, String, arith, ite, ℕ_discrete, Option-cases,
}
use cca.Common.Map
use cca.Common.Map.{Map, get-update, get-remove}
use cca.Acp.Env.{Env, TrySend, accepted, full, closed}
use cca.Acp.Message.{AcpMessage}
use cca.Acp.Connection.{
  AgentConnection, SendResult, sent, dropped, disconnect_slow_consumer, try_send_with_backpressure,
  after_try_send,
}
use cca.Acp.Server.{AcpServer, ok, disconnect, put, after_send, send_to}

module _ {C : Type 0} where
  -- The connection that is left, if any.
  abbrev pub survivor : AgentConnection C × SendResult → Option (AgentConnection C)
  survivor (conn, sent) = some conn
  survivor (conn, dropped) = some conn
  survivor (conn, disconnect_slow_consumer) = none

  get-after_send :
      (j agent_id : ℕ) (s : AcpServer C) (old conn : AgentConnection C) (r : SendResult)
      → Map.get ℕ_discrete agent_id s.connections ≡ some old
      → Map.get ℕ_discrete j (after_send agent_id s (conn, r)).0.connections
        ≡ ite (ℕ_discrete agent_id j) (survivor (conn, r)) (Map.get ℕ_discrete j s.connections)
  unfolding after_send put disconnect
  get-after_send j agent_id s old conn sent h =
      ground
        (arith, get-update ℕ_discrete j agent_id (λ (c : AgentConnection C). conn) s.connections)
  get-after_send j agent_id s old conn dropped h =
      ground
        (arith, get-update ℕ_discrete j agent_id (λ (c : AgentConnection C). conn) s.connections)
  get-after_send j agent_id s old conn disconnect_slow_consumer h = ground (
    arith,
    get-update ℕ_discrete j agent_id (λ (c : AgentConnection C). conn) s.connections,
    get-update ℕ_discrete agent_id agent_id (λ (c : AgentConnection C). conn) s.connections,
    get-remove ℕ_discrete j agent_id
        (Map.update ℕ_discrete agent_id (λ (c : AgentConnection C). conn) s.connections),
  )

  TrySend-accepted :
      (now max_drops agent_id : ℕ) (s : AcpServer C) (conn : AgentConnection C) (t : TrySend C)
      → (after_send agent_id s (after_try_send now max_drops conn t)).1 ≡ ok
      → (channel : C) × (t ≡ accepted channel)
  unfolding after_send after_try_send
  TrySend-accepted now max_drops agent_id s conn (accepted channel) h = (channel, refl)
  TrySend-accepted now max_drops agent_id s conn full h = absurd (ground arith)
  TrySend-accepted now max_drops agent_id s conn closed h = absurd (ground arith)

module _ {C : Type 0} (env : Env C) (now agent_id : ℕ) (message : AcpMessage)
    (s : AcpServer C) where
  abbrev max_drops : ℕ
  max_drops = s.backpressure_config.max_consecutive_drops

  -- What is left of the addressed connection.
  abbrev pub delivered : Option String → Option (AgentConnection C) → Option (AgentConnection C)
  delivered none old = old
  delivered (some json) none = none
  delivered (some json) (some conn) =
      survivor (try_send_with_backpressure env now max_drops json conn)

  -- `send_to` changes the addressed connection alone: it keeps it with its new counters, or removes
  -- it where the channel is closed or the consumer too slow. Every other connection, and a message
  -- that cannot be serialised, leave the table as it was.
  pub get-send_to :
      (j : ℕ)
      → Map.get ℕ_discrete j (send_to env now agent_id message s).0.connections
        ≡ ite
            (ℕ_discrete agent_id j)
            (delivered (env.to_json message) (Map.get ℕ_discrete agent_id s.connections))
            (Map.get ℕ_discrete j s.connections)
  unfolding send_to
  get-send_to j = elim (Option-cases (env.to_json message)) [
    | inl e ↦ rw (e, send_to) (ground arith)
    | inr (json, e) ↦ elim (Option-cases (Map.get ℕ_discrete agent_id s.connections)) [
      | inl gone ↦ rw (e, send_to, gone) (ground arith)
      | inr (conn, found) ↦
          let (conn', r) = try_send_with_backpressure env now max_drops json conn in
          rw (e, send_to, found) (get-after_send j agent_id s conn conn' r found)
    ]
  ]

  -- `send_to` succeeds exactly when the message can be serialised, the agent is connected, and its
  -- channel takes the message.
  pub send_to-ok_iff : ((send_to env now agent_id message s).1 ≡ ok) ↔ (
      (json : String) × (conn : AgentConnection C) × (channel : C) × (env.to_json message
        ≡ some json)
      × (Map.get ℕ_discrete agent_id s.connections ≡ some conn)
      × (env.try_send conn.sender json ≡ accepted channel))
  unfolding send_to
  send_to-ok_iff = (accepts, λ h. ground arith)
    where
      accepts :
          (send_to env now agent_id message s).1 ≡ ok
          → (json : String) × (conn : AgentConnection C) × (channel : C) × (env.to_json message
              ≡ some json)
            × (Map.get ℕ_discrete agent_id s.connections ≡ some conn)
            × (env.try_send conn.sender json ≡ accepted channel)
      accepts h = elim (Option-cases (env.to_json message)) [
        | inl e ↦ absurd (ground arith)
        | inr (json, e) ↦ elim (Option-cases (Map.get ℕ_discrete agent_id s.connections)) [
          | inl gone ↦ absurd (ground arith)
          | inr (conn, found) ↦
              let (channel, taken) =
                TrySend-accepted now max_drops agent_id s conn (env.try_send conn.sender json)
                  (ground arith) in
              (json, conn, channel, e, found, taken)
        ]
      ]
