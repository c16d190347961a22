-- ===== src/Acp/Connection.antt =====
-- A connection and its backpressure (crates/cca-acp/src/server.rs): `BackpressureMetrics`,
-- `AgentConnection` and sending into the bounded channel of a connection. The time of the call is
-- an argument. The counters are u64 and u32 of the release profile.
pub mod Backpressure
use cca.Common.{
  ℕ, Bool, true, false, List, [], Option, none, some, String, leb, if◌then◌else◌, add_u32, add_u64,
}
use cca.Common.Map.{Map}
use cca.Acp.Env.{Env, TrySend, accepted, full, closed}

pub record BackpressureConfig : Type 0 where
  pub channel_capacity : ℕ
  pub max_consecutive_drops : ℕ

pub record BackpressureMetrics : Type 0 where
  pub messages_dropped : ℕ
  pub consecutive_drops : ℕ
  pub messages_sent : ℕ
  pub last_drop_time : Option ℕ

abbrev pub no_metrics : BackpressureMetrics
no_metrics = record {
  messages_dropped = 0;
  consecutive_drops = 0;
  messages_sent = 0;
  last_drop_time = none;
}

unfoldable pub record_send : BackpressureMetrics → BackpressureMetrics
record_send b = record b { messages_sent = add_u64 b.messages_sent 1; consecutive_drops = 0 }

unfoldable pub record_drop : ℕ → BackpressureMetrics → BackpressureMetrics
record_drop now b = record b {
  messages_dropped = add_u64 b.messages_dropped 1;
  consecutive_drops = add_u32 b.consecutive_drops 1;
  last_drop_time = some now;
}

unfoldable pub should_disconnect : ℕ → BackpressureMetrics → Bool
should_disconnect max_consecutive_drops b = leb max_consecutive_drops b.consecutive_drops

pub data SendResult : Type 0 where
  sent dropped disconnect_slow_consumer : SendResult

pub record AgentConnection (C : Type 0) : Type 0 where
  pub agent_id : ℕ
  pub role : Option String
  pub sender : C
  pub connected_at : ℕ
  pub last_heartbeat : ℕ
  pub metadata : Map String String
  pub authenticated : Bool
  pub authenticated_key : Option String
  pub backpressure : BackpressureMetrics

module _ {C : Type 0} where
  unfoldable pub new : ℕ → ℕ → C → AgentConnection C
  new now agent_id sender = record {
    agent_id = agent_id;
    role = none;
    sender = sender;
    connected_at = now;
    last_heartbeat = now;
    metadata = [];
    authenticated = false;
    authenticated_key = none;
    backpressure = no_metrics;
  }

  unfoldable pub set_authenticated : Option String → AgentConnection C → AgentConnection C
  set_authenticated api_key conn = record conn { authenticated = true; authenticated_key = api_key }

  -- The three answers of the channel.
  unfoldable pub after_try_send :
      ℕ → ℕ → AgentConnection C → TrySend C → AgentConnection C × SendResult
  unfolding record_send record_drop should_disconnect
  after_try_send now max_drops conn (accepted channel) =
      (record conn { sender = channel; backpressure = record_send conn.backpressure }, sent)
  after_try_send now max_drops conn full =
      let dropping = record_drop now conn.backpressure in
      (
        record conn { backpressure = dropping },
        if should_disconnect max_drops dropping then disconnect_slow_consumer else dropped,
      )
  after_try_send now max_drops conn closed = (conn, disconnect_slow_consumer)

  unfoldable pub try_send_with_backpressure :
      Env C → ℕ → ℕ → String → AgentConnection C → AgentConnection C × SendResult
  unfolding after_try_send
  try_send_with_backpressure env now max_drops message conn =
      after_try_send now max_drops conn (env.try_send conn.sender message)
