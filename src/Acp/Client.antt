-- ===== src/Acp/Client.antt =====
-- `AcpClient` of crates/cca-acp/src/client.rs: the connection manager that `connect` spawns, and the
-- calls that run beside it. Each event is one step; times are milliseconds.
pub mod Events
pub mod Backoff
pub mod Consistency
use cca.Common.{
  ℕ, zero, suc, ◌+◌, ◌*◌, ◌%◌, min, Bool, true, false, not, ◌&&◌, List, [], ◌∷◌, Option, none, some,
  String, String_discrete, if◌then◌else◌, ltb, leb, add_u32,
}
use cca.Common.Map
use cca.Common.Map.{Map}
use cca.Acp.Message.{AcpMessage, request, notification}

pub data ConnectionState : Type 0 where
  disconnected connecting connected reconnecting : ConnectionState

pub record AcpClientConfig : Type 0 where
  pub server_url : String
  pub reconnect_interval : ℕ
  -- 0 is unlimited.
  pub max_reconnect_attempts : ℕ
  pub heartbeat_interval : ℕ
  pub request_timeout : ℕ

abbrev pub default_config : AcpClientConfig
default_config = record {
  server_url = "ws://127.0.0.1:8581";
  reconnect_interval = 1000;
  max_reconnect_attempts = 0;
  heartbeat_interval = 30000;
  request_timeout = 30000;
}

-- Where the manager stands: not spawned, at the top of its loop, in `connect_async`, in the loop over
-- the messages, or at its end.
pub data Phase : Type 0 where
  idle starting dialing reading over : Phase

-- `shutdown` says whether a shutdown was sent that the manager has not read. The messages that went to
-- the channel of `connect`, the answers that went to waiting requests, and the delays that were slept
-- have the last one first.
pub record AcpClient (C : Type 0) : Type 0 where
  pub config : AcpClientConfig
  pub sender : Option C
  pub state : ConnectionState
  pub pending_requests : Map String (Unit {0})
  pub phase : Phase
  pub reconnect_attempts : ℕ
  pub reconnect_delay : ℕ
  pub shutdown : Bool
  pub forwarded : List AcpMessage
  pub answers : List (String × AcpMessage)
  pub sleeps : List ℕ

-- What the socket yields: a text and the message that it parses to, a ping, another frame, or the end
-- of the connection (a close frame, an error, the end of the stream).
pub data Incoming : Type 0 where
  message : Option AcpMessage → Incoming
  ping : String → Incoming
  other : Incoming
  ended : Incoming

pub data Sent : Type 0 where
  ok not_connected serialization failed_to_send : Sent

-- The channel to the write task, whose `send` waits for room and fails where the task has ended; JSON;
-- and whether the receiver that `connect` returned still takes messages.
pub record Channels (C : Type 0) : Type 0 where
  pub channel : C
  pub send : C → String → Option C
  pub to_json : AcpMessage → Option String
  pub receiver_open : Bool

abbrev pub max_delay : ℕ
max_delay = 60000

-- `rand_jitter` of the nanoseconds of the clock.
unfoldable pub rand_jitter : ℕ → ℕ
rand_jitter nanos = nanos % 500

abbrev pub is_connected_state : ConnectionState → Bool
is_connected_state connected = true
is_connected_state disconnected = false
is_connected_state connecting = false
is_connected_state reconnecting = false

abbrev pub is_running : Phase → Bool
is_running idle = false
is_running over = false
is_running starting = true
is_running dialing = true
is_running reading = true

-- The limit of the attempts, where there is one, is reached.
unfoldable pub gives_up : ℕ → ℕ → Bool
gives_up max_attempts attempts = ltb 0 max_attempts && leb max_attempts attempts

module _ {C : Type 0} where
  unfoldable pub with_config : AcpClientConfig → AcpClient C
  with_config config = record {
    config = config;
    sender = none;
    state = disconnected;
    pending_requests = [];
    phase = idle;
    reconnect_attempts = 0;
    reconnect_delay = config.reconnect_interval;
    shutdown = false;
    forwarded = [];
    answers = [];
    sleeps = [];
  }

  unfoldable pub is_connected : AcpClient C → Bool
  is_connected c = is_connected_state c.state

  -- The manager is spawned.
  unfoldable pub connect : AcpClient C → AcpClient C
  connect c = record c {
    phase = starting;
    reconnect_attempts = 0;
    reconnect_delay = c.config.reconnect_interval;
    shutdown = false;
  }

  -- The top of the loop: a shutdown ends it, else an attempt starts.
  unfoldable pub start_attempt : AcpClient C → AcpClient C
  start_attempt c = if c.shutdown then record c { phase = over } else record c {
    phase = dialing;
    state = if ltb 0 c.reconnect_attempts then reconnecting else connecting;
  }

  -- The end of a round: the state, the count of attempts, and the delay before the next one.
  unfoldable pub after_attempt : ℕ → AcpClient C → AcpClient C
  unfolding rand_jitter gives_up
  after_attempt nanos c =
      let attempts = add_u32 c.reconnect_attempts 1 in
      let counted = record c { state = disconnected; reconnect_attempts = attempts } in
      if gives_up c.config.max_reconnect_attempts attempts
      then record counted { phase = over }
      else record counted {
        phase = starting;
        sleeps = (c.reconnect_delay + rand_jitter nanos) ∷ c.sleeps;
        reconnect_delay = min (c.reconnect_delay * 2) max_delay;
      }

  -- `connect_async` has connected.
  unfoldable pub connected_to : Channels C → AcpClient C → AcpClient C
  connected_to ch c = record c {
    phase = reading;
    reconnect_attempts = 0;
    reconnect_delay = c.config.reconnect_interval;
    state = connected;
    sender = some ch.channel;
  }

  -- The connection is lost.
  unfoldable pub connection_lost : ℕ → AcpClient C → AcpClient C
  unfolding after_attempt
  connection_lost nanos c = after_attempt nanos (record c { sender = none })

  unfoldable pub forward : Channels C → ℕ → AcpMessage → AcpClient C → AcpClient C
  unfolding connection_lost
  forward ch nanos m c =
      if ch.receiver_open then record c { forwarded = m ∷ c.forwarded } else connection_lost nanos c

  abbrev pub answer_by :
      Option (Unit {0}) → Channels C → ℕ → String → AcpMessage → AcpClient C → AcpClient C
  answer_by none ch nanos id m c = forward ch nanos m c
  answer_by (some u) ch nanos id m c = record c {
    pending_requests = Map.remove String_discrete id c.pending_requests;
    answers = (id, m) ∷ c.answers;
  }

  -- A message with an identifier and without a method may answer a request.
  abbrev pub receive_by :
      Option String → Option String → Channels C → ℕ → AcpMessage → AcpClient C → AcpClient C
  receive_by none meth ch nanos m c = forward ch nanos m c
  receive_by (some id) (some s) ch nanos m c = forward ch nanos m c
  receive_by (some id) none ch nanos m c =
      answer_by (Map.get String_discrete id c.pending_requests) ch nanos id m c

  unfoldable pub receive_message : Channels C → ℕ → AcpMessage → AcpClient C → AcpClient C
  unfolding forward
  receive_message ch nanos m c = receive_by m.id m.method ch nanos m c

  -- A pong goes to the channel of the texts; that it fails is ignored.
  abbrev pub put_text : Channels C → String → Option C → Option C
  put_text ch text none = none
  put_text ch text (some s) = elim (ch.send s text) [ none ↦ some s | some s' ↦ some s' ]

  unfoldable pub incoming : Channels C → ℕ → Incoming → AcpClient C → AcpClient C
  unfolding receive_message connection_lost
  incoming ch nanos (message none) c = c
  incoming ch nanos (message (some m)) c = receive_message ch nanos m c
  incoming ch nanos (ping payload) c = record c { sender = put_text ch payload c.sender }
  incoming ch nanos other c = c
  incoming ch nanos ended c = connection_lost nanos c

  -- Only a manager that runs reads the shutdown.
  unfoldable pub disconnect : AcpClient C → AcpClient C
  disconnect c = record c { shutdown = is_running c.phase; sender = none; state = disconnected }

  abbrev pub send_by : Option C → Option String → Channels C → AcpClient C → AcpClient C × Sent
  send_by none json ch c = (c, not_connected)
  send_by (some s) none ch c = (c, serialization)
  send_by (some s) (some json) ch c = elim (ch.send s json) [
    | none ↦ (c, failed_to_send)
    | some s' ↦ (record c { sender = some s' }, ok)
  ]

  unfoldable pub send : Channels C → AcpMessage → AcpClient C → AcpClient C × Sent
  send ch m c = send_by c.sender (ch.to_json m) ch c

  -- `request_with_timeout` up to its wait; `id` is a fresh UUID.
  unfoldable pub begin_request :
      Channels C → String → String → String → AcpClient C → AcpClient C × Sent
  unfolding send request
  begin_request ch id method params c =
      send ch (request id method params)
        (record c { pending_requests = Map.insert String_discrete id tt c.pending_requests })

  -- Its end by timeout.
  unfoldable pub time_out : String → AcpClient C → AcpClient C
  time_out id c = record c { pending_requests = Map.remove String_discrete id c.pending_requests }

  unfoldable pub notify : Channels C → String → String → AcpClient C → AcpClient C × Sent
  unfolding send notification
  notify ch method params = send ch (notification method params)

  -- The shutdown is read in the loop over the messages.
  unfoldable pub read_shutdown : AcpClient C → AcpClient C
  read_shutdown c = if c.shutdown then record c { phase = over } else c
