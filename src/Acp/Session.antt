-- ===== src/Acp/Session.antt =====
-- One connection at work (crates/cca-acp/src/server.rs): `handle_authenticate`, and the loop of
-- `handle_connection` over the frames that arrive.
pub mod Guard
pub mod Handling
pub mod Guarded
pub mod Interleaving
pub mod Refusal
use cca.Common.{
  ℕ, ◌/◌, ◌-◌, Bool, true, false, ◌||◌, List, [], ◌∷◌, Option, none, some, String, str_eq, any, ℤ,
  negsuc, if◌then◌else◌, ℕ_discrete,
}
use cca.Common.Map
use cca.Acp.Env.{Env}
use cca.Acp.Message.{
  AcpMessage, response, error_response, custom, invalid_request, method_not_found, internal_error,
}
use cca.Acp.Auth.{AcpAuthConfig, is_role_authorized, validate_api_key_for_handshake}
use cca.Acp.Connection.{
  AgentConnection, SendResult, sent, dropped, disconnect_slow_consumer, set_authenticated,
  try_send_with_backpressure,
}
use cca.Acp.Server.{AcpServer, put, receive_response}
use cca.Acp.Handler.{param, agent_field, handle}

-- What the loop does after a frame: `aborts` leaves `handle_connection` by its `?`.
pub data Outcome : Type 0 where
  continues breaks aborts : Outcome

pub data Frame : Type 0 where
  parsed : AcpMessage → Frame
  unparsable : Frame
  ping : String → Frame
  close : Frame
  failure : Frame
  other : Frame

abbrev pub has_method : String → Option String → Bool
has_method name none = false
has_method name (some method) = str_eq method name

abbrev pub is_authenticated : {C : Type 0} → Option (AgentConnection C) → Bool
is_authenticated none = false
is_authenticated (some conn) = conn.authenticated

abbrev after_try : SendResult → Outcome
after_try sent = continues
after_try dropped = continues
after_try disconnect_slow_consumer = breaks

module _ {C : Type 0} (env : Env C) where
  -- A message to the connection itself, and whether it is too slow for it.
  unfoldable pub respond : ℕ → ℕ → AcpMessage → AcpServer C → AcpServer C × Outcome
  unfolding put
  respond now agent_id message s = elim (Map.get ℕ_discrete agent_id s.connections) [
    | none ↦ (s, continues)
    | some conn ↦ elim (env.to_json message) [
      | none ↦ (s, aborts)
      | some json ↦
          let (conn', result) =
            try_send_with_backpressure env now s.backpressure_config.max_consecutive_drops json
              conn in
          (put agent_id conn' s, after_try result)
    ]
  ]

  unfoldable pub authenticate_key : ℕ → String → String → AcpServer C → AcpServer C × AcpMessage
  unfolding set_authenticated response error_response custom
  authenticate_key agent_id id key s =
      if validate_api_key_for_handshake env s.auth_config key
      then (
        record s {
          connections = Map.update ℕ_discrete agent_id (set_authenticated (some key)) s.connections;
        },
        response id (env.object (("success", "true") ∷ agent_field env agent_id ∷ [])),
      )
      else (s, error_response id (custom (negsuc 32000) "Invalid API key"))

  unfoldable pub handle_authenticate : ℕ → AcpMessage → AcpServer C → AcpServer C × AcpMessage
  unfolding authenticate_key error_response custom
  handle_authenticate agent_id message s = elim message.id [
    | none ↦ (s, error_response "0" invalid_request)
    | some id ↦ elim (param env "api_key" message.params) [
      | none ↦ (s, error_response id (custom (negsuc 32601) "Missing api_key parameter"))
      | some key ↦ authenticate_key agent_id id key s
    ]
  ]

  abbrev pub answer_pending : Option String → Option String → AcpMessage → AcpServer C → AcpServer C
  answer_pending (some id) none message s = receive_response id message s
  answer_pending (some id) (some method) message s = s
  answer_pending none method message s = s

  -- A message of an authenticated connection: an answer goes to its request, subscribers see every
  -- message, and the handler has it last.
  unfoldable pub process_authenticated : ℕ → ℕ → AcpMessage → AcpServer C → AcpServer C × Outcome
  unfolding handle respond
  process_authenticated now agent_id message s =
      let s1 = answer_pending message.id message.method message s in
      let s2 = record s1 { broadcasts = message ∷ s1.broadcasts } in
      let (s3, answer) = handle env now agent_id message s2 in
      elim answer [ none ↦ (s3, continues) | some m ↦ respond now agent_id m s3 ]

  unfoldable pub refuse : ℕ → ℕ → Option String → AcpServer C → AcpServer C × Outcome
  unfolding respond error_response custom
  refuse now agent_id none s = (s, continues)
  refuse now agent_id (some id) s =
      respond now agent_id (error_response id (custom (negsuc 32000) "Authentication required")) s

  unfoldable pub process_message : ℕ → ℕ → AcpMessage → AcpServer C → AcpServer C × Outcome
  unfolding handle_authenticate respond refuse process_authenticated
  process_message now agent_id message s =
      if has_method "agent.authenticate" message.method
      then (let (s', answer) = handle_authenticate agent_id message s in
          respond now agent_id answer s')
      else if is_authenticated (Map.get ℕ_discrete agent_id s.connections)
      then process_authenticated now agent_id message s
      else refuse now agent_id message.id s

  unfoldable pub try_pong : ℕ → ℕ → String → AcpServer C → AcpServer C × Outcome
  unfolding put
  try_pong now agent_id pong s = elim (Map.get ℕ_discrete agent_id s.connections) [
    | none ↦ (s, continues)
    | some conn ↦
        let (conn', result) =
          try_send_with_backpressure env now s.backpressure_config.max_consecutive_drops pong
            conn in
        (put agent_id conn' s, after_try result)
  ]

  unfoldable pub process_frame : ℕ → ℕ → Frame → AcpServer C → AcpServer C × Outcome
  unfolding process_message try_pong
  process_frame now agent_id (parsed message) s = process_message now agent_id message s
  process_frame now agent_id unparsable s = (s, continues)
  process_frame now agent_id (ping pong) s = try_pong now agent_id pong s
  process_frame now agent_id close s = (s, breaks)
  process_frame now agent_id failure s = (s, breaks)
  process_frame now agent_id other s = (s, continues)

  unfoldable pub clean_up : ℕ → AcpServer C → AcpServer C
  clean_up agent_id s = record s { connections = Map.remove ℕ_discrete agent_id s.connections }

  -- The loop over the frames, each with the time at which it arrives. The stream that ends and
  -- `break` lead to the cleanup, `?` does not.
  unfoldable pub run_frames : ℕ → List (ℕ × Frame) → AcpServer C → AcpServer C
  unfolding process_frame clean_up
  run_frames agent_id [] s = clean_up agent_id s
  run_frames agent_id ((now, frame) ∷ frames) s =
      let (s', outcome) = process_frame now agent_id frame s in
      elim outcome [
        | continues ↦ run_frames agent_id frames s'
        | breaks ↦ clean_up agent_id s'
        | aborts ↦ s'
      ]
