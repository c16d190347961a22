-- ===== src/Acp/Handler.antt =====
-- `DefaultHandler` of crates/cca-acp/src/server.rs: what the daemon does with a message of an
-- authenticated connection.
use cca.Common.{
  ℕ, ◌/◌, ◌-◌, Bool, true, false, [], ◌∷◌, Option, none, some, String, str_eq, if◌then◌else◌,
  ℕ_discrete,
}
use cca.Common.Map
use cca.Acp.Env.{Env}
use cca.Acp.Message.{
  AcpMessage, response, error_response, invalid_request, method_not_found, internal_error,
}
use cca.Acp.Auth.{AcpAuthConfig, is_role_authorized}
use cca.Acp.Connection.{AgentConnection}
use cca.Acp.Server.{AcpServer}

module _ {C : Type 0} (env : Env C) where
  abbrev pub param : String → Option String → Option String
  param key none = none
  param key (some params) = env.get_str params key

  abbrev pub agent_field : ℕ → String × String
  agent_field agent_id = ("agent_id", env.quote (env.uuid_text agent_id))

  -- Whether a connection may take a role.
  unfoldable pub may_register : AcpAuthConfig → String → AgentConnection C → Bool
  may_register config role conn =
      if config.require_auth
      then elim conn.authenticated_key [
        | some key ↦ is_role_authorized env config key role
        | none ↦ if config.require_auth then false else true
      ]
      else true

  abbrev pub refused : String → String
  refused reason = env.object (("success", "false") ∷ ("error", env.quote reason) ∷ [])

  abbrev pub accepted_role : ℕ → String → String
  accepted_role agent_id role =
      env.object (("success", "true") ∷ agent_field agent_id ∷ ("role", env.quote role) ∷ [])

  -- The JSON text of the answer. An agent that is not in the table is told that it succeeded.
  unfoldable pub register_role : ℕ → String → AcpServer C → AcpServer C × String
  unfolding may_register
  register_role agent_id role s = elim (Map.get ℕ_discrete agent_id s.connections) [
    | none ↦ (s, accepted_role agent_id role)
    | some conn ↦
        if may_register s.auth_config role conn
        then (
          record s {
            connections =
                Map.update ℕ_discrete agent_id (λ c. record c { role = some role }) s.connections;
          },
          accepted_role agent_id role,
        )
        else (s, refused "Role registration not authorized")
  ]

  unfoldable pub handle_register : ℕ → Option String → AcpServer C → AcpServer C × String
  unfolding register_role
  handle_register agent_id params s = elim (param "role" params) [
    | none ↦ (s, refused "Missing role parameter")
    | some role ↦ register_role agent_id role s
  ]

  abbrev pub or_internal_error : String → String → Option String → AcpMessage
  or_internal_error id reason none = error_response id (internal_error reason)
  or_internal_error id reason (some value) = response id value

  abbrev pub timestamp_or : String → Option String → String
  timestamp_or default none = default
  timestamp_or default (some params) = elim (env.heartbeat_timestamp params) [
    | none ↦ default
    | some timestamp ↦ timestamp
  ]

  unfoldable pub handle_heartbeat :
      ℕ → ℕ → String → Option String → AcpServer C → AcpServer C × AcpMessage
  unfolding response error_response
  handle_heartbeat now from id params s =
      let server_time = env.nat_text (now / 1000) in
      (
        record s {
          connections =
              Map.update ℕ_discrete from (λ c. record c { last_heartbeat = now }) s.connections;
        },
        or_internal_error id "Serialization failed" (
            env.to_value
              (("timestamp", timestamp_or server_time params) ∷ ("server_time", server_time) ∷ [])),
      )

  unfoldable pub handle_get_status : ℕ → ℕ → String → AcpServer C → AcpMessage
  unfolding response error_response
  handle_get_status now from id s = elim (Map.get ℕ_discrete from s.connections) [
    | none ↦ error_response id invalid_request
    | some conn ↦ or_internal_error id "Serialization failed" (
        env.to_value (
          ("agent_id", env.quote (env.uuid_text from))
          ∷ ("state", env.quote "connected")
          ∷ ("current_task", "null")
          ∷ ("uptime_seconds", env.nat_text ((now - conn.connected_at) / 1000))
          ∷ []))
  ]

  unfoldable pub handle_method :
      ℕ → ℕ → String → String → Option String → AcpServer C → AcpServer C × AcpMessage
  unfolding handle_register handle_heartbeat handle_get_status response error_response
  handle_method now from id method params s =
      if str_eq method "agent.register"
      then (let (s', result) = handle_register from params s in (s', response id result))
      else if str_eq method "heartbeat"
      then handle_heartbeat now from id params s
      else if str_eq method "getStatus"
      then (s, handle_get_status now from id s)
      else (s, error_response id method_not_found)

  -- `DefaultHandler::handle`.
  unfoldable pub handle : ℕ → ℕ → AcpMessage → AcpServer C → AcpServer C × Option AcpMessage
  unfolding handle_method
  handle now from message s = elim message.method [
    | none ↦ (s, none)
    | some method ↦ elim message.id [
      | none ↦ (s, none)
      | some id ↦
          let (s', answer) = handle_method now from id method message.params s in (s', some answer)
    ]
  ]
