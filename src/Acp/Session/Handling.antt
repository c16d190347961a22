-- ===== src/Acp/Session/Handling.antt =====
-- What the handler keeps of the guarded table (crates/cca-acp/src/server.rs): registration grants a
-- role that some key opens.
use cca.Common.{
  ℕ, ◌≡◌, true, Option, some, String, arith, ℕ_discrete, str_eq, Option-cases, inl, inr, if-elim,
  subst,
}
use cca.Common.Map
use cca.Common.Map.{
  Map, AllValues, AllValues-get, update-AllValues, insert-AllValues, remove-AllValues,
}
use cca.Acp.Env.{Env}
use cca.Acp.Message.{AcpMessage}
use cca.Acp.Auth.{AcpAuthConfig, is_role_authorized}
use cca.Acp.Connection.{AgentConnection}
use cca.Acp.Server.{AcpServer}
use cca.Acp.Handler.{
  param, may_register, register_role, handle_register, handle_heartbeat, handle_method, handle,
}
use cca.Acp.Session.Guard.{IsGuarded, Inv}

module _ {C : Type 0} (env : Env C) (config : AcpAuthConfig)
    (required : config.require_auth ≡ true) where
  may_register-authorized :
      (role : String) (conn : AgentConnection C)
      → may_register env config role conn ≡ true
      → (key : String) × (is_role_authorized env config key role ≡ true)
  unfolding may_register
  may_register-authorized role conn h = elim (Option-cases conn.authenticated_key) [
    | inl e ↦ absurd (ground arith)
    | inr (key, e) ↦ (key, ground arith)
  ]

  set_role-IsGuarded :
      (role key : String) (c : AgentConnection C)
      → is_role_authorized env config key role ≡ true
      → IsGuarded env config c
      → IsGuarded env config (record c { role = some role })
  set_role-IsGuarded role key c ok g = record {
    shown = g.shown;
    known = g.known;
    opened = λ r e. (key, ground arith);
  }

  register_role-Inv :
      (a : ℕ) (role : String) (s : AcpServer C)
      → Inv env config s
      → Inv env config (register_role env a role s).0
  unfolding register_role
  register_role-Inv a role s v = elim (Option-cases (Map.get ℕ_discrete a s.connections)) [
    | inl e ↦ rw (e, register_role) v
    | inr (conn, e) ↦
        rw (e, register_role)
          (if-elim (λ (r : AcpServer C × String). Inv env config r.0)
            (may_register env s.auth_config role conn)
            (λ allowed.
              let (key, ok) =
                may_register-authorized role conn
                  (subst (λ c. may_register env c role conn ≡ true) v.same allowed) in
              record {
                same = v.same;
                all =
                    update-AllValues ℕ_discrete (IsGuarded env config) a
                      (λ c. record c { role = some role }) s.connections
                      (λ c g. set_role-IsGuarded role key c ok g) v.all;
              })
            (λ _. v))
  ]

  handle_register-Inv :
      (a : ℕ) (params : Option String) (s : AcpServer C)
      → Inv env config s
      → Inv env config (handle_register env a params s).0
  unfolding handle_register
  handle_register-Inv a params s v = elim (Option-cases (param env "role" params)) [
    | inl e ↦ rw (e, handle_register) v
    | inr (role, e) ↦ rw (e, handle_register) (register_role-Inv a role s v)
  ]

  handle_heartbeat-Inv :
      (now a : ℕ) (id : String) (params : Option String) (s : AcpServer C)
      → Inv env config s
      → Inv env config (handle_heartbeat env now a id params s).0
  unfolding handle_heartbeat
  handle_heartbeat-Inv now a id params s v = record {
    same = v.same;
    all =
        update-AllValues ℕ_discrete (IsGuarded env config) a
          (λ c. record c { last_heartbeat = now }) s.connections
          (λ c g. record { shown = g.shown; known = g.known; opened = g.opened }) v.all;
  }

  handle_method-Inv :
      (now a : ℕ) (id method : String) (params : Option String) (s : AcpServer C)
      → Inv env config s
      → Inv env config (handle_method env now a id method params s).0
  unfolding handle_method
  handle_method-Inv now a id method params s v =
      if-elim P (str_eq method "agent.register") (λ _. handle_register-Inv a params s v)
        λ _.
          if-elim P (str_eq method "heartbeat") (λ _. handle_heartbeat-Inv now a id params s v)
            λ _. if-elim P (str_eq method "getStatus") (λ _. v) (λ _. v)
    where
      P : AcpServer C × AcpMessage → Type 0
      P r = Inv env config r.0

  pub handle-Inv :
      (now a : ℕ) (m : AcpMessage) (s : AcpServer C)
      → Inv env config s
      → Inv env config (handle env now a m s).0
  unfolding handle
  handle-Inv now a m s v = elim (Option-cases m.method) [
    | inl e ↦ rw (e, handle) v
    | inr (method, e) ↦ elim (Option-cases m.id) [
      | inl f ↦ rw (e, handle, f) v
      | inr (id, f) ↦ rw (e, handle, f) (handle_method-Inv now a id method m.params s v)
    ]
  ]
