-- ===== src/Acp/Session/Guard.antt =====
-- Authentication over the life of a connection (crates/cca-acp/src/server.rs).
use cca.Common.{
  ℕ, ◌≡◌, refl, true, some, String, arith, ℕ_discrete, Option-cases, inl, inr, if-elim,
}
use cca.Common.Map
use cca.Common.Map.{
  Map, AllValues, AllValues-get, update-AllValues, insert-AllValues, remove-AllValues,
}
use cca.Acp.Env.{Env, TrySend, accepted, full, closed}
use cca.Acp.Message.{AcpMessage}
use cca.Acp.Auth.{AcpAuthConfig, is_role_authorized, validate_api_key_for_handshake}
use cca.Acp.Connection.{
  AgentConnection, set_authenticated, after_try_send, try_send_with_backpressure,
}
use cca.Acp.Server.{AcpServer, put}
use cca.Acp.Handler.{param}
use cca.Acp.Session.{respond, authenticate_key, handle_authenticate, try_pong}

module _ {C : Type 0} (env : Env C) (config : AcpAuthConfig) where
  -- An authenticated connection has shown a key, its key is one that the configuration accepts, and
  -- its role was opened by such a key.
  pub record IsGuarded (conn : AgentConnection C) : Type 0 where
    pub shown : conn.authenticated ≡ true → (key : String) × (conn.authenticated_key ≡ some key)
    pub known :
        (key : String)
        → conn.authenticated_key ≡ some key
        → validate_api_key_for_handshake env config key ≡ true
    pub opened :
        (role : String)
        → conn.role ≡ some role
        → (key : String) × (is_role_authorized env config key role ≡ true)

  -- Every connection of a server with this configuration is guarded.
  pub record Inv (s : AcpServer C) : Type 0 where
    pub same : s.auth_config ≡ config
    pub all : AllValues ℕ_discrete IsGuarded s.connections

  after_try_send-IsGuarded :
      (now max_drops : ℕ) (conn : AgentConnection C) (t : TrySend C)
      → IsGuarded conn
      → IsGuarded (after_try_send now max_drops conn t).0
  unfolding after_try_send
  after_try_send-IsGuarded now max_drops conn (accepted c) g = record {
    shown = g.shown;
    known = g.known;
    opened = g.opened;
  }
  after_try_send-IsGuarded now max_drops conn full g = record {
    shown = g.shown;
    known = g.known;
    opened = g.opened;
  }
  after_try_send-IsGuarded now max_drops conn closed g = g

  pub put-Inv :
      (a : ℕ) (conn : AgentConnection C) (s : AcpServer C)
      → IsGuarded conn
      → Inv s
      → Inv (put a conn s)
  unfolding put
  put-Inv a conn s g v = record {
    same = v.same;
    all = update-AllValues ℕ_discrete IsGuarded a (λ _. conn) s.connections (λ _ _. g) v.all;
  }

  pub try_send-IsGuarded :
      (now max_drops : ℕ) (text : String) (conn : AgentConnection C)
      → IsGuarded conn
      → IsGuarded (try_send_with_backpressure env now max_drops text conn).0
  unfolding try_send_with_backpressure
  try_send-IsGuarded now max_drops text conn g =
      after_try_send-IsGuarded now max_drops conn (env.try_send conn.sender text) g

  pub respond-Inv :
      (now a : ℕ) (m : AcpMessage) (s : AcpServer C) → Inv s → Inv (respond env now a m s).0
  unfolding respond
  respond-Inv now a m s v = elim (Option-cases (Map.get ℕ_discrete a s.connections)) [
    | inl e ↦ rw (e, respond) v
    | inr (conn, e) ↦ elim (Option-cases (env.to_json m)) [
      | inl f ↦ rw (e, respond, f) v
      | inr (json, f) ↦
          let g = AllValues-get ℕ_discrete IsGuarded a conn s.connections v.all e in
          rw (e, respond, f)
            (put-Inv a _ s
              (try_send-IsGuarded now s.backpressure_config.max_consecutive_drops json conn g) v)
    ]
  ]

  pub try_pong-Inv :
      (now a : ℕ) (pong : String) (s : AcpServer C) → Inv s → Inv (try_pong env now a pong s).0
  unfolding try_pong
  try_pong-Inv now a pong s v = elim (Option-cases (Map.get ℕ_discrete a s.connections)) [
    | inl e ↦ rw (e, try_pong) v
    | inr (conn, e) ↦
        let g = AllValues-get ℕ_discrete IsGuarded a conn s.connections v.all e in
        rw (e, try_pong)
          (put-Inv a _ s
            (try_send-IsGuarded now s.backpressure_config.max_consecutive_drops pong conn g) v)
  ]

  set_authenticated-IsGuarded :
      (key : String) (conn : AgentConnection C)
      → validate_api_key_for_handshake env config key ≡ true
      → IsGuarded conn
      → IsGuarded (set_authenticated (some key) conn)
  unfolding set_authenticated
  set_authenticated-IsGuarded key conn valid g = record {
    shown = λ _. (key, refl);
    known = λ k e. ground arith;
    opened = g.opened;
  }

  authenticate_key-Inv :
      (a : ℕ) (id key : String) (s : AcpServer C) → Inv s → Inv (authenticate_key env a id key s).0
  unfolding authenticate_key
  authenticate_key-Inv a id key s v =
      if-elim (λ (r : AcpServer C × AcpMessage). Inv r.0)
        (validate_api_key_for_handshake env s.auth_config key)
        (λ valid. record {
          same = v.same;
          all =
              update-AllValues ℕ_discrete IsGuarded a (set_authenticated (some key)) s.connections
                (λ c g. set_authenticated-IsGuarded key c (rw v.same at valid) g) v.all;
        })
        (λ _. v)

  pub handle_authenticate-Inv :
      (a : ℕ) (m : AcpMessage) (s : AcpServer C) → Inv s → Inv (handle_authenticate env a m s).0
  unfolding handle_authenticate
  handle_authenticate-Inv a m s v = elim (Option-cases m.id) [
    | inl e ↦ rw (e, handle_authenticate) v
    | inr (id, e) ↦ elim (Option-cases (param env "api_key" m.params)) [
      | inl f ↦ rw (e, handle_authenticate, f) v
      | inr (key, f) ↦ rw (e, handle_authenticate, f) (authenticate_key-Inv a id key s v)
    ]
  ]
