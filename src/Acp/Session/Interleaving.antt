-- ===== src/Acp/Session/Interleaving.antt =====
-- The server with all its connections at once (crates/cca-acp/src/server.rs): handshakes, frames of
-- any connection, and calls of the daemon, in any order.
use cca.Common.{ℕ, ◌≡◌, true, List, [], ◌∷◌, String, ℕ_discrete, Option-cases, inl, inr, subst, sym}
use cca.Common.Map
use cca.Common.Map.{Map, AllValues, AllValues-get, update-AllValues, remove-AllValues}
use cca.Acp.Env.{Env}
use cca.Acp.Message.{AcpMessage, request}
use cca.Acp.Auth.{AcpAuthConfig}
use cca.Acp.Connection.{AgentConnection, SendResult, sent, dropped, disconnect_slow_consumer}
use cca.Acp.Server.{
  AcpServer, disconnect, put, after_send, send_to, send_all, remove_all, broadcast, begin_request,
  time_out, cleanup_pending_requests,
}
use cca.Acp.Handshake.{UpgradeRequest, handshake, open_connection}
use cca.Acp.Session.{Frame, Outcome, continues, breaks, aborts, process_frame, clean_up}
use cca.Acp.Session.Guard.{IsGuarded, Inv, put-Inv, try_send-IsGuarded}
use cca.Acp.Session.Guarded.{process_frame-Inv, clean_up-Inv, open_connection-Inv}

-- `drains` is the write task of a connection at work on its channel.
pub data Event (C : Type 0) : Type 0 where
  opens : ℕ → ℕ → UpgradeRequest → Event C
  receives : ℕ → ℕ → Frame → Event C
  drains : ℕ → C → Event C
  sends : ℕ → ℕ → AcpMessage → Event C
  announces : ℕ → AcpMessage → Event C
  requests : ℕ → String → ℕ → String → String → Event C
  times_out : String → Event C
  expires : ℕ → Event C
  disconnects : ℕ → Event C

module _ {C : Type 0} (env : Env C) where
  -- The end of the loop of a connection, where the frame ends it.
  unfoldable pub after_frame : ℕ → AcpServer C × Outcome → AcpServer C
  unfolding clean_up
  after_frame a (s, continues) = s
  after_frame a (s, breaks) = clean_up env a s
  after_frame a (s, aborts) = s

  unfoldable pub step : Event C → AcpServer C → AcpServer C
  unfolding after_frame process_frame open_connection handshake send_to broadcast begin_request
      time_out cleanup_pending_requests disconnect
  step (opens now a r) s = open_connection env now a (handshake env s.auth_config r) s
  step (receives now a frame) s = after_frame a (process_frame env now a frame s)
  step (drains a channel) s = record s {
    connections = Map.update ℕ_discrete a (λ c. record c { sender = channel }) s.connections;
  }
  step (sends now a message) s = (send_to env now a message s).0
  step (announces now message) s = (broadcast env now message s).0
  step (requests now id a method params) s = (begin_request env now id a method params s).0
  step (times_out id) s = time_out id s
  step (expires now) s = cleanup_pending_requests now s
  step (disconnects a) s = (disconnect a s).0

  unfoldable pub run : List (Event C) → AcpServer C → AcpServer C
  unfolding step
  run [] s = s
  run (e ∷ es) s = run es (step e s)

module _ {C : Type 0} (env : Env C) (config : AcpAuthConfig)
    (required : config.require_auth ≡ true) where
  disconnect-Inv : (a : ℕ) (s : AcpServer C) → Inv env config s → Inv env config (disconnect a s).0
  unfolding disconnect
  disconnect-Inv a s v = elim (Option-cases (Map.get ℕ_discrete a s.connections)) [
    | inl e ↦ rw (e, disconnect) v
    | inr (conn, e) ↦
        rw (e, disconnect)
          (record {
            same = v.same;
            all = remove-AllValues ℕ_discrete (IsGuarded env config) a s.connections v.all;
          })
  ]

  after_send-Inv :
      (a : ℕ) (s : AcpServer C) (r : AgentConnection C × SendResult)
      → IsGuarded env config r.0
      → Inv env config s
      → Inv env config (after_send a s r).0
  unfolding after_send
  after_send-Inv a s (conn, sent) g v = put-Inv env config a conn s g v
  after_send-Inv a s (conn, dropped) g v = put-Inv env config a conn s g v
  after_send-Inv a s (conn, disconnect_slow_consumer) g v =
      disconnect-Inv a (put a conn s) (put-Inv env config a conn s g v)

  send_to-Inv :
      (now a : ℕ) (m : AcpMessage) (s : AcpServer C)
      → Inv env config s
      → Inv env config (send_to env now a m s).0
  unfolding send_to
  send_to-Inv now a m s v = elim (Option-cases (env.to_json m)) [
    | inl f ↦ rw (f, send_to) v
    | inr (json, f) ↦ elim (Option-cases (Map.get ℕ_discrete a s.connections)) [
      | inl e ↦ rw (f, send_to, e) v
      | inr (conn, e) ↦
          let g = AllValues-get ℕ_discrete (IsGuarded env config) a conn s.connections v.all e in
          rw (f, send_to, e)
            (after_send-Inv a s _
              (try_send-IsGuarded env config now s.backpressure_config.max_consecutive_drops json
                conn g)
              v)
    ]
  ]

  send_all-guarded :
      (now max_drops : ℕ) (json : String) (m : Map ℕ (AgentConnection C))
      → AllValues ℕ_discrete (IsGuarded env config) m
      → AllValues ℕ_discrete (IsGuarded env config) (send_all env now max_drops json m).0
  unfolding send_all
  send_all-guarded now max_drops json [] h = tt
  send_all-guarded now max_drops json (e ∷ m) h = (
    try_send-IsGuarded env config now max_drops json e.1 h.0,
    send_all-guarded now max_drops json m h.1,
  )

  remove_all-guarded :
      (ids : List ℕ) (m : Map ℕ (AgentConnection C))
      → AllValues ℕ_discrete (IsGuarded env config) m
      → AllValues ℕ_discrete (IsGuarded env config) (remove_all ids m)
  unfolding remove_all
  remove_all-guarded [] m h = h
  remove_all-guarded (a ∷ ids) m h =
      remove_all-guarded ids (Map.remove ℕ_discrete a m)
        (remove-AllValues ℕ_discrete (IsGuarded env config) a m h)

  broadcast-Inv :
      (now : ℕ) (m : AcpMessage) (s : AcpServer C)
      → Inv env config s
      → Inv env config (broadcast env now m s).0
  unfolding broadcast
  broadcast-Inv now m s v = elim (Option-cases (env.to_json m)) [
    | inl f ↦ rw (f, broadcast) v
    | inr (json, f) ↦
        rw (f, broadcast)
          (record {
            same = v.same;
            all =
                remove_all-guarded
                  (send_all env now s.backpressure_config.max_consecutive_drops json
                    s.connections).1.disconnected
                  _
                  (send_all-guarded now s.backpressure_config.max_consecutive_drops json
                    s.connections v.all);
          })
  ]

  after_frame-Inv :
      (a : ℕ) (r : AcpServer C × Outcome)
      → Inv env config r.0
      → Inv env config (after_frame env a r)
  unfolding after_frame
  after_frame-Inv a (s, continues) v = v
  after_frame-Inv a (s, breaks) v = clean_up-Inv env config required a s v
  after_frame-Inv a (s, aborts) v = v

  step-Inv : (e : Event C) (s : AcpServer C) → Inv env config s → Inv env config (step env e s)
  unfolding step begin_request time_out cleanup_pending_requests
  step-Inv (opens now a r) s v =
      subst (λ c. Inv env config (open_connection env now a (handshake env c r) s)) (sym v.same)
        (open_connection-Inv env config required now a r s v)
  step-Inv (receives now a frame) s v =
      after_frame-Inv a _ (process_frame-Inv env config required now a frame s v)
  step-Inv (drains a channel) s v = record {
    same = v.same;
    all =
        update-AllValues ℕ_discrete (IsGuarded env config) a (λ c. record c { sender = channel })
          s.connections (λ c g. record { shown = g.shown; known = g.known; opened = g.opened })
          v.all;
  }
  step-Inv (sends now a m) s v = send_to-Inv now a m s v
  step-Inv (announces now m) s v = broadcast-Inv now m s v
  step-Inv (requests now id a method params) s v =
      send_to-Inv now a (request id method params) _ (record { same = v.same; all = v.all })
  step-Inv (times_out id) s v = record { same = v.same; all = v.all }
  step-Inv (expires now) s v = record { same = v.same; all = v.all }
  step-Inv (disconnects a) s v = disconnect-Inv a s v

  run-Inv :
      (es : List (Event C)) (s : AcpServer C) → Inv env config s → Inv env config (run env es s)
  unfolding run
  run-Inv [] s v = v
  run-Inv (e ∷ es) s v = run-Inv es (step env e s) (step-Inv e s v)

  -- A server that requires authentication starts without connections. However handshakes, frames of
  -- its connections and calls of the daemon then follow each other, whoever is authenticated has
  -- shown an accepted key, and whoever has a role has one that a key grants.
  pub run-guarded :
      (es : List (Event C)) (s : AcpServer C)
      → s.auth_config ≡ config
      → s.connections ≡ []
      → Inv env config (run env es s)
  run-guarded es s same none_yet = run-Inv es s (record {
    same = same;
    all = subst (AllValues ℕ_discrete (IsGuarded env config)) (sym none_yet) tt;
  })
