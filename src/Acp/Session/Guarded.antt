-- ===== src/Acp/Session/Guarded.antt =====
-- Authentication over the life of a connection (crates/cca-acp/src/server.rs): registration, the
-- frames, and the handshake that starts it all.
use cca.Common.{
  ℕ, ◌≡◌, refl, ◌≢◌, ◌⊎◌, true, not, List, [], ◌∷◌, Option, none, some, String, arith, ℕ_discrete,
  Option-cases, inl, inr, ap, if-elim, String_discrete,
}
use cca.Common.Map
use cca.Common.Map.{
  Map, AllValues, AllValues-get, update-AllValues, insert-AllValues, remove-AllValues,
}
use cca.Acp.Env.{Env}
use cca.Acp.Message.{AcpMessage}
use cca.Acp.Auth.{AcpAuthConfig, validate_api_key_for_handshake}
use cca.Acp.Connection.{set_authenticated, new}
use cca.Acp.Server.{AcpServer, receive_response}
use cca.Acp.Handshake.{UpgradeRequest, extract_api_key_from_request, handshake, open_connection}
use cca.Acp.Handler.{handle}
use cca.Acp.Session.{
  Frame, Outcome, continues, breaks, aborts, parsed, unparsable, ping, close, failure, other,
  has_method, is_authenticated, answer_pending, process_authenticated, refuse, process_message,
  process_frame, clean_up, run_frames,
}
use cca.Acp.Session.Guard.{IsGuarded, Inv, respond-Inv, try_pong-Inv, handle_authenticate-Inv}
use cca.Acp.Session.Handling.{handle-Inv}

Outcome-cases : (o : Outcome) → (o ≡ continues) ⊎ ((o ≡ breaks) ⊎ (o ≡ aborts))
Outcome-cases continues = inl refl
Outcome-cases breaks = inr (inl refl)
Outcome-cases aborts = inr (inr refl)

module _ {C : Type 0} (env : Env C) (config : AcpAuthConfig)
    (required : config.require_auth ≡ true) where
  answer_pending-Inv :
      (id method : Option String) (m : AcpMessage) (s : AcpServer C)
      → Inv env config s
      → Inv env config (answer_pending env id method m s)
  unfolding receive_response
  answer_pending-Inv (some id) none m s v =
      elim (Option-cases (Map.get String_discrete id s.pending_requests)) [
        | inl e ↦ rw (e, receive_response) v
        | inr (r, e) ↦ rw (e, receive_response) (record { same = v.same; all = v.all })
      ]
  answer_pending-Inv (some id) (some method) m s v = v
  answer_pending-Inv none method m s v = v

  process_authenticated-Inv :
      (now a : ℕ) (m : AcpMessage) (s : AcpServer C)
      → Inv env config s
      → Inv env config (process_authenticated env now a m s).0
  unfolding process_authenticated
  process_authenticated-Inv now a m s v =
      let s1 = answer_pending env m.id m.method m s in
      let s2 : AcpServer C = record s1 { broadcasts = m ∷ s1.broadcasts } in
      let v1 = answer_pending-Inv m.id m.method m s v in
      let v2 : Inv env config s2 = record { same = v1.same; all = v1.all } in
      let v3 = handle-Inv env config required now a m s2 v2 in
      elim (Option-cases (handle env now a m s2).1) [
        | inl e ↦ rw (e, process_authenticated) v3
        | inr (answer, e) ↦
            rw (e, process_authenticated)
              (respond-Inv env config now a answer (handle env now a m s2).0 v3)
      ]

  refuse-Inv :
      (now a : ℕ) (id : Option String) (s : AcpServer C)
      → Inv env config s
      → Inv env config (refuse env now a id s).0
  unfolding refuse
  refuse-Inv now a none s v = v
  refuse-Inv now a (some id) s v = respond-Inv env config now a _ s v

  process_message-Inv :
      (now a : ℕ) (m : AcpMessage) (s : AcpServer C)
      → Inv env config s
      → Inv env config (process_message env now a m s).0
  unfolding process_message
  process_message-Inv now a m s v =
      if-elim P (has_method "agent.authenticate" m.method)
        (λ _. respond-Inv env config now a _ _ (handle_authenticate-Inv env config a m s v))
        λ _.
          if-elim P (is_authenticated (Map.get ℕ_discrete a s.connections))
            (λ _. process_authenticated-Inv now a m s v) (λ _. refuse-Inv now a m.id s v)
    where
      P : AcpServer C × Outcome → Type 0
      P r = Inv env config r.0

  pub process_frame-Inv :
      (now a : ℕ) (frame : Frame) (s : AcpServer C)
      → Inv env config s
      → Inv env config (process_frame env now a frame s).0
  unfolding process_frame
  process_frame-Inv now a (parsed m) s v = process_message-Inv now a m s v
  process_frame-Inv now a (ping pong) s v = try_pong-Inv env config now a pong s v
  process_frame-Inv now a unparsable s v = v
  process_frame-Inv now a close s v = v
  process_frame-Inv now a failure s v = v
  process_frame-Inv now a other s v = v

  pub clean_up-Inv :
      (a : ℕ) (s : AcpServer C) → Inv env config s → Inv env config (clean_up env a s)
  unfolding clean_up
  clean_up-Inv a s v = record {
    same = v.same;
    all = remove-AllValues ℕ_discrete (IsGuarded env config) a s.connections v.all;
  }

  pub run_frames-Inv :
      (a : ℕ) (frames : List (ℕ × Frame)) (s : AcpServer C)
      → Inv env config s
      → Inv env config (run_frames env a frames s)
  unfolding run_frames
  run_frames-Inv a [] s v = clean_up-Inv a s v
  run_frames-Inv a ((now, frame) ∷ frames) s v =
      let v' = process_frame-Inv now a frame s v in
      elim (Outcome-cases (process_frame env now a frame s).1) [
        | inl e ↦
            rw (e, run_frames) (run_frames-Inv a frames (process_frame env now a frame s).0 v')
        | inr (inl e) ↦ rw (e, run_frames) (clean_up-Inv a (process_frame env now a frame s).0 v')
        | inr (inr e) ↦ rw (e, run_frames) v'
      ]

  handshake-accepted :
      (r : UpgradeRequest)
      → (handshake env config r).authenticated ≡ true
      → (k : String) × ((handshake env config r).api_key ≡ some k)
        × (validate_api_key_for_handshake env config k ≡ true)
  unfolding handshake
  handshake-accepted r h = elim (Option-cases (extract_api_key_from_request r)) [
    | inl none_found ↦ absurd (ground arith)
    | inr (k, found) ↦ (env.of_codes k, ground arith, ground arith)
  ]

  must_ask : (s : AcpServer C) → Inv env config s → not s.auth_config.require_auth ≢ true
  must_ask s v h = ground (arith, ap (λ c. c.require_auth) v.same)

  pub open_connection-Inv :
      (now a : ℕ) (r : UpgradeRequest) (s : AcpServer C)
      → Inv env config s
      → Inv env config (open_connection env now a (handshake env config r) s)
  unfolding open_connection set_authenticated new
  open_connection-Inv now a r s v = record {
    same = v.same;
    all =
        insert-AllValues ℕ_discrete (IsGuarded env config) a _ s.connections
          (if-elim (IsGuarded env config) (handshake env config r).authenticated
            (λ h.
              let (k, found, valid) = handshake-accepted r h in
              record {
                shown = λ _. (k, found);
                known = λ key e. ground arith;
                opened = λ role e. absurd (ground arith);
              })
            λ _.
              if-elim (IsGuarded env config) (not s.auth_config.require_auth)
                (λ open_to_all. absurd (must_ask s v open_to_all))
                (λ _. record {
                  shown = λ e. absurd (ground arith);
                  known = λ key e. absurd (ground arith);
                  opened = λ role e. absurd (ground arith);
                }))
          v.all;
  }

  -- Under a configuration that requires authentication, a connection that a handshake opens and any
  -- frames that then arrive on it, up to its end, keep the table guarded: whoever is authenticated
  -- has shown an accepted key, and whoever has a role was granted it by the roles of a key.
  pub run_frames-guarded :
      (now a : ℕ) (r : UpgradeRequest) (frames : List (ℕ × Frame)) (s : AcpServer C)
      → Inv env config s
      → Inv env config
          (run_frames env a frames (open_connection env now a (handshake env config r) s))
  run_frames-guarded now a r frames s v =
      run_frames-Inv a frames _ (open_connection-Inv now a r s v)
