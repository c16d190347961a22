-- ===== src/Acp/Server/Requests.antt =====
-- Requests and their answers (crates/cca-acp/src/server.rs).
use cca.Common.{ℕ, ◌-◌, ◌<◌, ◌≡◌, [], ◌∷◌, none, some, String, arith, String_discrete}
use cca.Common.Map
use cca.Common.Map.{Map, get-insert, get-remove, get-insert_self}
use cca.Acp.Env.{Env}
use cca.Acp.Message.{AcpMessage}
use cca.Acp.Server.{
  AcpServer, PendingRequest, send_to, begin_request, receive_response, retain_recent,
  cleanup_pending_requests, after_send, put, disconnect,
}

retain_recent-keeps :
    (now : ℕ) (id : String) (m : Map String PendingRequest) (r : PendingRequest)
    → Map.get String_discrete id m ≡ some r
    → now - r.created_at < 900000
    → Map.get String_discrete id (retain_recent now m) ≡ some r
unfolding retain_recent Map.get
retain_recent-keeps now id [] r h k = h
retain_recent-keeps now id ((j, q) ∷ m) r h k = ground (arith, retain_recent-keeps now id m r)

retain_recent-drops :
    (now : ℕ) (id : String) (m : Map String PendingRequest) (r : PendingRequest)
    → Map.get String_discrete id (retain_recent now m) ≡ some r
    → now - r.created_at < 900000
unfolding retain_recent Map.get
retain_recent-drops now id [] r h = absurd (ground arith)
retain_recent-drops now id ((j, q) ∷ m) r h = ground (arith, retain_recent-drops now id m r)

module _ {C : Type 0} where
  receive_response-gone :
      (id : String) (message : AcpMessage) (s : AcpServer C)
      → Map.get String_discrete id s.pending_requests ≡ none
      → receive_response id message s ≡ s
  unfolding receive_response
  receive_response-gone id message s e = rw (e, receive_response)

  get-receive_response :
      (id : String) (message : AcpMessage) (s : AcpServer C)
      → Map.get String_discrete id (receive_response id message s).pending_requests ≡ none
  unfolding receive_response
  get-receive_response id message s =
      ground (arith, get-remove String_discrete id id s.pending_requests)

  -- An answer reaches its request once: the same answer again, or another one with its identifier,
  -- changes nothing.
  pub receive_response-once :
      (id : String) (first second : AcpMessage) (s : AcpServer C)
      → receive_response id second (receive_response id first s) ≡ receive_response id first s
  receive_response-once id first second s =
      receive_response-gone id second (receive_response id first s)
        (get-receive_response id first s)

  -- The cleanup leaves a waiting request that is younger than fifteen minutes.
  pub cleanup_pending_requests-keeps :
      (now : ℕ) (id : String) (r : PendingRequest) (s : AcpServer C)
      → Map.get String_discrete id s.pending_requests ≡ some r
      → now - r.created_at < 900000
      → Map.get String_discrete id (cleanup_pending_requests now s).pending_requests ≡ some r
  unfolding cleanup_pending_requests
  cleanup_pending_requests-keeps now id r s h young =
      retain_recent-keeps now id s.pending_requests r h young

  -- A request that still waits after the cleanup is younger than fifteen minutes.
  pub cleanup_pending_requests-drops :
      (now : ℕ) (id : String) (r : PendingRequest) (s : AcpServer C)
      → Map.get String_discrete id (cleanup_pending_requests now s).pending_requests ≡ some r
      → now - r.created_at < 900000
  unfolding cleanup_pending_requests
  cleanup_pending_requests-drops now id r s h = retain_recent-drops now id s.pending_requests r h

module _ {C : Type 0} (env : Env C) where
  pending-send_to :
      (now agent_id : ℕ) (message : AcpMessage) (s : AcpServer C)
      → (send_to env now agent_id message s).0.pending_requests ≡ s.pending_requests
  unfolding send_to after_send put disconnect
  pending-send_to now agent_id message s = ground arith

  -- Once `request` has stored its entry and tried to send its message, the entry waits in the table
  -- whatever became of the message, so also where the call returns the error of `send_to`.
  pub begin_request-waits :
      (now : ℕ) (id : String) (agent_id : ℕ) (method params : String) (s : AcpServer C)
      → Map.get String_discrete id
          (begin_request env now id agent_id method params s).0.pending_requests
        ≡ some (record { created_at = now })
  unfolding begin_request
  begin_request-waits now id agent_id method params s =
      rw pending-send_to
        (get-insert_self String_discrete id (record { created_at = now }) s.pending_requests)
