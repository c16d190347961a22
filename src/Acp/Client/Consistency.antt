-- ===== src/Acp/Client/Consistency.antt =====
-- What the state of a client says of its connection (crates/cca-acp/src/client.rs).
use cca.Common.{◌≡◌, refl, Bool, true, false, [], ◌∷◌, Option, none, some}
use cca.Common.Map
use cca.Acp.Client.{
  AcpClient, dialing, over, Channels, is_connected, is_connected_state, connected_to, disconnect,
  read_shutdown,
}
use cca.Acp.Client.Events.{shutdown_read, dialed, disconnected_by_call, step, run}

abbrev pub has_sender : {C : Type 0} → Option C → Bool
has_sender none = false
has_sender (some s) = true

module _ {C : Type 0} where
  -- A client that is connected has a channel to send on.
  abbrev IsConsistent : AcpClient C → Type 0
  IsConsistent c = is_connected_state c.state ≡ true → has_sender c.sender ≡ true

  -- A client that is told to disconnect while its manager is connecting stays connected: the manager
  -- takes up the connection, reads the shutdown, and ends without taking it back.
  pub disconnect-while_dialing :
      (ch : Channels C) (c : AcpClient C)
      → c.phase ≡ dialing
      → let c' = run (disconnected_by_call ∷ dialed ch ∷ shutdown_read ∷ []) c in
        (is_connected c' ≡ true) × (c'.phase ≡ over)
  unfolding run step is_connected disconnect connected_to read_shutdown
  disconnect-while_dialing ch c p = rw p (refl, refl)
