-- ===== src/Acp/Client/Events.antt =====
-- The events of a client and their sequences (crates/cca-acp/src/client.rs).
use cca.Common.{ℕ, List, [], ◌∷◌, String}
use cca.Acp.Message.{AcpMessage}
use cca.Acp.Client.{
  Phase, AcpClient, Incoming, Channels, connect, start_attempt, after_attempt, connected_to,
  incoming, disconnect, send, begin_request, time_out, read_shutdown, idle, starting, dialing,
  reading, over,
}

-- What happens to a client: `connect`, the steps of its manager, and the calls beside it. A manager is
-- spawned where none runs, and a step of it that its phase does not allow changes nothing.
pub data Event (C : Type 0) : Type 0 where
  spawn look shutdown_read : Event C
  dialed : Channels C → Event C
  dial_failed : ℕ → Event C
  received : Channels C → ℕ → Incoming → Event C
  disconnected_by_call : Event C
  requested : Channels C → String → String → String → Event C
  timed_out : String → Event C
  sent : Channels C → AcpMessage → Event C

module _ {C : Type 0} where
  abbrev pub manage : Phase → Event C → AcpClient C → AcpClient C
  manage idle spawn c = connect c
  manage over spawn c = connect c
  manage starting look c = start_attempt c
  manage dialing (dialed ch) c = connected_to ch c
  manage dialing (dial_failed nanos) c = after_attempt nanos c
  manage reading (received ch nanos i) c = incoming ch nanos i c
  manage reading shutdown_read c = read_shutdown c
  manage _ disconnected_by_call c = disconnect c
  manage _ (requested ch id method params) c = (begin_request ch id method params c).0
  manage _ (timed_out id) c = time_out id c
  manage _ (sent ch m) c = (send ch m c).0
  manage _ _ c = c

  unfoldable pub step : Event C → AcpClient C → AcpClient C
  unfolding connect start_attempt connected_to after_attempt incoming read_shutdown disconnect
      begin_request time_out send
  step e c = manage c.phase e c

  unfoldable pub run : List (Event C) → AcpClient C → AcpClient C
  unfolding step
  run [] c = c
  run (e ∷ es) c = run es (step e c)
