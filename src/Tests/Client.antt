-- ===== src/Tests/Client.antt =====
-- A client of the ACP server whose connections fail, and one that is told to disconnect.
use cca.Common.{ℕ, ◌≡◌, refl, true, false, List, [], ◌∷◌, none, some}
use cca.Acp.Client.{
  AcpClient, AcpClientConfig, Channels, default_config, is_connected, disconnected, dialing, over,
}
use cca.Acp.Client.Events.{Event, run, spawn, look, dialed, shutdown_read, disconnected_by_call}
use cca.Acp.Client.Consistency.{disconnect-while_dialing}

abbrev three_attempts : AcpClientConfig
three_attempts = record default_config { max_reconnect_attempts = 3 }

abbrev client : AcpClient ℕ
client = record {
  config = three_attempts;
  sender = none;
  state = disconnected;
  pending_requests = [];
  phase = dialing;
  reconnect_attempts = 0;
  reconnect_delay = 1000;
  shutdown = false;
  forwarded = [];
  answers = [];
  sleeps = [];
}

abbrev channels : Channels ℕ
channels = record {
  channel = 4;
  send = λ room text. some room;
  to_json = λ m. some "json";
  receiver_open = true;
}

abbrev connecting_events : List (Event ℕ)
connecting_events = spawn ∷ look ∷ dialed channels ∷ []

disconnect-while_dialing_example :
    let c = run (disconnected_by_call ∷ dialed channels ∷ shutdown_read ∷ []) client in
    (is_connected c ≡ true) × (c.phase ≡ over)
disconnect-while_dialing_example = disconnect-while_dialing channels client refl
