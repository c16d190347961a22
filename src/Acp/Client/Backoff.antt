-- ===== src/Acp/Client/Backoff.antt =====
-- The attempts to reconnect, and their end (crates/cca-acp/src/client.rs).
use cca.Common.{ℕ, zero, suc, ◌*◌, ◌≡◌, min, false, List, [], ◌∷◌}
use cca.Acp.Client.{AcpClient, starting, start_attempt, after_attempt, max_delay}
use cca.Acp.Client.Events.{Event, look, dial_failed}

-- Attempts that fail one after the other, each at its time.
abbrev pub failures : {C : Type 0} → List ℕ → List (Event C)
failures [] = []
failures (n ∷ ns) = look ∷ dial_failed n ∷ failures ns

-- An interval that is doubled so many times.
abbrev pub doubled : ℕ → ℕ → ℕ
doubled zero d = d
doubled (suc k) d = doubled k d * 2

module _ {C : Type 0} where
  -- A client whose manager is about to try again, after so many failures.
  pub record IsRetrying (limit interval failed : ℕ) (c : AcpClient C) : Type 0 where
    pub at_start : c.phase ≡ starting
    pub no_shutdown : c.shutdown ≡ false
    pub limited : c.config.max_reconnect_attempts ≡ limit
    pub counted : c.reconnect_attempts ≡ failed
    pub delay : c.reconnect_delay ≡ min (doubled failed interval) max_delay

  fail_once : ℕ → AcpClient C → AcpClient C
  fail_once nanos c = after_attempt nanos (start_attempt c)
