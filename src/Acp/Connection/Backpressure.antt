-- ===== src/Acp/Connection/Backpressure.antt =====
-- When a slow consumer is cut off (crates/cca-acp/src/server.rs).
use cca.Common.{
  ℕ, suc, ◌≤◌, ◌<◌, ◌≡◌, refl, List, [], ◌∷◌, arith, u32_mod, u64_mod, length, leb, if◌then◌else◌,
}
use cca.Acp.Env.{TrySend, accepted, full, closed}
use cca.Acp.Connection.{AgentConnection, dropped, disconnect_slow_consumer, new, after_try_send}

-- The answers of a channel so far, the last one first.
abbrev pub Answers : Type 0 → Type 0
Answers C = List (TrySend C)

module _ {C : Type 0} where
  -- A connection after these answers.
  pub after_all : ℕ → ℕ → Answers C → AgentConnection C → AgentConnection C
  unfolding after_try_send
  after_all now max_drops [] conn = conn
  after_all now max_drops (a ∷ rs) conn =
      (after_try_send now max_drops (after_all now max_drops rs conn) a).0

  -- How many messages in a row, up to the last one, found the channel full. A closed channel does
  -- not count.
  abbrev pub full_in_row : Answers C → ℕ
  full_in_row [] = 0
  full_in_row (accepted c ∷ rs) = 0
  full_in_row (full ∷ rs) = suc (full_in_row rs)
  full_in_row (closed ∷ rs) = full_in_row rs

  abbrev count_sent : Answers C → ℕ
  count_sent [] = 0
  count_sent (accepted c ∷ rs) = suc (count_sent rs)
  count_sent (full ∷ rs) = count_sent rs
  count_sent (closed ∷ rs) = count_sent rs

  abbrev count_full : Answers C → ℕ
  count_full [] = 0
  count_full (accepted c ∷ rs) = count_full rs
  count_full (full ∷ rs) = suc (count_full rs)
  count_full (closed ∷ rs) = count_full rs

  full_in_row-le : (rs : Answers C) → full_in_row rs ≤ length rs
  full_in_row-le [] = omega arith
  full_in_row-le (accepted c ∷ rs) = omega arith
  full_in_row-le (full ∷ rs) = omega (arith, full_in_row-le rs)
  full_in_row-le (closed ∷ rs) = omega (arith, full_in_row-le rs)

  module _ (now max_drops agent_id : ℕ) (sender : C) where
    drops-full_in_row :
        (rs : Answers C)
        → length rs < u32_mod
        → (after_all now max_drops rs (new now agent_id sender)).backpressure.consecutive_drops
          ≡ full_in_row rs
    unfolding after_all new
    drops-full_in_row [] h = refl
    drops-full_in_row (accepted c ∷ rs) h = refl
    drops-full_in_row (full ∷ rs) h = ground (arith, drops-full_in_row rs, full_in_row-le rs)
    drops-full_in_row (closed ∷ rs) h = drops-full_in_row rs (omega arith)

    -- After fewer than 2^32 - 1 messages, a message to a connection whose channel is full cuts it
    -- off exactly when, with this one, the last `max_drops` messages found the channel full;
    -- otherwise the message is dropped.
    pub after_try_send-cut_off :
        (rs : Answers C)
        → suc (length rs) < u32_mod
        → (after_try_send now max_drops
            (after_all now max_drops rs (new now agent_id sender))
            full).1
          ≡ (if leb max_drops (suc (full_in_row rs)) then disconnect_slow_consumer else dropped)
    unfolding after_try_send
    after_try_send-cut_off rs h = ground (arith, drops-full_in_row rs, full_in_row-le rs)

    count_lem : (rs : Answers C) → (count_sent rs ≤ length rs) × (count_full rs ≤ length rs)
    count_lem [] = omega arith
    count_lem (accepted c ∷ rs) = omega (arith, count_lem rs)
    count_lem (full ∷ rs) = omega (arith, count_lem rs)
    count_lem (closed ∷ rs) = omega (arith, count_lem rs)

    -- The two totals of a connection count the messages that were taken and that found the channel
    -- full, as long as there were fewer than 2^64.
    pub after_all-totals :
        (rs : Answers C)
        → length rs < u64_mod
        → ((after_all now max_drops rs (new now agent_id sender)).backpressure.messages_sent
            ≡ count_sent rs)
          × ((after_all now max_drops rs (new now agent_id sender)).backpressure.messages_dropped
              ≡ count_full rs)
    unfolding after_all new
    after_all-totals [] h = (refl, refl)
    after_all-totals (accepted c ∷ rs) h = ground (arith, after_all-totals rs, count_lem rs)
    after_all-totals (full ∷ rs) h = ground (arith, after_all-totals rs, count_lem rs)
    after_all-totals (closed ∷ rs) h = after_all-totals rs (omega arith)
