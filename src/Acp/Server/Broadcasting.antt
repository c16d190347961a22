-- ===== src/Acp/Server/Broadcasting.antt =====
-- What `broadcast` of crates/cca-acp/src/server.rs does to the table of connections.
use cca.Common.{
  ℕ, ◌+◌, ◌≡◌, refl, ◌∙◌, ap, inl, inr, List, [], ◌∷◌, Option, none, some, String, arith,
  ℕ_discrete, Option-cases, length, Has, if_pos, if_neg,
}
use cca.Common.Map
use cca.Common.Map.{Map, get-remove, keys, Distinct}
use cca.Acp.Env.{Env}
use cca.Acp.Message.{AcpMessage}
use cca.Acp.Connection.{
  AgentConnection, SendResult, sent, dropped, disconnect_slow_consumer, try_send_with_backpressure,
}
use cca.Acp.Server.{AcpServer, BroadcastResult, send_all, remove_all, broadcast}
use cca.Acp.Server.Sending.{survivor}

module _ {C : Type 0} where
  -- Each connection is stored under its own identifier.
  abbrev pub Keyed : Map ℕ (AgentConnection C) → Type 0
  Keyed [] = Unit {0}
  Keyed (e ∷ m) = (e.1.agent_id ≡ e.0) × Keyed m

  abbrev pub keep :
      (AgentConnection C → Option (AgentConnection C))
      → Option (AgentConnection C)
      → Option (AgentConnection C)
  keep f none = none
  keep f (some conn) = f conn

module _ {C : Type 0} (env : Env C) (now max_drops : ℕ) (json : String) where
  total : BroadcastResult → ℕ
  total r = r.sent_count + r.dropped_count + length r.disconnected

  total-send_all :
      (m : Map ℕ (AgentConnection C)) → total (send_all env now max_drops json m).1 ≡ length m
  unfolding send_all total
  total-send_all [] = omega arith
  total-send_all ((a, conn) ∷ m) = ground (arith, total-send_all m)

  keys-send_all :
      (m : Map ℕ (AgentConnection C)) → keys (send_all env now max_drops json m).0 ≡ keys m
  unfolding send_all
  keys-send_all [] = refl
  keys-send_all ((a, conn) ∷ m) = ap (◌∷◌ a) (keys-send_all m)

  abbrev tried : AgentConnection C → AgentConnection C × SendResult
  tried = try_send_with_backpressure env now max_drops json

  get-send_all :
      (j : ℕ) (m : Map ℕ (AgentConnection C))
      → Map.get ℕ_discrete j (send_all env now max_drops json m).0
        ≡ keep (λ conn. some (tried conn).0) (Map.get ℕ_discrete j m)
  unfolding send_all Map.get
  get-send_all j [] = refl
  get-send_all j ((a, conn) ∷ m) = ground (arith, get-send_all j m)

  -- The agents that are cut off are those in the table whose channel is closed or too slow.
  slow-Has :
      (j : ℕ) (m : Map ℕ (AgentConnection C)) (conn : AgentConnection C)
      → Keyed m
      → Map.get ℕ_discrete j m ≡ some conn
      → (tried conn).1 ≡ disconnect_slow_consumer
      → Has j (send_all env now max_drops json m).1.disconnected
  unfolding send_all Map.get
  slow-Has j [] conn k h e = absurd (ground arith)
  slow-Has j ((a, first) ∷ m) conn k h e = ground (arith, slow-Has j m conn)

  disconnected-keys :
      (j : ℕ) (m : Map ℕ (AgentConnection C))
      → Keyed m
      → Has j (send_all env now max_drops json m).1.disconnected
      → Has j (keys m)
  unfolding send_all
  disconnected-keys j [] k h = h
  disconnected-keys j ((a, first) ∷ m) k h = ground (arith, disconnected-keys j m)

  Has-slow :
      (j : ℕ) (m : Map ℕ (AgentConnection C)) (conn : AgentConnection C)
      → Keyed m
      → Distinct m
      → Map.get ℕ_discrete j m ≡ some conn
      → Has j (send_all env now max_drops json m).1.disconnected
      → (tried conn).1 ≡ disconnect_slow_consumer
  unfolding send_all Map.get
  Has-slow j [] conn k d h e = absurd (ground arith)
  Has-slow j ((a, first) ∷ m) conn k d h e =
      ground (arith, Has-slow j m conn, disconnected-keys j m)

remove_all-gone :
    {C : Type 0} (j : ℕ) (ids : List ℕ) (m : Map ℕ (AgentConnection C))
    → Map.get ℕ_discrete j m ≡ none
    → Map.get ℕ_discrete j (remove_all ids m) ≡ none
unfolding remove_all
remove_all-gone j [] m h = h
remove_all-gone j (a ∷ ids) m h =
    remove_all-gone j ids (Map.remove ℕ_discrete a m) (ground (arith, get-remove ℕ_discrete j a m))

get-remove_all_in :
    {C : Type 0} (j : ℕ) (ids : List ℕ) (m : Map ℕ (AgentConnection C))
    → Has j ids
    → Map.get ℕ_discrete j (remove_all ids m) ≡ none
unfolding remove_all
get-remove_all_in j [] m h = absurd h
get-remove_all_in j (a ∷ ids) m (inl e) =
    remove_all-gone j ids (Map.remove ℕ_discrete a m)
      (get-remove ℕ_discrete j a m ∙ if_pos (ℕ_discrete a j) e _ _)
get-remove_all_in j (a ∷ ids) m (inr h) = get-remove_all_in j ids (Map.remove ℕ_discrete a m) h

get-remove_all_out :
    {C : Type 0} (j : ℕ) (ids : List ℕ) (m : Map ℕ (AgentConnection C))
    → ¬ Has j ids
    → Map.get ℕ_discrete j (remove_all ids m) ≡ Map.get ℕ_discrete j m
unfolding remove_all
get-remove_all_out j [] m h = refl
get-remove_all_out j (a ∷ ids) m h =
    get-remove_all_out j ids (Map.remove ℕ_discrete a m) (λ q. h (inr q))
    ∙ get-remove ℕ_discrete j a m
    ∙ if_neg (ℕ_discrete a j) (λ q. h (inl q)) _ _

module _ {C : Type 0} (env : Env C) (now max_drops : ℕ) (json : String) (j : ℕ)
    (m : Map ℕ (AgentConnection C)) where
  abbrev after_round : Map ℕ (AgentConnection C)
  after_round = (send_all env now max_drops json m).0

  abbrev cut : List ℕ
  cut = (send_all env now max_drops json m).1.disconnected

  abbrev attempt : AgentConnection C → AgentConnection C × SendResult
  attempt = try_send_with_backpressure env now max_drops json

  cut_one :
      (conn : AgentConnection C) (r : SendResult)
      → Keyed m
      → Distinct m
      → Map.get ℕ_discrete j m ≡ some conn
      → (attempt conn).1 ≡ r
      → Map.get ℕ_discrete j (remove_all cut after_round) ≡ survivor ((attempt conn).0, r)
  cut_one conn disconnect_slow_consumer k d h e =
      get-remove_all_in j cut after_round (slow-Has env now max_drops json j m conn k h e)
  cut_one conn sent k d h e =
      get-remove_all_out j cut after_round
        (λ q. cc (e, Has-slow env now max_drops json j m conn k d h q))
      ∙ get-send_all env now max_drops json j m
      ∙ ap (keep (λ c. some (attempt c).0)) h
  cut_one conn dropped k d h e =
      get-remove_all_out j cut after_round
        (λ q. cc (e, Has-slow env now max_drops json j m conn k d h q))
      ∙ get-send_all env now max_drops json j m
      ∙ ap (keep (λ c. some (attempt c).0)) h

  get-round :
      Keyed m
      → Distinct m
      → Map.get ℕ_discrete j (remove_all cut after_round)
        ≡ keep (λ conn. survivor (attempt conn)) (Map.get ℕ_discrete j m)
  get-round k d = elim (Option-cases (Map.get ℕ_discrete j m)) [
    | inl gone ↦ rw gone (
        remove_all-gone j cut after_round
          (get-send_all env now max_drops json j m ∙ ap (keep (λ c. some (attempt c).0)) gone))
    | inr (conn, h) ↦ rw h (cut_one conn (attempt conn).1 k d h refl)
  ]

module _ {C : Type 0} (env : Env C) (now : ℕ) (message : AcpMessage) (s : AcpServer C) where
  -- The messages sent and dropped and the connections cut off that a broadcast reports are as many
  -- as there were connections.
  pub broadcast-total :
      (r : BroadcastResult)
      → (broadcast env now message s).1 ≡ some r
      → r.sent_count + r.dropped_count + length r.disconnected ≡ length s.connections
  unfolding broadcast total
  broadcast-total r h = elim (Option-cases (env.to_json message)) [
    | inl e ↦ absurd (ground arith)
    | inr (json, e) ↦ ground (
      arith,
      total-send_all env now s.backpressure_config.max_consecutive_drops json s.connections,
    )
  ]

  -- A broadcast of a message that can be serialised, on a table that has each connection once and
  -- under its identifier, tries every connection once, independently of the others: each stays with
  -- its new counters unless its channel is closed or its consumer too slow, and then it is gone.
  pub get-broadcast :
      (json : String) (j : ℕ)
      → env.to_json message ≡ some json
      → Keyed s.connections
      → Distinct s.connections
      → Map.get ℕ_discrete j (broadcast env now message s).0.connections
        ≡ keep
            (λ conn. survivor (
              try_send_with_backpressure env now s.backpressure_config.max_consecutive_drops json
                conn))
            (Map.get ℕ_discrete j s.connections)
  unfolding broadcast
  get-broadcast json j e k d =
      rw (e, broadcast)
        (get-round env now s.backpressure_config.max_consecutive_drops json j s.connections k d)
