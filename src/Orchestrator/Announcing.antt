-- ===== src/Orchestrator/Announcing.antt =====
-- `broadcast` of crates/cca-daemon/src/orchestrator.rs.
use cca.Common.{ℕ, Option, none, some, String, Result, ok, err, if◌then◌else◌}
use cca.Acp.Env.{Env}
use cca.Acp.Message.{notification}
use cca.Acp.Server.{AcpServer, BroadcastResult}
use cca.Acp.Server
use cca.Orchestrator.{Orchestrator, Services, Error, serialization}
use cca.Orchestrator.Routing.{publish}

abbrev sent_by : Option BroadcastResult → ℕ
sent_by none = 0
sent_by (some r) = r.sent_count

module _ {C F : Type 0} (sv : Services) (env : Env C) where
  unfoldable pub by_acp : ℕ → String → Orchestrator C F → Orchestrator C F × ℕ
  unfolding Server.broadcast notification
  by_acp now params o = elim o.acp_server [
    | none ↦ (o, 0)
    | some acp ↦
        let (acp', r) = Server.broadcast env now (notification "broadcast" params) acp in
        (record o { acp_server = some acp' }, sent_by r)
  ]

  -- `params` is the JSON text of the parameters, where they have one. A failure of Redis is dropped.
  unfoldable pub broadcast :
      ℕ → Option String → Orchestrator C F → Orchestrator C F × Result Error ℕ
  unfolding by_acp publish
  broadcast now (some params) o =
      let (o', n) = by_acp now params o in
      ((if o'.redis then (publish sv "cca:broadcast" params o').0 else o'), ok n)
  broadcast now none o = elim o.acp_server [
    | none ↦ (o, if o.redis then err serialization else ok 0)
    | some acp ↦ (o, err serialization)
  ]
