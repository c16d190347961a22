-- ===== src/Daemon/Delegations/Execution.antt =====
-- How a batch of delegations is prepared and carried out (crates/cca-daemon/src/daemon.rs).
use cca.Common.{
  ℕ, zero, suc, ◌%◌, true, false, not, List, [], ◌∷◌, Option, none, some, String, F64,
  if◌then◌else◌, ltb, leb, ◌==◌, u32_mod, any, find,
}
use cca.Common.Map
use cca.Common.Map.{Map}
use cca.Acp.Server.{agents_with_roles}
use cca.Orchestrator.Routing.{register_agent}
use cca.Tokens.{record_usage}
use cca.Daemon.Delegations.{
  CoordinatorDelegation, DelegateTaskResponse, DaemonState, Turn, Answer, Acquired, is_free,
  or_empty, is_valid_role, mark_busy, with_assigned, first_found, add_outcome, batch_result,
  announce_busy, release, unknown_role, all_busy, not_connected, spawn_failed, no_tmux, task_failed,
  done, failed, agent, refused,
}

module _ {C F : Type 0} (to_lowercase : String → String) (fl : F64 F) where
  -- An agent without a workload is registered with the orchestrator, and with PostgreSQL.
  unfoldable pub ensure_registered : ℕ → String → DaemonState C F → DaemonState C F
  unfolding register_agent any
  ensure_registered a role_name s =
      if any (λ w. w.agent_id == a) (Map.values s.orchestrator.agent_workloads)
      then s
      else record s {
        orchestrator = register_agent fl a role_name (role_name ∷ []) 5 s.orchestrator;
        registered = if s.postgres then (a, role_name) ∷ s.registered else s.registered;
      }

  abbrev pub use_found : DaemonState C F → Option (ℕ × Option String) → DaemonState C F × Option ℕ
  use_found s none = (s, none)
  use_found s (some (a, r)) = (ensure_registered a (or_empty r) s, some a)

  unfoldable pub find_available_agent_excluding :
      String → List ℕ → DaemonState C F → DaemonState C F × Option ℕ
  unfolding ensure_registered find agents_with_roles is_free
  find_available_agent_excluding role exclude s =
      use_found s
        (find (is_free to_lowercase role exclude s.busy_agents) (agents_with_roles s.acp_server))

  -- The attempts that are left, each after two seconds.
  unfoldable pub wait_for :
      Turn C F → String → List ℕ → ℕ → DaemonState C F → DaemonState C F × Option ℕ
  unfolding find_available_agent_excluding
  wait_for turn role exclude zero s = (s, none)
  wait_for turn role exclude (suc n) s =
      let attempt = find_available_agent_excluding role exclude (turn.meanwhile n s) in
      first_found attempt (wait_for turn role exclude n attempt.0)

  abbrev pub connected : String → DaemonState C F × Option ℕ → DaemonState C F × Acquired
  connected role (s, none) = (s, refused (not_connected role))
  connected role (s, some a) = (s, agent a)

  -- The agent of one delegation, which tmux may have to start.
  abbrev pub acquire_by :
      Turn C F → String → List ℕ → DaemonState C F × Option ℕ → DaemonState C F × Acquired
  acquire_by turn role exclude (s, some a) = (s, agent a)
  acquire_by turn role exclude (s, none) =
      if not turn.tmux_available
      then (s, refused (no_tmux role))
      else if leb 5 turn.existing
      then (s, refused (all_busy role))
      else if turn.spawns
      then connected role (wait_for turn role exclude 5 s)
      else (s, refused (spawn_failed role))

  -- The outcome of one round of the loop over the delegations.
  unfoldable pub acquire :
      Turn C F → CoordinatorDelegation → List ℕ → DaemonState C F → DaemonState C F × Acquired
  unfolding is_valid_role find_available_agent_excluding wait_for
  acquire turn d already_assigned s =
      if is_valid_role to_lowercase d.role
      then (acquire_by turn d.role already_assigned
          (find_available_agent_excluding d.role already_assigned (turn.meanwhile 5 s)))
      else (s, refused (unknown_role d.role))

  -- Phase 1: the delegations with an agent, and the errors of the others.
  unfoldable pub prepare :
      List (Turn C F × CoordinatorDelegation)
      → List ℕ
      → DaemonState C F
      → DaemonState C F × List (CoordinatorDelegation × ℕ) × List DelegateTaskResponse
  unfolding acquire
  prepare [] already_assigned s = (s, [], [])
  prepare ((turn, d) ∷ ds) already_assigned s =
      let (s', outcome) = acquire turn d already_assigned s in
      add_outcome d outcome (prepare ds (with_assigned outcome already_assigned) s')

  unfoldable pub store_task_as_pattern :
      ℕ → CoordinatorDelegation → String → ℕ → DaemonState C F → DaemonState C F
  store_task_as_pattern a d output duration_ms s =
      if s.postgres
      then record s {
        patterns = (a, to_lowercase d.role, d.task, output, duration_ms) ∷ s.patterns;
      }
      else s

  unfoldable pub track_tokens : ℕ → ℕ → ℕ → DaemonState C F → DaemonState C F
  unfolding record_usage
  track_tokens now a tokens_used s =
      if ltb 0 tokens_used
      then record s {
        metrics =
            record_usage fl
              (record {
                agent_id = a;
                input_tokens = 0;
                output_tokens = tokens_used % u32_mod;
                total_tokens = tokens_used % u32_mod;
                context_tokens = 0;
                timestamp = now;
              })
              s.metrics;
      }
      else s

  abbrev pub conclude :
      ℕ
      → CoordinatorDelegation
      → ℕ
      → Answer × ℕ
      → DaemonState C F
      → DaemonState C F × DelegateTaskResponse
  conclude now d a (done output tokens_used, duration_ms) s = (
    store_task_as_pattern a d output duration_ms (track_tokens now a tokens_used s),
    record {
      success = true;
      agent_id = some a;
      role = d.role;
      output = some output;
      error = none;
      duration_ms = duration_ms;
      tokens_used = tokens_used;
    },
  )
  conclude now d a (failed e, duration_ms) s = (
    s,
    record {
      success = false;
      agent_id = some a;
      role = d.role;
      output = none;
      error = some (task_failed e);
      duration_ms = duration_ms;
      tokens_used = 0;
    },
  )

  -- Phase 5, over the results in the order of the delegations.
  unfoldable pub settle_all :
      ℕ
      → (CoordinatorDelegation → ℕ → Answer × ℕ)
      → List (CoordinatorDelegation × ℕ)
      → DaemonState C F
      → DaemonState C F × List DelegateTaskResponse
  unfolding release store_task_as_pattern track_tokens
  settle_all now answer [] s = (s, [])
  settle_all now answer ((d, a) ∷ prepared) s =
      let (s', r) = conclude now d a (answer d a) (release d a s) in
      let (s2, rs) = settle_all now answer prepared s' in (s2, r ∷ rs)

  -- All agents work at once; `waiting` is what other tasks do to the state until the last one has
  -- answered.
  unfoldable pub execute_delegations :
      ℕ
      → (CoordinatorDelegation → ℕ → Answer × ℕ)
      → (DaemonState C F → DaemonState C F)
      → List (Turn C F × CoordinatorDelegation)
      → DaemonState C F
      → DaemonState C F × List DelegateTaskResponse
  unfolding prepare mark_busy announce_busy settle_all
  execute_delegations now answer waiting delegations s =
      let batch = prepare delegations [] s in
      let marked = record batch.0 { busy_agents = mark_busy batch.1 batch.0.busy_agents } in
      batch_result batch (settle_all now answer batch.1 (waiting (announce_busy batch.1 marked)))
