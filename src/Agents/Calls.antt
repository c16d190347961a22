-- ===== src/Agents/Calls.antt =====
-- Sequences of calls of an `AgentManager`, and the number of its agents
-- (crates/cca-daemon/src/agent_manager.rs).
use cca.Common.{
  ℕ, suc, ◌≤◌, ◌≡◌, refl, ap, Bool, List, [], ◌∷◌, Option, none, some, true, false, ℕ_discrete,
  arith, length, if-elim, leb,
}
use cca.Common.Map
use cca.Common.Map.{Map}
use cca.Core.Role.{AgentRole}
use cca.Tokens.{Text}
use cca.Agents.{AgentManager, ManagedAgent, Outcome, ManagerConfig, Level}
use cca.Agents.Manager.{
  new, spawn, registered, start_interactive_session, open_by, open_session,
  stop_interactive_session, change, stop, stop_by, stop_ids, stop_all, prepare_task, prepare_by,
  record_task_result, add_log, clear_current_task,
}

pub data Call : Type 0 where
  spawned : ℕ → AgentRole → Call
  opened : Bool → ℕ → Call
  closed : ℕ → Call
  stopped : ℕ → Call
  stopped_all : Call
  prepared : ℕ → ℕ → Text → Call
  finished : ℕ → ℕ → Bool → Text → Option Text → Call
  noted : ℕ → ℕ → Level → Text → Call
  cleared : ℕ → Call

-- `size` prints the size of a text.
unfoldable pub call : (Text → Text) → Call → AgentManager → AgentManager
unfolding spawn start_interactive_session stop_interactive_session stop stop_all prepare_task
    record_task_result add_log clear_current_task
call size (spawned id role) m = (spawn id role m).0
call size (opened ok id) m = (start_interactive_session ok id m).0
call size (closed id) m = (stop_interactive_session id m).0
call size (stopped id) m = (stop id m).0
call size stopped_all m = stop_all m
call size (prepared now id message) m = (prepare_task now id message m).0
call size (finished now id success output reason) m =
    record_task_result size now id success output reason m
call size (noted now id level message) m = add_log now id level message m
call size (cleared id) m = clear_current_task id m

unfoldable pub run : (Text → Text) → List Call → AgentManager → AgentManager
unfolding call
run size [] m = m
run size (c ∷ cs) m = run size cs (call size c m)

length-insert :
    (id : ℕ) (a : ManagedAgent) (m : Map ℕ ManagedAgent)
    → length (Map.insert ℕ_discrete id a m) ≤ suc (length m)
unfolding Map.insert
length-insert id a [] = omega arith
length-insert id a (e ∷ m) = ground (arith, length-insert id a m)

length-remove : (id : ℕ) (m : Map ℕ ManagedAgent) → length (Map.remove ℕ_discrete id m) ≤ length m
unfolding Map.remove
length-remove id [] = omega arith
length-remove id (e ∷ m) = ground (arith, length-remove id m)

length-update :
    (id : ℕ) (f : ManagedAgent → ManagedAgent) (m : Map ℕ ManagedAgent)
    → length (Map.update ℕ_discrete id f m) ≡ length m
unfolding Map.update
length-update id f [] = refl
length-update id f (e ∷ m) = ground (arith, length-update id f m)

not_full : (limit n : ℕ) → leb limit n ≡ false → suc n ≤ limit
not_full limit n e = ground arith

-- No more agents than the configuration allows.
pub record IsBounded (config : ManagerConfig) (m : AgentManager) : Type 0 where
  pub same : m.config ≡ config
  pub within : length m.agents ≤ config.max_agents

module _ (config : ManagerConfig) where
  update-IsBounded :
      (id : ℕ) (f : ManagedAgent → ManagedAgent) (m : AgentManager)
      → IsBounded config m
      → IsBounded config (record m { agents = Map.update ℕ_discrete id f m.agents })
  update-IsBounded id f m b = record {
    same = b.same;
    within = omega (arith, b.within, length-update id f m.agents);
  }

  spawn-IsBounded :
      (id : ℕ) (role : AgentRole) (m : AgentManager)
      → IsBounded config m
      → IsBounded config (spawn id role m).0
  unfolding spawn
  spawn-IsBounded id role m b =
      if-elim (λ (r : AgentManager × Outcome ℕ). IsBounded config r.0)
        (leb m.config.max_agents (length m.agents)) (λ _. b)
        (λ room. record {
          same = b.same;
          within =
              let limit = ap (λ (c : ManagerConfig). c.max_agents) b.same in
              omega (
                arith,
                limit,
                b.within,
                length-insert id (registered id role) m.agents,
                not_full _ _ room,
              );
        })

  stop_by-IsBounded :
      (o : Option ManagedAgent) (id : ℕ) (m : AgentManager)
      → IsBounded config m
      → IsBounded config (stop_by o id m).0
  stop_by-IsBounded none id m b = b
  stop_by-IsBounded (some a) id m b = record {
    same = b.same;
    within = omega (arith, b.within, length-remove id m.agents);
  }

  change-IsBounded :
      (id : ℕ) (f : ManagedAgent → ManagedAgent) (o : Option ManagedAgent) (m : AgentManager)
      → IsBounded config m
      → IsBounded config (change id f o m).0
  change-IsBounded id f none m b = b
  change-IsBounded id f (some a) m b = update-IsBounded id f m b

  open_session-IsBounded :
      (there works : Bool) (id : ℕ) (m : AgentManager)
      → IsBounded config m
      → IsBounded config (open_session there works id m).0
  open_session-IsBounded true works id m b = b
  open_session-IsBounded false false id m b = b
  open_session-IsBounded false true id m b =
      update-IsBounded id (λ a. record a { interactive_session = true }) m b

  open_by-IsBounded :
      (o : Option ManagedAgent) (works : Bool) (id : ℕ) (m : AgentManager)
      → IsBounded config m
      → IsBounded config (open_by o works id m).0
  open_by-IsBounded none works id m b = b
  open_by-IsBounded (some a) works id m b =
      open_session-IsBounded a.interactive_session works id m b

  prepare_by-IsBounded :
      (o : Option ManagedAgent) (now id : ℕ) (message : Text) (m : AgentManager)
      → IsBounded config m
      → IsBounded config (prepare_by o now id message m).0
  prepare_by-IsBounded none now id message m b = b
  prepare_by-IsBounded (some a) now id message m b = update-IsBounded id _ m b

  stop-IsBounded : (id : ℕ) (m : AgentManager) → IsBounded config m → IsBounded config (stop id m).0
  unfolding stop
  stop-IsBounded id m b = stop_by-IsBounded (Map.get ℕ_discrete id m.agents) id m b

  stop_ids-IsBounded :
      (ids : List ℕ) (m : AgentManager) → IsBounded config m → IsBounded config (stop_ids ids m)
  unfolding stop_ids
  stop_ids-IsBounded [] m b = b
  stop_ids-IsBounded (id ∷ ids) m b = stop_ids-IsBounded ids (stop id m).0 (stop-IsBounded id m b)

  pub call-IsBounded :
      (size : Text → Text) (c : Call) (m : AgentManager)
      → IsBounded config m
      → IsBounded config (call size c m)
  unfolding call
  call-IsBounded size (spawned id role) m b = spawn-IsBounded id role m b
  call-IsBounded size (opened ok id) m b =
      open_by-IsBounded (Map.get ℕ_discrete id m.agents) ok id m b
  call-IsBounded size (closed id) m b = change-IsBounded id _ (Map.get ℕ_discrete id m.agents) m b
  call-IsBounded size (stopped id) m b = stop-IsBounded id m b
  call-IsBounded size stopped_all m b = stop_ids-IsBounded (Map.keys m.agents) m b
  call-IsBounded size (prepared now id message) m b =
      prepare_by-IsBounded (Map.get ℕ_discrete id m.agents) now id message m b
  call-IsBounded size (finished now id success output reason) m b = update-IsBounded id _ m b
  call-IsBounded size (noted now id level message) m b = update-IsBounded id _ m b
  call-IsBounded size (cleared id) m b = update-IsBounded id _ m b

  run-IsBounded :
      (size : Text → Text) (cs : List Call) (m : AgentManager)
      → IsBounded config m
      → IsBounded config (run size cs m)
  unfolding run
  run-IsBounded size [] m b = b
  run-IsBounded size (c ∷ cs) m b =
      run-IsBounded size cs (call size c m) (call-IsBounded size c m b)

  -- After any calls on a new manager it has no more agents than its configuration allows.
  pub run-new-IsBounded :
      (size : Text → Text) (cs : List Call) → IsBounded config (run size cs (new config))
  unfolding new
  run-new-IsBounded size cs =
      run-IsBounded size cs (new config) (record { same = refl; within = omega arith })
