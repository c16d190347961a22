-- ===== src/Agents/Refinement.antt =====
-- An `AgentManager` refines the complete histories of its agents
-- (crates/cca-daemon/src/agent_manager.rs).
use cca.Common.{
  ℕ, ◌≡◌, refl, sym, ap, subst, ◌∙◌, inl, inr, Bool, true, false, List, [], ◌∷◌, ◌++◌, Option, none,
  some, ℕ_discrete, arith, length, Has, if_pos, if_neg, Bool-cases, leb,
}
use cca.Common.Map
use cca.Common.Map.{Map}
use cca.Core.Role.{AgentRole}
use cca.Tokens.{Text}
use cca.Agents.{
  AgentManager, ManagedAgent, ManagerConfig, LogEntry, log, log_all, start_entry, result_entries,
  safe_truncate_with_ellipsis,
}
use cca.Agents.Manager.{
  new, spawn, registered, start_interactive_session, open_by, open_session,
  stop_interactive_session, change, stop, stop_by, stop_ids, stop_all, prepare_task, prepare_by,
  record_task_result, add_log, clear_current_task,
}
use cca.Agents.Calls.{
  Call, spawned, opened, closed, stopped, stopped_all, prepared, finished, noted, cleared, call,
  run, IsBounded, call-IsBounded,
}
use cca.Agents.History.{
  Histories, remember, remember_all, logs-log_all, Keeps, nothing, Keeps-length, Keeps-update,
  Keeps-change, Keeps-insert, Keeps-remove,
}

Has-remove :
    (k j : ℕ) (m : Map ℕ ManagedAgent)
    → Has j (Map.keys (Map.remove ℕ_discrete k m))
    → Has j (Map.keys m) × ¬ (k ≡ j)
unfolding Map.remove
Has-remove k j [] h = absurd h
Has-remove k j (e ∷ m) h = elim (ℕ_discrete e.0 k) [
  | yes p ↦
      let (at, ne) = Has-remove k j m (
        subst (λ (r : Map ℕ ManagedAgent). Has j (Map.keys r)) (if_pos (ℕ_discrete e.0 k) p _ _)
          h) in
      (inr at, ne)
  | no p ↦
      elim (subst (λ (r : Map ℕ ManagedAgent). Has j (Map.keys r)) (if_neg (ℕ_discrete e.0 k) p _ _)
        h) [
          | inl q ↦ (inl q, λ s. p (q ∙ sym s))
          | inr h' ↦ let (at, ne) = Has-remove k j m h' in (inr at, ne)
        ]
]

remove_absent :
    (k : ℕ) (m : Map ℕ ManagedAgent) → Map.get ℕ_discrete k m ≡ none → Map.remove ℕ_discrete k m ≡ m
unfolding Map.remove Map.get
remove_absent k [] h = refl
remove_absent k (e ∷ m) h = ground (arith, remove_absent k m)

update_absent :
    (k : ℕ) (f : ManagedAgent → ManagedAgent) (m : Map ℕ ManagedAgent)
    → Map.get ℕ_discrete k m ≡ none
    → Map.update ℕ_discrete k f m ≡ m
unfolding Map.update Map.get
update_absent k f [] h = refl
update_absent k f (e ∷ m) h = ground (arith, update_absent k f m)

no_keys : (m : Map ℕ ManagedAgent) → ((j : ℕ) → Has j (Map.keys m) → ⊥) → m ≡ []
no_keys [] h = refl
no_keys (e ∷ m) h = absurd (h e.0 (inl refl))

stop_by-agents :
    (o : Option ManagedAgent) (id : ℕ) (m : AgentManager)
    → Map.get ℕ_discrete id m.agents ≡ o
    → (stop_by o id m).0.agents ≡ Map.remove ℕ_discrete id m.agents
stop_by-agents none id m e = sym (remove_absent id m.agents e)
stop_by-agents (some a) id m e = refl

-- Stopping all that there are leaves none.
stop_ids_all :
    (ids : List ℕ) (m : AgentManager)
    → ((j : ℕ) → Has j (Map.keys m.agents) → Has j ids)
    → (stop_ids ids m).agents ≡ []
unfolding stop_ids stop
stop_ids_all [] m all = no_keys m.agents all
stop_ids_all (k ∷ ids) m all = stop_ids_all ids (stop k m).0 (λ j h.
    let (at, ne) = Has-remove k j m.agents (
      subst (λ (r : Map ℕ ManagedAgent). Has j (Map.keys r))
        (stop_by-agents (Map.get ℕ_discrete k m.agents) k m refl) h) in
    elim (all j at) [ inl q ↦ absurd (ne q) | inr h' ↦ h' ])

module _ (config : ManagerConfig) (size : Text → Text) where
  change-Keeps :
      (id : ℕ) (f : ManagedAgent → ManagedAgent) (o : Option ManagedAgent) (m : AgentManager)
      (h : Histories)
      → ((a : ManagedAgent) → (f a).logs ≡ a.logs)
      → Keeps m.agents h
      → Keeps (change id f o m).0.agents h
  change-Keeps id f none m h same k = k
  change-Keeps id f (some a) m h same k = Keeps-change id f m.agents h same k

  open_session-Keeps :
      (there works : Bool) (id : ℕ) (m : AgentManager) (h : Histories)
      → Keeps m.agents h
      → Keeps (open_session there works id m).0.agents h
  open_session-Keeps true works id m h k = k
  open_session-Keeps false false id m h k = k
  open_session-Keeps false true id m h k =
      Keeps-change id (λ a. record a { interactive_session = true }) m.agents h (λ a. refl) k

  open_by-Keeps :
      (o : Option ManagedAgent) (works : Bool) (id : ℕ) (m : AgentManager) (h : Histories)
      → Keeps m.agents h
      → Keeps (open_by o works id m).0.agents h
  open_by-Keeps none works id m h k = k
  open_by-Keeps (some a) works id m h k = open_session-Keeps a.interactive_session works id m h k

  spawn-Keeps :
      (id : ℕ) (role : AgentRole) (m : AgentManager) (h : Histories)
      → m.config ≡ config
      → Keeps m.agents h
      → Keeps (spawn id role m).0.agents (remember config.max_agents size (spawned id role) h)
  unfolding spawn registered
  spawn-Keeps id role m h c k =
      let limit : m.config.max_agents ≡ config.max_agents =
        ap (λ (x : ManagerConfig). x.max_agents) c in
      elim (Bool-cases (leb config.max_agents (length h))) [
        | inl e ↦ rw (limit, Keeps-length m.agents h k, e) k
        | inr e ↦
            rw (limit, Keeps-length m.agents h k, e)
              (Keeps-insert id (registered id role) m.agents h refl k)
      ]

  -- Entries that are logged for an agent, with a change of the rest of it.
  log_all-Keeps :
      (es : List LogEntry) (id : ℕ) (f : ManagedAgent → ManagedAgent) (m : Map ℕ ManagedAgent)
      (h : Histories)
      → ((a : ManagedAgent) → (f a).logs ≡ a.logs)
      → Keeps m h
      → Keeps
          (Map.update ℕ_discrete id (λ a. log_all es (f a)) m)
          (Map.update ℕ_discrete id (λ old. old ++ es) h)
  log_all-Keeps es id f m h same k =
      Keeps-update id (λ a. log_all es (f a)) (λ old. old ++ es) m h
        (λ a old e. logs-log_all es (f a) old (same a ∙ e)) k

  prepared_as :
      (o : Option ManagedAgent) (now id : ℕ) (message : Text) (m : AgentManager) (h : Histories)
      → Map.get ℕ_discrete id m.agents ≡ o
      → Keeps
          (Map.update ℕ_discrete id
            (λ a.
              log
                (start_entry now message)
                (record a { current_task = some (safe_truncate_with_ellipsis message 100) }))
            m.agents)
          (remember config.max_agents size (prepared now id message) h)
      → Keeps
          (prepare_by o now id message m).0.agents
          (remember config.max_agents size (prepared now id message) h)
  prepared_as (some a) now id message m h e k = k
  prepared_as none now id message m h e k =
      subst
        (λ (r : Map ℕ ManagedAgent).
          Keeps r (remember config.max_agents size (prepared now id message) h))
        (update_absent id _ m.agents e) k

  prepare_by-Keeps :
      (o : Option ManagedAgent) (now id : ℕ) (message : Text) (m : AgentManager) (h : Histories)
      → Map.get ℕ_discrete id m.agents ≡ o
      → Keeps m.agents h
      → Keeps
          (prepare_by o now id message m).0.agents
          (remember config.max_agents size (prepared now id message) h)
  prepare_by-Keeps o now id message m h e k =
      let f = λ (a : ManagedAgent). record a {
        current_task = some (safe_truncate_with_ellipsis message 100);
      } in
      let kept = log_all-Keeps (start_entry now message ∷ []) id f m.agents h (λ a. refl) k in
      prepared_as o now id message m h e kept

  call-Keeps :
      (c : Call) (m : AgentManager) (h : Histories)
      → m.config ≡ config
      → Keeps m.agents h
      → Keeps (call size c m).agents (remember config.max_agents size c h)
  unfolding call start_interactive_session stop_interactive_session stop stop_all prepare_task
      record_task_result add_log clear_current_task
  call-Keeps (spawned id role) m h c k = spawn-Keeps id role m h c k
  call-Keeps (opened works id) m h c k =
      open_by-Keeps (Map.get ℕ_discrete id m.agents) works id m h k
  call-Keeps (closed id) m h c k =
      change-Keeps id (λ a. record a { interactive_session = false })
        (Map.get ℕ_discrete id m.agents) m h (λ a. refl) k
  call-Keeps (stopped id) m h c k =
      rw (stop_by-agents (Map.get ℕ_discrete id m.agents) id m refl) (Keeps-remove id m.agents h k)
  call-Keeps stopped_all m h c k = rw (stop_ids_all (Map.keys m.agents) m (λ j at. at)) nothing
  call-Keeps (prepared now id message) m h c k =
      prepare_by-Keeps (Map.get ℕ_discrete id m.agents) now id message m h refl k
  call-Keeps (finished now id success output reason) m h c k =
      log_all-Keeps (result_entries size now success output reason) id
        (λ a. record a { current_task = none }) m.agents h (λ a. refl) k
  call-Keeps (noted now id level message) m h c k =
      log_all-Keeps (record { timestamp = now; level = level; message = message } ∷ []) id (λ a. a)
        m.agents h (λ a. refl) k
  call-Keeps (cleared id) m h c k =
      Keeps-change id (λ a. record a { current_task = none }) m.agents h (λ a. refl) k

  run-Keeps :
      (cs : List Call) (m : AgentManager) (h : Histories)
      → IsBounded config m
      → Keeps m.agents h
      → Keeps (run size cs m).agents (remember_all config.max_agents size cs h)
  unfolding run
  run-Keeps [] m h b k = k
  run-Keeps (c ∷ cs) m h b k =
      run-Keeps cs (call size c m) (remember config.max_agents size c h)
        (call-IsBounded config size c m b) (call-Keeps c m h b.same k)

  -- After any calls on a new manager, it has the agents that the specification has, which keeps all
  -- entries that were ever logged for an agent, in the same order, and its logs are the last 100 of
  -- the entries of each.
  pub run-new-Keeps :
      (cs : List Call)
      → Keeps (run size cs (new config)).agents (remember_all config.max_agents size cs [])
  unfolding new
  run-new-Keeps cs =
      run-Keeps cs (new config) [] (record { same = refl; within = omega arith }) nothing
