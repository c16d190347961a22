-- ===== src/Daemon/Delegations/Completion.antt =====
-- How a batch of delegations ends (crates/cca-daemon/src/daemon.rs).
use cca.Common.{
  ℕ, suc, ◌+◌, ◌≡◌, refl, sym, ap, ◌∙◌, inl, inr, ◌⊎◌, List, [], ◌∷◌, ◌++◌, none, some, String,
  ℕ_discrete, F64, if-elim, ltb, arith, Has, length, length-append, ite,
}
use cca.Common.Map
use cca.Common.Map.{Map}
use cca.Daemon.Delegations.{
  CoordinatorDelegation, DaemonState, Turn, Answer, done, failed, Acquired, agent, refused,
  DelegateTaskResponse, with_assigned, add_outcome, update_agent_redis_state, announce_busy,
  release, mark_busy, batch_result,
}
use cca.Daemon.Delegations.Execution.{
  acquire, prepare, track_tokens, store_task_as_pattern, conclude, settle_all, execute_delegations,
}
use cca.Daemon.Delegations.Assignment.{ids}

Has-append : {A : Type 0} (a : A) (x y : List A) → Has a (x ++ y) → Has a x ⊎ Has a y
Has-append a [] y h = inr h
Has-append a (c ∷ x) y (inl e) = inl (inl e)
Has-append a (c ∷ x) y (inr h) = elim (Has-append a x y h) [ inl q ↦ inl (inr q) | inr q ↦ inr q ]

module _ {C F : Type 0} (to_lowercase : String → String) (fl : F64 F) where
  add_outcome-length :
      (d : CoordinatorDelegation) (x : Acquired)
      (r : DaemonState C F × List (CoordinatorDelegation × ℕ) × List DelegateTaskResponse)
      → length (add_outcome d x r).1 + length (add_outcome d x r).2 ≡ suc (length r.1 + length r.2)
  add_outcome-length d (agent a) r = omega arith
  add_outcome-length d (refused e) r = omega arith

  add_outcome-errors :
      (d : CoordinatorDelegation) (x : Acquired)
      (t : DaemonState C F × List (CoordinatorDelegation × ℕ) × List DelegateTaskResponse)
      (r : DelegateTaskResponse)
      → (Has r t.2 → r.agent_id ≡ none)
      → Has r (add_outcome d x t).2
      → r.agent_id ≡ none
  add_outcome-errors d (agent a) t r f h = f h
  add_outcome-errors d (refused e) t r f (inl p) = ap (λ x. x.agent_id) (sym p)
  add_outcome-errors d (refused e) t r f (inr h) = f h

  release-busy_agents :
      (d : CoordinatorDelegation) (a : ℕ) (s : DaemonState C F)
      → (release d a s).busy_agents ≡ Map.remove ℕ_discrete a s.busy_agents
  unfolding release update_agent_redis_state
  release-busy_agents d a s =
      if-elim (λ (x : DaemonState C F). x.busy_agents ≡ Map.remove ℕ_discrete a s.busy_agents)
        s.redis (λ _. refl) (λ _. refl)

  tracked :
      (now a tokens_used : ℕ) (s : DaemonState C F)
      → (track_tokens to_lowercase fl now a tokens_used s).busy_agents ≡ s.busy_agents
  unfolding track_tokens
  tracked now a tokens_used s =
      if-elim (λ (x : DaemonState C F). x.busy_agents ≡ s.busy_agents) (ltb 0 tokens_used)
        (λ _. refl) (λ _. refl)

  prepare-length :
      (ds : List (Turn C F × CoordinatorDelegation)) (already : List ℕ) (s : DaemonState C F)
      → let r = prepare to_lowercase fl ds already s in length r.1 + length r.2 ≡ length ds
  unfolding prepare
  prepare-length [] already s = refl
  prepare-length ((turn, d) ∷ ds) already s =
      let (s', outcome) = acquire to_lowercase fl turn d already s in
      let already' = with_assigned outcome already in
      add_outcome-length d outcome (prepare to_lowercase fl ds already' s')
      ∙ ap suc (prepare-length ds already' s')

  settle_all-length :
      (now : ℕ) (answer : CoordinatorDelegation → ℕ → Answer × ℕ)
      (prepared : List (CoordinatorDelegation × ℕ)) (s : DaemonState C F)
      → length (settle_all to_lowercase fl now answer prepared s).1 ≡ length prepared
  unfolding settle_all
  settle_all-length now answer [] s = refl
  settle_all-length now answer ((d, a) ∷ prepared) s = ap suc (
      settle_all-length now answer prepared
        (conclude to_lowercase fl now d a (answer d a) (release d a s)).0)

  batch_result-length :
      (r : DaemonState C F × List (CoordinatorDelegation × ℕ) × List DelegateTaskResponse)
      (settled : DaemonState C F × List DelegateTaskResponse) (n : ℕ)
      → length r.1 + length r.2 ≡ n
      → length settled.1 ≡ length r.1
      → length (batch_result r settled).1 ≡ n
  batch_result-length (s, [], errors) settled n p q = omega (arith, p)
  batch_result-length (s, e ∷ es, errors) settled n p q =
      omega (arith, p, q, length-append errors settled.1)

  -- Every delegation gets one response, whatever other tasks do and whatever the agents answer.
  pub execute_delegations-length :
      (now : ℕ) (answer : CoordinatorDelegation → ℕ → Answer × ℕ)
      (waiting : DaemonState C F → DaemonState C F)
      (delegations : List (Turn C F × CoordinatorDelegation)) (s : DaemonState C F)
      → length (execute_delegations to_lowercase fl now answer waiting delegations s).1
        ≡ length delegations
  unfolding execute_delegations
  execute_delegations-length now answer waiting delegations s =
      let batch = prepare to_lowercase fl delegations [] s in
      let marked = record batch.0 { busy_agents = mark_busy batch.1 batch.0.busy_agents } in
      let s2 = waiting (announce_busy batch.1 marked) in
      batch_result-length batch (settle_all to_lowercase fl now answer batch.1 s2)
        (length delegations) (prepare-length delegations [] s)
        (settle_all-length now answer batch.1 s2)

  -- No agent is named in an error of the preparation.
  prepare-errors :
      (ds : List (Turn C F × CoordinatorDelegation)) (already : List ℕ) (s : DaemonState C F)
      (r : DelegateTaskResponse)
      → Has r (prepare to_lowercase fl ds already s).2
      → r.agent_id ≡ none
  unfolding prepare
  prepare-errors [] already s r h = absurd h
  prepare-errors ((turn, d) ∷ ds) already s r h =
      let (s', outcome) = acquire to_lowercase fl turn d already s in
      let already' = with_assigned outcome already in
      add_outcome-errors d outcome (prepare to_lowercase fl ds already' s') r
        (prepare-errors ds already' s' r) h

  conclude-agent_id :
      (now : ℕ) (d : CoordinatorDelegation) (a : ℕ) (x : Answer × ℕ) (s : DaemonState C F)
      → (conclude to_lowercase fl now d a x s).1.agent_id ≡ some a
  conclude-agent_id now d a (done output tokens, ms) s = refl
  conclude-agent_id now d a (failed e, ms) s = refl

  conclude-busy_agents :
      (now : ℕ) (d : CoordinatorDelegation) (a : ℕ) (x : Answer × ℕ) (s : DaemonState C F)
      → (conclude to_lowercase fl now d a x s).0.busy_agents ≡ s.busy_agents
  unfolding store_task_as_pattern track_tokens
  conclude-busy_agents now d a (failed e, ms) s = refl
  conclude-busy_agents now d a (done output tokens, ms) s =
      let t = track_tokens to_lowercase fl now a tokens s in
      if-elim (λ (x : DaemonState C F). x.busy_agents ≡ s.busy_agents) t.postgres
        (λ _. tracked now a tokens s) (λ _. tracked now a tokens s)

  -- After an agent's result it is free.
  released :
      (now : ℕ) (answer : CoordinatorDelegation → ℕ → Answer × ℕ) (d : CoordinatorDelegation)
      (a b : ℕ) (s : DaemonState C F)
      → (a ≡ b) ⊎ (Map.get ℕ_discrete b s.busy_agents ≡ none)
      → Map.get ℕ_discrete b
          (conclude to_lowercase fl now d a (answer d a) (release d a s)).0.busy_agents
        ≡ none
  unfolding release
  released now answer d a b s h =
      ap (Map.get ℕ_discrete b)
        (conclude-busy_agents now d a (answer d a) (release d a s) ∙ release-busy_agents d a s)
      ∙ Map.get-remove ℕ_discrete b a s.busy_agents
      ∙ elim (ℕ_discrete a b) as (λ x. ite x none (Map.get ℕ_discrete b s.busy_agents) ≡ none) [
        | yes p ↦ refl
        | no p ↦ elim h [ inl q ↦ absurd (p q) | inr q ↦ q ]
      ]

  settle_all-releases :
      (now : ℕ) (answer : CoordinatorDelegation → ℕ → Answer × ℕ)
      (prepared : List (CoordinatorDelegation × ℕ)) (s : DaemonState C F) (b : ℕ)
      → Has b (ids prepared) ⊎ (Map.get ℕ_discrete b s.busy_agents ≡ none)
      → Map.get ℕ_discrete b (settle_all to_lowercase fl now answer prepared s).0.busy_agents ≡ none
  unfolding settle_all
  settle_all-releases now answer [] s b (inl h) = absurd h
  settle_all-releases now answer [] s b (inr h) = h
  settle_all-releases now answer ((d, a) ∷ prepared) s b h =
      settle_all-releases now answer prepared
        (conclude to_lowercase fl now d a (answer d a) (release d a s)).0 b
        (elim h [
          | inl (inl p) ↦ inr (released now answer d a b s (inl p))
          | inl (inr m) ↦ inl m
          | inr e ↦ inr (released now answer d a b s (inr e))
        ])

  settle_all-agents :
      (now : ℕ) (answer : CoordinatorDelegation → ℕ → Answer × ℕ)
      (prepared : List (CoordinatorDelegation × ℕ)) (s : DaemonState C F) (r : DelegateTaskResponse)
      (b : ℕ)
      → Has r (settle_all to_lowercase fl now answer prepared s).1
      → r.agent_id ≡ some b
      → Has b (ids prepared)
  unfolding settle_all
  settle_all-agents now answer [] s r b h e = absurd h
  settle_all-agents now answer ((d, a) ∷ prepared) s r b (inl p) e =
      let named : some a ≡ some b =
        sym (conclude-agent_id now d a (answer d a) (release d a s)) ∙ ap (λ x. x.agent_id) p ∙ e in
      inl (ground (arith, named))
  settle_all-agents now answer ((d, a) ∷ prepared) s r b (inr h) e = inr (
      settle_all-agents now answer prepared
        (conclude to_lowercase fl now d a (answer d a) (release d a s)).0 r b h e)

  batch_result-free :
      (batch : DaemonState C F × List (CoordinatorDelegation × ℕ) × List DelegateTaskResponse)
      (settled : DaemonState C F × List DelegateTaskResponse) (r : DelegateTaskResponse) (a : ℕ)
      → (Has r batch.2 → r.agent_id ≡ none)
      → (Has r settled.1 → Map.get ℕ_discrete a settled.0.busy_agents ≡ none)
      → r.agent_id ≡ some a
      → Has r (batch_result batch settled).1
      → Map.get ℕ_discrete a (batch_result batch settled).0.busy_agents ≡ none
  batch_result-free (s, [], errors) settled r a f g e h = absurd (cc (f h, e))
  batch_result-free (s, p ∷ ps, errors) settled r a f g e h =
      elim (Has-append r errors settled.1 h) [ inl m ↦ absurd (cc (f m, e)) | inr m ↦ g m ]

  -- An agent that a response names is not marked as busy when the call ends: it was given the
  -- delegation and is free again, whether it answered or failed (also by running out of time), and
  -- whatever other tasks did to the state until the last agent had answered.
  pub execute_delegations-free :
      (now : ℕ) (answer : CoordinatorDelegation → ℕ → Answer × ℕ)
      (waiting : DaemonState C F → DaemonState C F)
      (delegations : List (Turn C F × CoordinatorDelegation)) (s : DaemonState C F)
      (r : DelegateTaskResponse) (a : ℕ)
      → Has r (execute_delegations to_lowercase fl now answer waiting delegations s).1
      → r.agent_id ≡ some a
      → Map.get ℕ_discrete a
          (execute_delegations to_lowercase fl now answer waiting delegations s).0.busy_agents
        ≡ none
  unfolding execute_delegations
  execute_delegations-free now answer waiting delegations s r a h e =
      let batch = prepare to_lowercase fl delegations [] s in
      let marked = record batch.0 { busy_agents = mark_busy batch.1 batch.0.busy_agents } in
      let s2 = waiting (announce_busy batch.1 marked) in
      batch_result-free batch (settle_all to_lowercase fl now answer batch.1 s2) r a
        (prepare-errors delegations [] s r)
        (λ m.
          settle_all-releases now answer batch.1 s2 a
            (inl (settle_all-agents now answer batch.1 s2 r a m e)))
        e h
