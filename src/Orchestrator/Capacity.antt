-- ===== src/Orchestrator/Capacity.antt =====
-- The load of the agents (crates/cca-daemon/src/orchestrator.rs): an entry of the table of workloads
-- that fits its agent, and what the changes of the table make of it.
use cca.Common.{
  ℕ, ◌≤◌, ◌<◌, ◌-◌, ◌≡◌, refl, sym, ap, ◌∙◌, inl, inr, Bool, true, false, [], ◌∷◌, arith, Has,
  u32_mod, ℕ_discrete, if_pos, if_neg, F64, subst, if-elim, Bool-cases, ltb,
}
use cca.Common.Map
use cca.Common.Map.{Map, Distinct, keys, values}
use cca.Orchestrator.{AgentWorkload}
use cca.Orchestrator.Routing.{one_more}
use cca.Orchestrator.Outcomes.{after_result, one_less, count_result, rate, average_time}

module _ {F : Type 0} where
  -- Under its own identifier, and with no more tasks than it may have.
  abbrev pub Fits : ℕ → AgentWorkload F → Type 0
  Fits k w = (w.agent_id ≡ k) × (w.current_tasks ≤ w.max_tasks) × (w.max_tasks < u32_mod)

  abbrev pub AllFit : Map ℕ (AgentWorkload F) → Type 0
  AllFit [] = Unit {0}
  AllFit (e ∷ m) = Fits e.0 e.1 × AllFit m

  update-same :
      (k : ℕ) (f : AgentWorkload F → AgentWorkload F) (m : Map ℕ (AgentWorkload F))
      → ¬ Has k (keys m)
      → Map.update ℕ_discrete k f m ≡ m
  unfolding Map.update
  update-same k f [] h = refl
  update-same k f (e ∷ m) h =
      rw (if_neg (ℕ_discrete e.0 k) (λ p. h (inl p)), update-same k f m (λ q. h (inr q))) refl

  Has-values-keys :
      (w : AgentWorkload F) (m : Map ℕ (AgentWorkload F))
      → AllFit m
      → Has w (values m)
      → Has w.agent_id (keys m)
  Has-values-keys w [] h q = absurd q
  Has-values-keys w (e ∷ m) h (inl p) = inl (sym h.0.0 ∙ ap (λ v. v.agent_id) p)
  Has-values-keys w (e ∷ m) h (inr q) = inr (Has-values-keys w m h.1 q)

  one_more-Fits :
      (k : ℕ) (w : AgentWorkload F) → Fits k w → w.current_tasks < w.max_tasks → Fits k (one_more w)
  unfolding one_more
  one_more-Fits k w h lt = (h.0, omega (arith, h.1, h.2), h.2)

  -- One task more for an agent that has room.
  pub one_more-AllFit :
      (k : ℕ) (w : AgentWorkload F) (m : Map ℕ (AgentWorkload F))
      → AllFit m
      → Distinct m
      → Has w (values m)
      → w.agent_id ≡ k
      → w.current_tasks < w.max_tasks
      → AllFit (Map.update ℕ_discrete k one_more m)
  unfolding Map.update
  one_more-AllFit k w [] h d q e lt = tt
  one_more-AllFit k w (x ∷ m) h d (inl p) e lt =
      let key : x.0 ≡ k = sym h.0.0 ∙ ap (λ v. v.agent_id) p ∙ e in
      let out : ¬ Has k (keys m) = subst (λ j. ¬ Has j (keys m)) key d.0 in
      let room : x.1.current_tasks < x.1.max_tasks =
        subst (λ v. v.current_tasks < v.max_tasks) (sym p) lt in
      rw (if_pos (ℕ_discrete x.0 k) key, update-same k one_more m out)
        (one_more-Fits x.0 x.1 h.0 room, h.1)
  one_more-AllFit k w (x ∷ m) h d (inr q) e lt =
      let inside : Has k (keys m) = subst (λ j. Has j (keys m)) e (Has-values-keys w m h.1 q) in
      rw (if_neg (ℕ_discrete x.0 k) (λ p. d.0 (subst (λ j. Has j (keys m)) (sym p) inside)))
        (h.0, one_more-AllFit k w m h.1 d.1 q e lt)

  -- A change of the entries that fits them again.
  pub update-AllFit :
      (k : ℕ) (f : AgentWorkload F → AgentWorkload F) (m : Map ℕ (AgentWorkload F))
      → ((j : ℕ) (w : AgentWorkload F) → Fits j w → Fits j (f w))
      → AllFit m
      → AllFit (Map.update ℕ_discrete k f m)
  unfolding Map.update
  update-AllFit k f [] keep h = tt
  update-AllFit k f (x ∷ m) keep h = elim (ℕ_discrete x.0 k) [
    | yes p ↦ rw (if_pos (ℕ_discrete x.0 k) p) (keep x.0 x.1 h.0, update-AllFit k f m keep h.1)
    | no p ↦ rw (if_neg (ℕ_discrete x.0 k) p) (h.0, update-AllFit k f m keep h.1)
  ]

  pub insert-AllFit :
      (k : ℕ) (w : AgentWorkload F) (m : Map ℕ (AgentWorkload F))
      → Fits k w
      → AllFit m
      → AllFit (Map.insert ℕ_discrete k w m)
  unfolding Map.insert
  insert-AllFit k w [] p h = (p, tt)
  insert-AllFit k w (x ∷ m) p h = elim (ℕ_discrete x.0 k) [
    | yes q ↦ rw (if_pos (ℕ_discrete x.0 k) q) (p, h.1)
    | no q ↦ rw (if_neg (ℕ_discrete x.0 k) q) (h.0, insert-AllFit k w m p h.1)
  ]

  pub remove-AllFit :
      (k : ℕ) (m : Map ℕ (AgentWorkload F)) → AllFit m → AllFit (Map.remove ℕ_discrete k m)
  unfolding Map.remove
  remove-AllFit k [] h = tt
  remove-AllFit k (x ∷ m) h = elim (ℕ_discrete x.0 k) [
    | yes q ↦ rw (if_pos (ℕ_discrete x.0 k) q) (remove-AllFit k m h.1)
    | no q ↦ rw (if_neg (ℕ_discrete x.0 k) q) (h.0, remove-AllFit k m h.1)
  ]

  -- Whose workload it is, its maximum and its tasks.
  abbrev pub load : AgentWorkload F → ℕ × ℕ × ℕ
  load w = (w.agent_id, w.max_tasks, w.current_tasks)

  count_result-load :
      (fl : F64 F) (success : Bool) (w : AgentWorkload F)
      → load (count_result fl success w) ≡ load w
  unfolding count_result
  count_result-load fl true w = refl
  count_result-load fl false w = refl

  rate-load : (fl : F64 F) (w : AgentWorkload F) → load (rate fl w) ≡ load w
  unfolding rate
  rate-load fl w = if-elim (λ v. load v ≡ load w) _ (λ e. refl) (λ e. refl)

  average_time-load :
      (fl : F64 F) (duration_ms : ℕ) (w : AgentWorkload F)
      → load (average_time fl duration_ms w) ≡ load w
  unfolding average_time
  average_time-load fl duration_ms w = if-elim (λ v. load v ≡ load w) _ (λ e. refl) (λ e. refl)

  one_less-load :
      (fl : F64 F) (w : AgentWorkload F)
      → load (one_less fl w) ≡ (w.agent_id, w.max_tasks, w.current_tasks - 1)
  unfolding one_less
  one_less-load fl w = elim (Bool-cases (ltb 0 w.current_tasks)) [
    | inl e ↦ rw e refl
    | inr e ↦ ground arith
  ]

  -- What a result leaves of a workload: its agent and maximum, and a task less.
  pub after_result-load :
      (fl : F64 F) (success : Bool) (duration_ms : ℕ) (w : AgentWorkload F)
      → load (after_result fl success duration_ms w)
        ≡ (w.agent_id, w.max_tasks, w.current_tasks - 1)
  unfolding after_result
  after_result-load fl success duration_ms w =
      average_time-load fl duration_ms _
      ∙ rate-load fl _
      ∙ count_result-load fl success _
      ∙ one_less-load fl w

  pub after_result-Fits :
      (fl : F64 F) (success : Bool) (duration_ms k : ℕ) (w : AgentWorkload F)
      → Fits k w
      → Fits k (after_result fl success duration_ms w)
  after_result-Fits fl success duration_ms k w h =
      let e = after_result-load fl success duration_ms w in
      let id = ap (λ t. t.0) e in
      let maximum = ap (λ t. t.1) e in
      let current = ap (λ t. t.2) e in
      (id ∙ h.0, omega (arith, h.1, maximum, current), omega (arith, h.2, maximum))
