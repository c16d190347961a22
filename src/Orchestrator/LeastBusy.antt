-- ===== src/Orchestrator/LeastBusy.antt =====
-- The agent that is chosen for a task (crates/cca-daemon/src/orchestrator.rs): least busy by the
-- heuristic, and available by either way.
use cca.Common.{
  ℕ, ◌≤◌, ◌≡◌, refl, subst, leb→le, if-elim, sym, ◌⊎◌, inl, inr, true, List, [], ◌∷◌, some, String,
  ok, err, arith, leb, Has, Has-keep_if, Option-cases,
}
use cca.Common.Map
use cca.Orchestrator.{AgentWorkload, Orchestrator, no_available_agent}
use cca.Orchestrator.Selection.{
  is_available, candidates, insert_by_load, sort_by_load, first_id, min_by_load, or_unavailable,
  find_best_agent_heuristic,
}

module _ {F : Type 0} where
  -- No workload of the list is below `n`.
  abbrev pub AllAtLeast : ℕ → List (AgentWorkload F) → Type 0
  AllAtLeast n [] = Unit {0}
  AllAtLeast n (w ∷ ws) = (n ≤ w.current_tasks) × AllAtLeast n ws

  AllAtLeast-le :
      (m n : ℕ) (ws : List (AgentWorkload F)) → m ≤ n → AllAtLeast n ws → AllAtLeast m ws
  AllAtLeast-le m n [] h p = tt
  AllAtLeast-le m n (w ∷ ws) h p = (omega (arith, p.0), AllAtLeast-le m n ws h p.1)

  -- The head of the sorted list, or its being empty.
  abbrev HeadsLeast : List (AgentWorkload F) → List (AgentWorkload F) → Type 0
  HeadsLeast ws [] = ws ≡ []
  HeadsLeast ws (x ∷ xs) = Has x ws × AllAtLeast x.current_tasks ws

  insert-HeadsLeast :
      (w : AgentWorkload F) (ws sorted : List (AgentWorkload F))
      → HeadsLeast ws sorted
      → HeadsLeast (w ∷ ws) (insert_by_load w sorted)
  unfolding insert_by_load
  insert-HeadsLeast w ws [] h =
      (inl refl, (omega arith, subst (AllAtLeast w.current_tasks) (sym h) tt))
  insert-HeadsLeast w ws (x ∷ xs) h =
      if-elim (HeadsLeast (w ∷ ws)) (leb w.current_tasks x.current_tasks)
        (λ e. (
          inl refl,
          (omega arith, AllAtLeast-le w.current_tasks x.current_tasks ws (leb→le _ _ e) h.1),
        ))
        (λ e. (inr h.0, (ground arith, h.1)))

  sort-HeadsLeast : (ws : List (AgentWorkload F)) → HeadsLeast ws (sort_by_load ws)
  unfolding sort_by_load
  sort-HeadsLeast [] = refl
  sort-HeadsLeast (w ∷ ws) = insert-HeadsLeast w ws (sort_by_load ws) (sort-HeadsLeast ws)

  -- A choice that is available and least, or nothing to choose from.
  chosen :
      (role : String) (cs sorted : List (AgentWorkload F))
      → HeadsLeast cs sorted
      → ((w : AgentWorkload F) × Has w cs
          × AllAtLeast w.current_tasks cs
          × (or_unavailable role (first_id sorted) ≡ ok w.agent_id))
        ⊎ ((cs ≡ []) × (or_unavailable role (first_id sorted) ≡ err (no_available_agent role)))
  chosen role cs [] h = inr (h, refl)
  chosen role cs (x ∷ xs) h = inl (x, h.0, h.1, refl)

  pub Has-min_by_load :
      (w : AgentWorkload F) (ws : List (AgentWorkload F)) → min_by_load ws ≡ some w → Has w ws
  unfolding min_by_load
  Has-min_by_load w [] h = absurd (ground arith)
  Has-min_by_load w (x ∷ xs) h = elim (Option-cases (min_by_load xs)) [
    | inl e ↦ ground arith
    | inr (v, e) ↦ let rest = Has-min_by_load v xs e in ground arith
  ]

module _ {C F : Type 0} where
  -- The heuristic has exactly two outcomes: an agent with the role asked for, with room for a task and
  -- with no more tasks than any other such agent, or, where there is no such agent, the error.
  pub find_best_agent_heuristic-least :
      (role : String) (o : Orchestrator C F)
      → ((w : AgentWorkload F) × Has w (Map.values o.agent_workloads)
          × (is_available role w ≡ true)
          × AllAtLeast w.current_tasks (candidates role (Map.values o.agent_workloads))
          × (find_best_agent_heuristic role o ≡ ok w.agent_id))
        ⊎ ((candidates role (Map.values o.agent_workloads) ≡ [])
            × (find_best_agent_heuristic role o ≡ err (no_available_agent role)))
  unfolding find_best_agent_heuristic candidates
  find_best_agent_heuristic-least role o =
      let ws = Map.values o.agent_workloads in
      elim (chosen role (candidates role ws) _ (sort-HeadsLeast (candidates role ws))) [
        | inl (w, m, l, e) ↦
            let k = Has-keep_if (is_available role) w ws m in inl (w, k.0, k.1, l, e)
        | inr r ↦ inr r
      ]
