-- ===== src/Daemon/Delegations/Assignment.antt =====
-- Which agents a batch of delegations is given (crates/cca-daemon/src/daemon.rs).
use cca.Common.{
  ℕ, zero, suc, ◌≡◌, refl, ap, subst, inl, inr, true, false, not, List, [], ◌∷◌, Option, none, some,
  String, F64, if-elim, ◌==◌, ==_iff, arith, any, any_complete, Has, Has-find, Has-append_left,
  Has-append_right, map, leb,
}
use cca.Common.Map
use cca.Common.Map.{Map}
use cca.Acp.Server.{agents_with_roles}
use cca.Daemon.Delegations.{
  CoordinatorDelegation, DaemonState, Turn, Acquired, agent, refused, DelegateTaskResponse,
  contains_id, is_busy, is_free, is_valid_role, with_assigned, first_found, add_outcome, or_empty,
}
use cca.Daemon.Delegations.Execution.{
  ensure_registered, use_found, find_available_agent_excluding, wait_for, connected, acquire_by,
  acquire, prepare,
}

abbrev pub ids : List (CoordinatorDelegation × ℕ) → List ℕ
ids = map (λ p. p.1)

-- No agent twice.
abbrev pub NoRepeat : List ℕ → Type 0
NoRepeat [] = Unit {0}
NoRepeat (a ∷ xs) = (¬ Has a xs) × NoRepeat xs

contains_id_complete : (a : ℕ) (xs : List ℕ) → contains_id a xs ≡ false → ¬ Has a xs
unfolding contains_id
contains_id_complete a xs e h = cc (e, any_complete (λ b. a == b) a xs h ((==_iff a a).1 refl))

is_free_sound :
    (to_lowercase : String → String) (role : String) (exclude : List ℕ) (busy : Map ℕ String)
    (a : ℕ) (r : Option String)
    → is_free to_lowercase role exclude busy (a, r) ≡ true
    → (contains_id a exclude ≡ false) × (is_busy a busy ≡ false)
unfolding is_free
is_free_sound to_lowercase role exclude busy a none e = absurd (ground arith)
is_free_sound to_lowercase role exclude busy a (some r) e = ground (arith, e)

-- The agents of a batch are different from those that were assigned before, and from each other.
abbrev Fresh : List ℕ → List ℕ → Type 0
Fresh already agents = ((a : ℕ) → Has a agents → ¬ Has a already) × NoRepeat agents

module _ {C F : Type 0} (to_lowercase : String → String) (fl : F64 F) where
  -- An agent that is found is neither excluded nor busy.
  abbrev Fits : List ℕ → DaemonState C F → ℕ → Type 0
  Fits exclude s a = (contains_id a exclude ≡ false) × (is_busy a s.busy_agents ≡ false)

  ensure_registered-busy_agents :
      (a : ℕ) (r : String) (s : DaemonState C F)
      → (ensure_registered to_lowercase fl a r s).busy_agents ≡ s.busy_agents
  unfolding ensure_registered
  ensure_registered-busy_agents a r s =
      if-elim (λ (x : DaemonState C F). x.busy_agents ≡ s.busy_agents)
        (any (λ w. w.agent_id == a) (Map.values s.orchestrator.agent_workloads)) (λ _. refl)
        (λ _. refl)

  use_found-Fits :
      (exclude : List ℕ) (s : DaemonState C F) (o : Option (ℕ × Option String)) (a : ℕ)
      → ((r : Option String) → o ≡ some (a, r) → Fits exclude s a)
      → (use_found to_lowercase fl s o).1 ≡ some a
      → Fits exclude (use_found to_lowercase fl s o).0 a
  use_found-Fits exclude s none a f e = absurd (ground arith)
  use_found-Fits exclude s (some (b, r)) a f e =
      let same : b ≡ a = ground (arith, e) in
      let fits = f r (ap (λ k. some (k, r)) same) in
      (fits.0, rw (ensure_registered-busy_agents b (or_empty r) s) fits.1)

  find_available-Fits :
      (role : String) (exclude : List ℕ) (s : DaemonState C F) (a : ℕ)
      → (find_available_agent_excluding to_lowercase fl role exclude s).1 ≡ some a
      → Fits exclude (find_available_agent_excluding to_lowercase fl role exclude s).0 a
  unfolding find_available_agent_excluding
  find_available-Fits role exclude s a e =
      use_found-Fits exclude s _ a
        (λ r p.
          is_free_sound to_lowercase role exclude s.busy_agents a r
            (Has-find (is_free to_lowercase role exclude s.busy_agents) (a, r)
              (agents_with_roles s.acp_server) p).1)
        e

  first_found-Fits :
      (exclude : List ℕ) (x y : DaemonState C F × Option ℕ) (a : ℕ)
      → (x.1 ≡ some a → Fits exclude x.0 a)
      → (y.1 ≡ some a → Fits exclude y.0 a)
      → (first_found x y).1 ≡ some a
      → Fits exclude (first_found x y).0 a
  first_found-Fits exclude (s, none) y a f g e = g e
  first_found-Fits exclude (s, some b) y a f g e = f e

  -- The state and the agent of an attempt that found one, or of a later one.
  wait_for-Fits :
      (turn : Turn C F) (role : String) (exclude : List ℕ) (n : ℕ) (s : DaemonState C F) (a : ℕ)
      → (wait_for to_lowercase fl turn role exclude n s).1 ≡ some a
      → Fits exclude (wait_for to_lowercase fl turn role exclude n s).0 a
  unfolding wait_for
  wait_for-Fits turn role exclude zero s a e = absurd (ground arith)
  wait_for-Fits turn role exclude (suc n) s a e =
      let attempt =
        find_available_agent_excluding to_lowercase fl role exclude (turn.meanwhile n s) in
      first_found-Fits exclude attempt (wait_for to_lowercase fl turn role exclude n attempt.0) a
        (find_available-Fits role exclude (turn.meanwhile n s) a)
        (wait_for-Fits turn role exclude n attempt.0 a) e

  connected-Fits :
      (role : String) (exclude : List ℕ) (r : DaemonState C F × Option ℕ) (a : ℕ)
      → (r.1 ≡ some a → Fits exclude r.0 a)
      → (connected to_lowercase fl role r).1 ≡ agent a
      → Fits exclude (connected to_lowercase fl role r).0 a
  connected-Fits role exclude (s, none) a f e = absurd (ground arith)
  connected-Fits role exclude (s, some b) a f e =
      let same : b ≡ a = ground (arith, e) in f (ap some same)

  abbrev Chosen : List ℕ → ℕ → DaemonState C F × Acquired → Type 0
  Chosen exclude a y = y.1 ≡ agent a → Fits exclude y.0 a

  acquire_by-Fits :
      (turn : Turn C F) (role : String) (exclude : List ℕ) (r : DaemonState C F × Option ℕ) (a : ℕ)
      → (r.1 ≡ some a → Fits exclude r.0 a)
      → Chosen exclude a (acquire_by to_lowercase fl turn role exclude r)
  acquire_by-Fits turn role exclude (s, some b) a f =
      λ e. let same : b ≡ a = ground (arith, e) in f (ap some same)
  acquire_by-Fits turn role exclude (s, none) a f =
      if-elim (Chosen exclude a) (not turn.tmux_available) (λ _ e. absurd (ground arith))
        λ _.
          if-elim (Chosen exclude a) (leb 5 turn.existing) (λ _ e. absurd (ground arith))
            λ _.
              if-elim (Chosen exclude a) turn.spawns
                (λ _.
                  connected-Fits role exclude (wait_for to_lowercase fl turn role exclude 5 s) a
                    (wait_for-Fits turn role exclude 5 s a))
                (λ _ e. absurd (ground arith))

  acquire-Fits :
      (turn : Turn C F) (d : CoordinatorDelegation) (exclude : List ℕ) (s : DaemonState C F) (a : ℕ)
      → Chosen exclude a (acquire to_lowercase fl turn d exclude s)
  unfolding acquire
  acquire-Fits turn d exclude s a =
      if-elim (Chosen exclude a) (is_valid_role to_lowercase d.role)
        (λ _.
          acquire_by-Fits turn d.role exclude
            (find_available_agent_excluding to_lowercase fl d.role exclude (turn.meanwhile 5 s)) a
            (find_available-Fits d.role exclude (turn.meanwhile 5 s) a))
        (λ _ e. absurd (ground arith))

  add_outcome-Fresh :
      (d : CoordinatorDelegation) (x : Acquired) (already : List ℕ)
      (r : DaemonState C F × List (CoordinatorDelegation × ℕ) × List DelegateTaskResponse)
      → ((a : ℕ) → x ≡ agent a → ¬ Has a already)
      → Fresh (with_assigned x already) (ids r.1)
      → Fresh already (ids (add_outcome d x r).1)
  add_outcome-Fresh d (agent a) already (s, prepared, errors) new (fresh, apart) = (
    (λ b h. elim h [
      | inl q ↦ subst (λ k. ¬ Has k already) q (new a refl)
      | inr h' ↦ λ old. fresh b h' (Has-append_left b already (a ∷ []) old)
    ]),
    ((λ h. fresh a h (Has-append_right a already (a ∷ []) (inl refl))), apart),
  )
  add_outcome-Fresh d (refused e) already (s, prepared, errors) new f = f

  prepare-Fresh :
      (ds : List (Turn C F × CoordinatorDelegation)) (already : List ℕ) (s : DaemonState C F)
      → Fresh already (ids (prepare to_lowercase fl ds already s).1)
  unfolding prepare
  prepare-Fresh [] already s = ((λ a h. absurd h), tt)
  prepare-Fresh ((turn, d) ∷ ds) already s =
      let (s', outcome) = acquire to_lowercase fl turn d already s in
      add_outcome-Fresh d outcome already
        (prepare to_lowercase fl ds (with_assigned outcome already) s')
        (λ a p. contains_id_complete a already (acquire-Fits turn d already s a p).0)
        (prepare-Fresh ds (with_assigned outcome already) s')

  -- No agent is given two delegations of one batch, whatever other tasks do to the state while its
  -- agents are looked for.
  pub prepare-NoRepeat :
      (ds : List (Turn C F × CoordinatorDelegation)) (s : DaemonState C F)
      → NoRepeat (ids (prepare to_lowercase fl ds [] s).1)
  prepare-NoRepeat ds s = (prepare-Fresh ds [] s).1
