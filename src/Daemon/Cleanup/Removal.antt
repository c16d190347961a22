-- ===== src/Daemon/Cleanup/Removal.antt =====
-- Which tasks a cleanup removes (crates/cca-daemon/src/daemon.rs).
use cca.Common.{
  ℕ, zero, suc, ◌-◌, ◌≡◌, refl, sym, ap, ◌∙◌, inl, inr, ◌⊎◌, Bool, true, false, ◌||◌, List, [], ◌∷◌,
  some, String, String_discrete, str_eq, eq_iff, arith, if-elim, ltb, length, take, keep_if, Has,
  Bool-cases, if_neg, if_pos,
}
use cca.Common.Map
use cca.Common.Map.{Map, Distinct}
use cca.Daemon.{TaskState}
use cca.Daemon.Cleanup.{
  is_unfinished, is_done, is_kept, completed_tasks, insert_by_time, sort_by_time, remove_ids, evict,
  task_cleanup, max_tasks,
}

Has-take : {A : Type 0} (n : ℕ) (a : A) (xs : List A) → Has a (take n xs) → Has a xs
Has-take zero a xs h = absurd h
Has-take (suc n) a [] h = absurd h
Has-take (suc n) a (x ∷ xs) (inl e) = inl e
Has-take (suc n) a (x ∷ xs) (inr h) = inr (Has-take n a xs h)

pub Has-insert_by_time :
    (a e : String × ℕ) (xs : List (String × ℕ)) → Has a (insert_by_time e xs) → (e ≡ a) ⊎ Has a xs
unfolding insert_by_time
Has-insert_by_time a e [] h = h
Has-insert_by_time a e (x ∷ xs) h = ground (arith, Has-insert_by_time a e xs)

pub Has-sort_by_time :
    (a : String × ℕ) (xs : List (String × ℕ)) → Has a (sort_by_time xs) → Has a xs
unfolding sort_by_time
Has-sort_by_time a [] h = h
Has-sort_by_time a (e ∷ xs) h = elim (Has-insert_by_time a e (sort_by_time xs) h) [
  | inl p ↦ inl p
  | inr h' ↦ inr (Has-sort_by_time a xs h')
]

-- What can be removed are tasks that are done.
pub completed_tasks_sound :
    (a : String × ℕ) (m : Map String TaskState)
    → Has a (completed_tasks m)
    → (t : TaskState) × Has (a.0, t) m × (is_done t ≡ true)
unfolding completed_tasks
completed_tasks_sound a [] h = absurd h
completed_tasks_sound a (e ∷ m) h =
    let later = λ (h' : Has a (completed_tasks m)).
      let (t, at, d) = completed_tasks_sound a m h' in
      let all : (t : TaskState) × Has (a.0, t) (e ∷ m) × (is_done t ≡ true) = (t, inr at, d) in
      all in
    elim (Bool-cases (is_done e.1)) [
      | inl d ↦ elim (rw d at h) [
        | inl p ↦ (e.1, inl (ap (λ (x : String × ℕ). (x.0, e.1)) p), d)
        | inr h' ↦ later h'
      ]
      | inr d ↦ later (rw d at h)
    ]

get-remove_ids :
    (id : String) (ids : List (String × ℕ)) (m : Map String TaskState)
    → ((n : ℕ) → ¬ Has (id, n) ids)
    → Map.get String_discrete id (remove_ids ids m) ≡ Map.get String_discrete id m
unfolding remove_ids
get-remove_ids id [] m out = refl
get-remove_ids id (e ∷ ids) m out =
    get-remove_ids id ids (Map.remove String_discrete e.0 m) (λ n h. out n (inr h))
    ∙ Map.get-remove String_discrete id e.0 m
    ∙ if_neg (String_discrete e.0 id) (λ p. out e.1 (inl (ap (λ i. (i, e.1)) p))) _ _

get-keep_if :
    (p : String × TaskState → Bool) (id : String) (t : TaskState) (m : Map String TaskState)
    → Map.get String_discrete id m ≡ some t
    → p (id, t) ≡ true
    → Map.get String_discrete id (keep_if p m) ≡ some t
unfolding keep_if Map.get
get-keep_if p id t [] h k = h
get-keep_if p id t (e ∷ m) h k = elim (String_discrete e.0 id) [
  | yes q ↦
      let same : e.1 ≡ t =
        cc (sym (if_pos (String_discrete e.0 id) q (some e.1) (Map.get String_discrete id m)), h) in
      let passes : p e ≡ true = cc (k, q, same) in
      rw passes (if_pos (String_discrete e.0 id) q _ _ ∙ ap some same)
  | no q ↦
      let later =
        sym (if_neg (String_discrete e.0 id) q (some e.1) (Map.get String_discrete id m)) ∙ h in
      if-elim (λ r. Map.get String_discrete id r ≡ some t) (p e)
        (λ _. if_neg (String_discrete e.0 id) q _ _ ∙ get-keep_if p id t m later k)
        (λ _. get-keep_if p id t m later k)
]

Has-keys-keep_if :
    (p : String × TaskState → Bool) (id : String) (m : Map String TaskState)
    → Has id (Map.keys (keep_if p m))
    → Has id (Map.keys m)
unfolding keep_if
Has-keys-keep_if p id [] h = h
Has-keys-keep_if p id (e ∷ m) h = ground (arith, Has-keys-keep_if p id m)

pub keep_if-Distinct :
    (p : String × TaskState → Bool) (m : Map String TaskState) → Distinct m → Distinct (keep_if p m)
unfolding keep_if
keep_if-Distinct p [] d = tt
keep_if-Distinct p (e ∷ m) d =
    if-elim Distinct (p e)
      (λ _. ((λ h. d.0 (Has-keys-keep_if p e.0 m h)), keep_if-Distinct p m d.1))
      (λ _. keep_if-Distinct p m d.1)

get_of-Has :
    (id : String) (t : TaskState) (m : Map String TaskState)
    → Distinct m
    → Has (id, t) m
    → Map.get String_discrete id m ≡ some t
unfolding Map.get
get_of-Has id t [] d h = absurd h
get_of-Has id t (e ∷ m) d (inl p) =
    if_pos (String_discrete e.0 id) (ap (λ x. x.0) p) _ _ ∙ ap (λ x. some x.1) p
get_of-Has id t (e ∷ m) d (inr h) =
    if_neg (String_discrete e.0 id)
      (λ q. d.0 (rw q (Map.Has-keys String_discrete id t m (get_of-Has id t m d.1 h)))) _ _
    ∙ get_of-Has id t m d.1 h

done_status : String → Bool
done_status s = str_eq s "completed" || str_eq s "failed"

done_status-not :
    (s lit : String) → str_eq s lit ≡ true → done_status lit ≡ false → ¬ (done_status s ≡ true)
done_status-not s lit e out d = cc (out, d, (eq_iff s lit).0 e)

-- A task is not both.
unfinished-not_done : (t : TaskState) → is_unfinished t ≡ true → ¬ (is_done t ≡ true)
unfolding is_unfinished is_done done_status
unfinished-not_done t u d = elim (Bool-cases (str_eq t.status "pending")) [
  | inl p ↦ done_status-not t.status "pending" p refl d
  | inr p ↦ done_status-not t.status "in_progress" (ground (arith, u, p)) refl d
]

keeps_unfinished :
    (now : ℕ) (tasks : Map String TaskState) (id : String) (t : TaskState)
    → Distinct tasks
    → Map.get String_discrete id tasks ≡ some t
    → is_unfinished t ≡ true
    → Map.get String_discrete id (task_cleanup now tasks) ≡ some t
unfolding task_cleanup evict is_kept
keeps_unfinished now tasks id t d h u =
    let p = λ (e : String × TaskState). is_kept now e.1 in
    let kept = keep_if p tasks in
    let there : Map.get String_discrete id kept ≡ some t = get-keep_if p id t tasks h (rw u refl) in
    if-elim (λ r. Map.get String_discrete id r ≡ some t) (ltb max_tasks (length kept))
      (λ _.
        get-remove_ids id (take (length kept - max_tasks) (sort_by_time (completed_tasks kept)))
          kept
          (λ n at.
            let (t', at', done) =
              completed_tasks_sound (id, n) kept
                (Has-sort_by_time (id, n) (completed_tasks kept)
                  (Has-take (length kept - max_tasks) (id, n) _ at)) in
            let same : some t ≡ some t' =
              sym there ∙ get_of-Has id t' kept (keep_if-Distinct p tasks d) at' in
            unfinished-not_done t u (ground (arith, same, done)))
        ∙ there)
      (λ _. there)

unfinished_status :
    (t : TaskState) → (t.status ≡ "pending") ⊎ (t.status ≡ "in_progress") → is_unfinished t ≡ true
unfolding is_unfinished
unfinished_status t (inl e) = rw e refl
unfinished_status t (inr e) = rw e refl

-- A task that is pending or in progress is never removed, however old it is and however many tasks
-- there are.
pub task_cleanup-unfinished :
    (now : ℕ) (tasks : Map String TaskState) (id : String) (t : TaskState)
    → Distinct tasks
    → Map.get String_discrete id tasks ≡ some t
    → (t.status ≡ "pending") ⊎ (t.status ≡ "in_progress")
    → Map.get String_discrete id (task_cleanup now tasks) ≡ some t
task_cleanup-unfinished now tasks id t d h u =
    keeps_unfinished now tasks id t d h (unfinished_status t u)
