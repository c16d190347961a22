-- ===== src/Daemon/Cleanup/Bound.antt =====
-- How many tasks a cleanup leaves (crates/cca-daemon/src/daemon.rs).
use cca.Common.{
  ℕ, zero, suc, ◌+◌, ◌-◌, ◌≤◌, ◌≡◌, refl, sym, ap, subst, ◌∙◌, inl, inr, ◌⊎◌, Bool, List, [], ◌∷◌,
  String, String_discrete, arith, if-elim, if◌then◌else◌, ltb, leb, ltb→lt, length, length-take,
  take, keep_if, map, Has, if_neg, if_pos, max,
}
use cca.Common.Map
use cca.Common.Map.{Map, Distinct}
use cca.Daemon.{TaskState}
use cca.Daemon.Cleanup.{
  is_done, is_kept, completed_tasks, insert_by_time, sort_by_time, remove_ids, evict, task_cleanup,
  max_tasks,
}
use cca.Daemon.Cleanup.Removal.{keep_if-Distinct}

-- No identifier twice.
abbrev ids_of : List (String × ℕ) → List String
ids_of = map (λ e. e.0)

abbrev Apart : List (String × ℕ) → Type 0
Apart [] = Unit {0}
Apart (e ∷ es) = (¬ Has e.0 (ids_of es)) × Apart es

-- Every identifier is a key.
abbrev AreKeys : List (String × ℕ) → Map String TaskState → Type 0
AreKeys es m = (k : String) → Has k (ids_of es) → Has k (Map.keys m)

remove_absent :
    (k : String) (m : Map String TaskState)
    → ¬ Has k (Map.keys m)
    → Map.remove String_discrete k m ≡ m
unfolding Map.remove
remove_absent k [] out = refl
remove_absent k (e ∷ m) out =
    if_neg (String_discrete e.0 k) (λ p. out (inl p)) _ _
    ∙ ap (λ r. e ∷ r) (remove_absent k m (λ h. out (inr h)))

length-remove :
    (k : String) (m : Map String TaskState)
    → Distinct m
    → Has k (Map.keys m)
    → suc (length (Map.remove String_discrete k m)) ≡ length m
unfolding Map.remove
length-remove k [] d h = absurd h
length-remove k (e ∷ m) d h = elim (String_discrete e.0 k) [
  | yes p ↦
      ap (λ (r : Map String TaskState). suc (length r))
        (if_pos (String_discrete e.0 k) p _ _
          ∙ remove_absent k m (λ q. d.0 (subst (λ i. Has i (Map.keys m)) (sym p) q)))
  | no p ↦ elim h [
    | inl q ↦ absurd (p q)
    | inr q ↦
        ap (λ (r : Map String TaskState). suc (length r)) (if_neg (String_discrete e.0 k) p _ _)
        ∙ ap suc (length-remove k m d.1 q)
  ]
]

Has-keys-remove :
    (k j : String) (m : Map String TaskState)
    → ¬ (j ≡ k)
    → Has k (Map.keys m)
    → Has k (Map.keys (Map.remove String_discrete j m))
unfolding Map.remove
Has-keys-remove k j [] ne h = h
Has-keys-remove k j (e ∷ m) ne h = elim (String_discrete e.0 j) [
  | yes p ↦ elim h [
    | inl q ↦ absurd (ne (sym p ∙ q))
    | inr q ↦
        subst (λ (r : Map String TaskState). Has k (Map.keys r))
          (sym (if_pos (String_discrete e.0 j) p _ _)) (Has-keys-remove k j m ne q)
  ]
  | no p ↦
      subst (λ (r : Map String TaskState). Has k (Map.keys r))
        (sym (if_neg (String_discrete e.0 j) p _ _))
        (elim h [ inl q ↦ inl q | inr q ↦ inr (Has-keys-remove k j m ne q) ])
]

length-remove_ids :
    (es : List (String × ℕ)) (m : Map String TaskState)
    → Distinct m
    → Apart es
    → AreKeys es m
    → length (remove_ids es m) + length es ≡ length m
unfolding remove_ids
length-remove_ids [] m d a h = omega arith
length-remove_ids (e ∷ es) m d a h = omega (
  arith,
  length-remove e.0 m d (h e.0 (inl refl)),
  length-remove_ids es (Map.remove String_discrete e.0 m)
      (Map.remove-Distinct String_discrete e.0 m d) a.1
      (λ k at.
        Has-keys-remove k e.0 m (λ p. a.0 (subst (λ i. Has i (ids_of es)) (sym p) at))
          (h k (inr at))),
)

Has-ids-insert :
    (k : String) (e : String × ℕ) (xs : List (String × ℕ))
    → Has k (ids_of (insert_by_time e xs))
    → (e.0 ≡ k) ⊎ Has k (ids_of xs)
unfolding insert_by_time
Has-ids-insert k e [] h = h
Has-ids-insert k e (x ∷ xs) h = ground (arith, Has-ids-insert k e xs)

insert_by_time-Apart :
    (e : String × ℕ) (xs : List (String × ℕ))
    → ¬ Has e.0 (ids_of xs)
    → Apart xs
    → Apart (insert_by_time e xs)
unfolding insert_by_time
insert_by_time-Apart e [] out a = ((λ h. h), tt)
insert_by_time-Apart e (x ∷ xs) out a =
    if-elim Apart (leb e.1 x.1) (λ _. (out, a))
      (λ _. (
        (λ h. elim (Has-ids-insert x.0 e xs h) [ inl p ↦ out (inl (sym p)) | inr q ↦ a.0 q ]),
        insert_by_time-Apart e xs (λ h. out (inr h)) a.1,
      ))

Has-ids-sort :
    (k : String) (xs : List (String × ℕ)) → Has k (ids_of (sort_by_time xs)) → Has k (ids_of xs)
unfolding sort_by_time
Has-ids-sort k [] h = h
Has-ids-sort k (e ∷ xs) h = elim (Has-ids-insert k e (sort_by_time xs) h) [
  | inl p ↦ inl p
  | inr q ↦ inr (Has-ids-sort k xs q)
]

sort_by_time-Apart : (xs : List (String × ℕ)) → Apart xs → Apart (sort_by_time xs)
unfolding sort_by_time
sort_by_time-Apart [] a = tt
sort_by_time-Apart (e ∷ xs) a =
    insert_by_time-Apart e (sort_by_time xs) (λ h. a.0 (Has-ids-sort e.0 xs h))
      (sort_by_time-Apart xs a.1)

Has-ids-take :
    (n : ℕ) (k : String) (xs : List (String × ℕ)) → Has k (ids_of (take n xs)) → Has k (ids_of xs)
Has-ids-take zero k xs h = absurd h
Has-ids-take (suc n) k [] h = absurd h
Has-ids-take (suc n) k (x ∷ xs) (inl p) = inl p
Has-ids-take (suc n) k (x ∷ xs) (inr h) = inr (Has-ids-take n k xs h)

take-Apart : (n : ℕ) (xs : List (String × ℕ)) → Apart xs → Apart (take n xs)
take-Apart zero xs a = tt
take-Apart (suc n) [] a = tt
take-Apart (suc n) (x ∷ xs) a = ((λ h. a.0 (Has-ids-take n x.0 xs h)), take-Apart n xs a.1)

Has-ids-completed :
    (k : String) (m : Map String TaskState)
    → Has k (ids_of (completed_tasks m))
    → Has k (Map.keys m)
unfolding completed_tasks
Has-ids-completed k [] h = h
Has-ids-completed k (e ∷ m) h = ground (arith, Has-ids-completed k m)

completed_tasks-Apart : (m : Map String TaskState) → Distinct m → Apart (completed_tasks m)
unfolding completed_tasks
completed_tasks-Apart [] d = tt
completed_tasks-Apart (e ∷ m) d =
    if-elim Apart (is_done e.1)
      (λ _. ((λ h. d.0 (Has-ids-completed e.0 m h)), completed_tasks-Apart m d.1))
      (λ _. completed_tasks-Apart m d.1)

length-insert :
    (e : String × ℕ) (xs : List (String × ℕ)) → length (insert_by_time e xs) ≡ suc (length xs)
unfolding insert_by_time
length-insert e [] = refl
length-insert e (x ∷ xs) = ground (arith, length-insert e xs)

length-sort : (xs : List (String × ℕ)) → length (sort_by_time xs) ≡ length xs
unfolding sort_by_time
length-sort [] = refl
length-sort (e ∷ xs) = length-insert e (sort_by_time xs) ∙ ap suc (length-sort xs)

-- How many tasks are neither completed nor failed.
abbrev pub others : Map String TaskState → ℕ
others [] = 0
others (e ∷ m) = if is_done e.1 then others m else suc (others m)

length-completed : (m : Map String TaskState) → length (completed_tasks m) + others m ≡ length m
unfolding completed_tasks
length-completed [] = refl
length-completed (e ∷ m) = ground (arith, length-completed m)

others-keep_if :
    (p : String × TaskState → Bool) (m : Map String TaskState) → others (keep_if p m) ≤ others m
unfolding keep_if
others-keep_if p [] = omega arith
others-keep_if p (e ∷ m) = ground (arith, others-keep_if p m)

evict-bound : (m : Map String TaskState) → Distinct m → length (evict m) ≤ max max_tasks (others m)
unfolding evict
evict-bound m d =
    let done = completed_tasks m in
    let n = length m - max_tasks in
    if-elim (λ (r : Map String TaskState). length r ≤ max max_tasks (others m))
      (ltb max_tasks (length m))
      (λ over. omega (
        arith,
        ltb→lt max_tasks (length m) over,
        length-remove_ids (take n (sort_by_time done)) m d
            (take-Apart n (sort_by_time done) (sort_by_time-Apart done (completed_tasks-Apart m d)))
            (λ k h.
              Has-ids-completed k m (Has-ids-sort k done (Has-ids-take n k (sort_by_time done) h))),
        length-take n (sort_by_time done),
        length-sort done,
        length-completed m,
      ))
      (λ under. ground arith)

-- After a cleanup there are at most 10000 tasks, or as many as were neither completed nor failed where
-- these are more.
pub task_cleanup-bound :
    (now : ℕ) (tasks : Map String TaskState)
    → Distinct tasks
    → length (task_cleanup now tasks) ≤ max max_tasks (others tasks)
unfolding task_cleanup
task_cleanup-bound now tasks d =
    let p = λ (e : String × TaskState). is_kept now e.1 in
    omega
      (arith, evict-bound (keep_if p tasks) (keep_if-Distinct p tasks d), others-keep_if p tasks)
