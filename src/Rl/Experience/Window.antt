-- ===== src/Rl/Experience/Window.antt =====
-- The replay buffer is a sliding window (crates/cca-rl/src/experience.rs).
use cca.Common.{
  ℕ, zero, suc, ◌-◌, ◌≤◌, ◌<◌, ◌≡◌, refl, ap, ◌∙◌, sym, List, [], ◌∷◌, ◌++◌, arith, length,
  length-append, length-drop, drop, max, leb, Bool-cases, inl, inr, leb→le, true,
}
use mathlib.Core.List.{append_assoc, append-nil}
use cca.Rl.Experience.{Experience, ExperienceBuffer, new, push, all, pop_front}

module _ {F : Type 0} where
  -- Pushing a list of experiences, the head first.
  pub push_all : List (Experience F) → ExperienceBuffer F → ExperienceBuffer F
  push_all [] b = b
  push_all (x ∷ xs) b = push_all xs (push x b)

  -- The last `n` of a list.
  abbrev pub last_n : ℕ → List (Experience F) → List (Experience F)
  last_n n xs = drop (length xs - n) xs

  drop-append :
      (n : ℕ) (xs ys : List (Experience F)) → n ≤ length xs → drop n (xs ++ ys) ≡ drop n xs ++ ys
  drop-append zero xs ys h = refl
  drop-append (suc n) [] ys h = absurd (omega arith)
  drop-append (suc n) (x ∷ xs) ys h = drop-append n xs ys (omega arith)

  drop_all : (n : ℕ) (xs : List (Experience F)) → length xs ≤ n → drop n xs ≡ []
  drop_all zero [] h = refl
  drop_all zero (x ∷ xs) h = absurd (omega arith)
  drop_all (suc n) [] h = refl
  drop_all (suc n) (x ∷ xs) h = drop_all n xs (omega arith)

  pop_front-drop : (k : ℕ) (xs : List (Experience F)) → pop_front (drop k xs) ≡ drop (suc k) xs
  pop_front-drop zero [] = refl
  pop_front-drop zero (x ∷ xs) = refl
  pop_front-drop (suc k) [] = refl
  pop_front-drop (suc k) (x ∷ xs) = pop_front-drop k xs

  pop_front_small :
      (room_for : ℕ) (xs : List (Experience F))
      → leb room_for (length xs) ≡ true
      → length xs < max room_for 1
      → pop_front xs ≡ xs
  pop_front_small room_for [] h small = refl
  pop_front_small room_for (x ∷ xs) h small = absurd (ground arith)

  drop-nil : (k : ℕ) → drop {A = Experience F} k [] ≡ []
  drop-nil zero = refl
  drop-nil (suc k) = refl

  abbrev window : ℕ → List (Experience F) → ExperienceBuffer F
  window room_for xs = record { buffer = last_n (max room_for 1) xs; capacity = room_for }

  -- One push onto the window of what came before is the window of all.
  push-window :
      (room_for : ℕ) (xs : List (Experience F)) (x : Experience F)
      → push x (window room_for xs) ≡ window room_for (xs ++ x ∷ [])
  unfolding push
  push-window room_for xs x = elim (Bool-cases (leb (max room_for 1) (length xs))) [
    | inl full ↦
        let n = max room_for 1 in
        let k = length xs - n in
        let more : length (xs ++ x ∷ []) - n ≡ suc k =
          omega (arith, length-append xs (x ∷ []), leb→le n (length xs) full) in
        let size : leb room_for (length (drop k xs)) ≡ true = ground (arith, length-drop k xs) in
        rw (more, size, pop_front-drop k xs, drop-append (suc k) xs (x ∷ []) (ground arith))
    | inr room ↦
        let small : length xs < max room_for 1 = ground arith in
        let keep_all : length xs - max room_for 1 ≡ 0 = omega arith in
        let keep_both : length (xs ++ x ∷ []) - max room_for 1 ≡ 0 =
          omega (arith, length-append xs (x ∷ [])) in
        rw (keep_all, keep_both) (ground (arith, pop_front_small room_for xs))
  ]

  push_all-window :
      (room_for : ℕ) (xs ys : List (Experience F))
      → push_all ys (window room_for xs) ≡ window room_for (xs ++ ys)
  unfolding push_all
  push_all-window room_for xs [] = rw append-nil
  push_all-window room_for xs (y ∷ ys) =
      ap (push_all ys) (push-window room_for xs y)
      ∙ push_all-window room_for (xs ++ y ∷ []) ys
      ∙ ap (window room_for) (append_assoc xs (y ∷ []) ys)

  -- After any pushes onto a new buffer it holds the last of them, in their order: as many as its
  -- capacity, and one where the capacity is zero.
  pub all-push_all :
      (room_for : ℕ) (xs : List (Experience F))
      → all (push_all xs (new room_for)) ≡ last_n (max room_for 1) xs
  unfolding all new
  all-push_all room_for xs =
      ap (λ bs. (push_all xs (record { buffer = bs; capacity = room_for })).buffer)
        (sym (drop-nil (0 - max room_for 1)))
      ∙ ap (λ b. b.buffer) (push_all-window room_for [] xs)
