-- ===== src/Rl/Experience.antt =====
-- crates/cca-rl/src/experience.rs: the replay buffer. What the crate rand chooses is an argument.
pub mod Window
use cca.Common.{ℕ, min, Bool, true, false, List, [], ◌∷◌, ◌++◌, Option, leb, if◌then◌else◌, length}
use cca.Rl.State.{State, Action}

pub record Experience (F : Type 0) : Type 0 where
  pub state : State F
  pub action : Action F
  pub reward : F
  pub next_state : Option (State F)
  pub done : Bool

-- The front of the deque is the head of the list.
pub record ExperienceBuffer (F : Type 0) : Type 0 where
  pub buffer : List (Experience F)
  pub capacity : ℕ

module _ {F : Type 0} where
  unfoldable pub new : ℕ → ExperienceBuffer F
  new capacity = record { buffer = []; capacity = capacity }

  abbrev pop_front : List (Experience F) → List (Experience F)
  pop_front [] = []
  pop_front (x ∷ xs) = xs

  unfoldable pub push : Experience F → ExperienceBuffer F → ExperienceBuffer F
  push e b =
      let room = if leb b.capacity (length b.buffer) then pop_front b.buffer else b.buffer in
      record b { buffer = room ++ e ∷ [] }

  -- `choose` stands for `choose_multiple`.
  unfoldable pub sample :
      (List (Experience F) → ℕ → List (Experience F)) → ℕ → ExperienceBuffer F → List (Experience F)
  sample choose batch_size b = choose b.buffer (min batch_size (length b.buffer))

  unfoldable pub len : ExperienceBuffer F → ℕ
  len b = length b.buffer

  unfoldable pub clear : ExperienceBuffer F → ExperienceBuffer F
  clear b = record b { buffer = [] }

  unfoldable pub all : ExperienceBuffer F → List (Experience F)
  all b = b.buffer
