-- ===== src/Rl/Engine.antt =====
-- `RLEngine` of crates/cca-rl/src/engine.rs, over the three registered algorithms. The trait object
-- is a constructor for each implementation; PPO and DQN are placeholders in the source too.
pub mod Ready
use cca.Common.{
  ℕ, Bool, true, false, List, [], ◌∷◌, Option, none, some, String, F64, Result, ok, err, panic,
  ◌>>=◌, if◌then◌else◌, ltb, add_u64, String_discrete, map,
}
use cca.Common.Map
use cca.Common.Map.{Map}
use cca.Core.Role.{coordinator}
use cca.Rl.State.{State, Action, route_to_agent}
use cca.Rl.Experience.{Experience, ExperienceBuffer}
use cca.Rl.Experience
use cca.Rl.QLearning.{QLearning}
use cca.Rl.QLearning

pub data Algorithm (F : Type 0) : Type 0 where
  q_learning : QLearning F → Algorithm F
  ppo : Algorithm F
  dqn : Algorithm F

pub record RlEngine (F : Type 0) : Type 0 where
  pub algorithms : Map String (Algorithm F)
  pub active_algorithm : String
  pub experience_buffer : ExperienceBuffer F
  pub training_batch_size : ℕ
  pub total_steps : ℕ
  pub total_rewards : F

pub record EngineStats (F : Type 0) : Type 0 where
  pub total_steps : ℕ
  pub total_rewards : F
  pub average_reward : F
  pub buffer_size : ℕ
  pub active_algorithm : String

-- What the crate rand draws in one call: the batch of a training, and the numbers of a prediction.
pub record Draws (F : Type 0) : Type 0 where
  pub choose : List (Experience F) → ℕ → List (Experience F)
  pub draw : F
  pub pick_index : ℕ

module _ {F : Type 0} (fl : F64 F) where
  unfoldable pub new : RlEngine F
  unfolding QLearning.default QLearning.new Experience.new
  new = record {
    algorithms =
        ("q_learning", q_learning (QLearning.default fl)) ∷ ("ppo", ppo) ∷ ("dqn", dqn) ∷ [];
    active_algorithm = "q_learning";
    experience_buffer = Experience.new 10000;
    training_batch_size = 32;
    total_steps = 0;
    total_rewards = fl.decimal 0 0;
  }

  unfoldable pub train_algorithm :
      Algorithm F → List (Experience F) → Result String (Algorithm F × F)
  train_algorithm (q_learning q) es = do
    (q', loss) ← QLearning.train fl q es
    ok (q_learning q', loss)
  train_algorithm ppo es = ok (ppo, fl.decimal 0 0)
  train_algorithm dqn es = ok (dqn, fl.decimal 0 0)

  unfoldable pub predict_algorithm : Draws F → Algorithm F → State F → Result String (Action F)
  predict_algorithm d (q_learning q) s = QLearning.predict fl d.draw d.pick_index q s
  predict_algorithm d ppo s = ok (route_to_agent coordinator)
  predict_algorithm d dqn s = ok (route_to_agent coordinator)

  unfoldable pub update_algorithm : Algorithm F → Algorithm F
  update_algorithm (q_learning q) = q_learning (QLearning.update fl q)
  update_algorithm ppo = ppo
  update_algorithm dqn = dqn

  unfoldable pub set_algorithm : String → RlEngine F → Result String (RlEngine F)
  set_algorithm name e = elim (Map.get String_discrete name e.algorithms) [
    | none ↦ err "Unknown algorithm"
    | some a ↦ ok (record e { active_algorithm = name })
  ]

  unfoldable pub list_algorithms : RlEngine F → List String
  list_algorithms e = Map.keys e.algorithms

  unfoldable pub record_experience : Experience F → RlEngine F → RlEngine F
  record_experience x e = record e {
    experience_buffer = Experience.push x e.experience_buffer;
    total_steps = add_u64 e.total_steps 1;
  }

  -- The training of the active algorithm on a sampled batch.
  unfoldable pub train_active :
      Option (Algorithm F) → List (Experience F) → RlEngine F → Result String (RlEngine F × F)
  unfolding train_algorithm
  train_active none batch e = err "Active algorithm not found"
  train_active (some a) batch e = do
    (a', loss) ← train_algorithm a batch
    ok (
      record e {
        algorithms = Map.update String_discrete e.active_algorithm (λ _. a') e.algorithms;
      },
      loss,
    )

  unfoldable pub train : Draws F → RlEngine F → Result String (RlEngine F × F)
  unfolding train_active
  train d e =
      let trained =
        train_active (Map.get String_discrete e.active_algorithm e.algorithms)
          (Experience.sample d.choose e.training_batch_size e.experience_buffer) e in
      if ltb (Experience.len e.experience_buffer) e.training_batch_size
      then ok (e, fl.decimal 0 0)
      else trained

  unfoldable pub predict : Draws F → State F → RlEngine F → Result String (Action F)
  unfolding predict_algorithm
  predict d s e = elim (Map.get String_discrete e.active_algorithm e.algorithms) [
    | none ↦ ok (route_to_agent coordinator)
    | some a ↦ predict_algorithm d a s
  ]

  unfoldable pub update_reward : F → RlEngine F → RlEngine F
  unfolding update_algorithm
  update_reward reward e = record e {
    total_rewards = fl.add e.total_rewards reward;
    algorithms = Map.update String_discrete e.active_algorithm update_algorithm e.algorithms;
  }

  unfoldable pub stats : RlEngine F → EngineStats F
  stats e = record {
    total_steps = e.total_steps;
    total_rewards = e.total_rewards;
    average_reward =
        if ltb 0 e.total_steps
        then fl.div e.total_rewards (fl.of_nat e.total_steps)
        else fl.decimal 0 0;
    buffer_size = Experience.len e.experience_buffer;
    active_algorithm = e.active_algorithm;
  }

  abbrev set_params_of : Option F → Option F → Option F → Algorithm F → Algorithm F
  set_params_of lr df eps (q_learning q) = q_learning (QLearning.set_params fl lr df eps q)
  set_params_of lr df eps ppo = ppo
  set_params_of lr df eps dqn = dqn

  unfoldable pub set_algorithm_params : Option F → Option F → Option F → RlEngine F → RlEngine F
  set_algorithm_params lr df eps e = record e {
    algorithms =
        Map.update String_discrete e.active_algorithm (set_params_of lr df eps) e.algorithms;
  }

  unfoldable pub clear_buffer : RlEngine F → RlEngine F
  clear_buffer e = record e { experience_buffer = Experience.clear e.experience_buffer }
