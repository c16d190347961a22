-- ===== src/Rl/Service.antt =====
-- crates/cca-daemon/src/rl.rs: the service that the daemon keeps around the engine, the state that it
-- builds for a prediction, and the reward. `stored` holds the experiences handed to PostgreSQL, whose
-- failures are only logged.
pub mod Counting
use cca.Common.{
  ℕ, ◌+◌, ◌%◌, Bool, true, false, ◌&&◌, List, [], ◌∷◌, ◌++◌, Option, none, some, String, F64,
  Result, ok, err, panic, ◌>>=◌, if◌then◌else◌, ◌==◌, add_u64, map,
}
use cca.Core.Role.{AgentRole}
use cca.Rl.State.{State, AgentState, Action}
use cca.Rl.Experience.{Experience}
use cca.Rl.Engine.{RlEngine, Draws}
use cca.Rl.Engine

pub record RlConfig : Type 0 where
  pub batch_size : ℕ
  pub train_interval : ℕ
  pub buffer_capacity : ℕ
  pub persist_experiences : Bool
  pub algorithm : String

abbrev pub default_config : RlConfig
default_config = record {
  batch_size = 32;
  train_interval = 100;
  buffer_capacity = 10000;
  persist_experiences = true;
  algorithm = "q_learning";
}

pub record RlService (F : Type 0) : Type 0 where
  pub engine : RlEngine F
  pub config : RlConfig
  pub has_postgres : Bool
  pub stored : List (Experience F)
  pub experience_count : ℕ
  pub last_training_loss : F

module _ {F : Type 0} (fl : F64 F) where
  abbrev or_same : RlEngine F → Result String (RlEngine F) → RlEngine F
  or_same e (ok e') = e'
  or_same e (err m) = e
  or_same e panic = e

  -- The capacity and the batch size of the configuration are not handed to the engine.
  unfoldable pub new : RlConfig → RlService F
  unfolding Engine.new Engine.set_algorithm
  new config = record {
    engine = or_same (Engine.new fl) (Engine.set_algorithm fl config.algorithm (Engine.new fl));
    config = config;
    has_postgres = false;
    stored = [];
    experience_count = 0;
    last_training_loss = fl.decimal 0 0;
  }

  unfoldable pub with_postgres : RlService F → RlService F
  with_postgres s = record s { has_postgres = true }

  unfoldable pub train : Draws F → RlService F → Result String (RlService F × F)
  train d s = do
    (engine, loss) ← Engine.train fl d s.engine
    ok (
      record s {
        engine = engine;
        last_training_loss = if fl.lt (fl.decimal 0 0) loss then loss else s.last_training_loss;
      },
      loss,
    )

  -- The engine, the count and the database of one experience.
  unfoldable pub recorded : Experience F → RlService F → RlService F
  recorded x s = record s {
    engine = Engine.update_reward fl x.reward (Engine.record_experience fl x s.engine);
    experience_count = add_u64 s.experience_count 1;
    stored = if s.config.persist_experiences && s.has_postgres then x ∷ s.stored else s.stored;
  }

  -- `count % interval` panics at an interval of zero.
  unfoldable pub record_experience :
      Draws F → Experience F → RlService F → Result String (RlService F)
  unfolding recorded train
  record_experience d x s =
      let s' = recorded x s in
      let trained = (do (s'', loss) ← train d s'; ok s'') in
      if s.config.train_interval == 0
      then panic
      else if s'.experience_count % s.config.train_interval == 0
      then trained
      else ok s'

  unfoldable pub predict : Draws F → State F → RlService F → Result String (Action F)
  predict d state s = Engine.predict fl d state s.engine

  unfoldable pub set_algorithm : String → RlService F → Result String (RlService F)
  set_algorithm name s = do
    engine ← Engine.set_algorithm fl name s.engine
    ok (record s { engine = engine })

  unfoldable pub clear_buffer : RlService F → RlService F
  clear_buffer s = record s { engine = Engine.clear_buffer fl s.engine; experience_count = 0 }

  -- The loop of `load_experiences` over the records: `none` is one that does not deserialise. What is
  -- loaded before it stays; the answer is how many were loaded, and `none` an error.
  unfoldable pub load_all : List (Option (Experience F)) → ℕ → RlEngine F → RlEngine F × Option ℕ
  load_all [] loaded e = (e, some loaded)
  load_all (none ∷ xs) loaded e = (e, none)
  load_all (some x ∷ xs) loaded e = load_all xs (loaded + 1) (Engine.record_experience fl x e)

  -- The records are those that the database returns, if it does.
  unfoldable pub load_experiences :
      Option (List (Option (Experience F))) → RlService F → RlService F × Option ℕ
  unfolding load_all
  load_experiences none s = (s, if s.has_postgres then none else some 0)
  load_experiences (some xs) s =
      let (engine, loaded) = load_all xs 0 s.engine in
      if s.has_postgres then (record s { engine = engine }, loaded) else (s, some 0)

-- `StateBuilder` and its `build`; `AgentInfo` has the fields of `AgentState`.
pub record AgentInfo (F : Type 0) : Type 0 where
  pub role : AgentRole
  pub is_busy : Bool
  pub success_rate : F
  pub avg_completion_time : F

pub record StateBuilder (F : Type 0) : Type 0 where
  pub task_type : String
  pub agents : List (AgentInfo F)
  pub token_usage : F
  pub success_history : List F
  pub complexity : F

module _ {F : Type 0} where
  unfoldable pub builder : F64 F → String → StateBuilder F
  builder fl task_type = record {
    task_type = task_type;
    agents = [];
    token_usage = fl.decimal 0 0;
    success_history = [];
    complexity = fl.decimal 5 1;
  }

  unfoldable pub add_agent : AgentInfo F → StateBuilder F → StateBuilder F
  add_agent info b = record b { agents = b.agents ++ info ∷ [] }

  unfoldable pub with_complexity : F → StateBuilder F → StateBuilder F
  with_complexity complexity b = record b { complexity = complexity }

  abbrev to_agent_state : AgentInfo F → AgentState F
  to_agent_state a = record {
    role = a.role;
    is_busy = a.is_busy;
    success_rate = a.success_rate;
    avg_completion_time = a.avg_completion_time;
  }

  unfoldable pub build : StateBuilder F → State F
  build b = record {
    task_type = b.task_type;
    available_agents = map to_agent_state b.agents;
    token_usage = b.token_usage;
    success_history = b.success_history;
    complexity = b.complexity;
    features = [];
  }

  unfoldable pub compute_reward : F64 F → Bool → ℕ → ℕ → ℕ → ℕ → F
  compute_reward fl success tokens_used duration_ms max_tokens max_duration_ms =
      let one = fl.decimal 1 0 in
      let base = if success then one else fl.negate (fl.decimal 5 1) in
      let token_efficiency =
        fl.sub one (fl.fmin (fl.div (fl.of_nat tokens_used) (fl.of_nat max_tokens)) one) in
      let speed_efficiency =
        fl.sub one (fl.fmin (fl.div (fl.of_nat duration_ms) (fl.of_nat max_duration_ms)) one) in
      fl.add (fl.add base (fl.mul token_efficiency (fl.decimal 2 1)))
        (fl.mul speed_efficiency (fl.decimal 1 1))
