-- ===== src/Rl/Engine/Ready.antt =====
-- The engine always finds its active algorithm (crates/cca-rl/src/engine.rs).
use cca.Common.{
  ◌≡◌, refl, ◌≢◌, List, [], ◌∷◌, Option, none, some, String, F64, Result, ok, err, panic,
  Bool-cases, ltb, String_discrete, arith, Option-cases, inl, inr,
}
use cca.Common.Map
use cca.Common.Map.{Map, AllValues, AllValues-get, update-AllValues, get-update}
use cca.Rl.Experience.{Experience}
use cca.Rl.Experience
use cca.Rl.QLearning.{QLearning}
use cca.Rl.QLearning
use cca.Rl.QLearning.Totality.{IsShaped, train-IsShaped}
use cca.Rl.Engine.{
  Algorithm, q_learning, ppo, dqn, RlEngine, Draws, new, train_algorithm, update_algorithm,
  set_algorithm, record_experience, train_active, train, update_reward, set_algorithm_params,
  set_params_of, clear_buffer,
}

module _ {F : Type 0} (fl : F64 F) where
  abbrev IsSound : Algorithm F → Type 0
  IsSound (q_learning q) = IsShaped fl q
  IsSound ppo = Unit {0}
  IsSound dqn = Unit {0}

  -- The active algorithm is registered, and the tables of the learners have their shape.
  pub record IsReady (e : RlEngine F) : Type 0 where
    pub active : Map.get String_discrete e.active_algorithm e.algorithms ≢ none
    pub sound : AllValues String_discrete IsSound e.algorithms

  pub new-IsReady : IsReady (new fl)
  unfolding new Map.get String_discrete
  new-IsReady = record {
    active = λ h. ground arith;
    sound = (record { wide = refl; rows = tt }, (tt, (tt, tt)));
  }

  -- The calls that change an engine.
  pub data Call : Type 0 where
    sets_algorithm : String → Call
    records : Experience F → Call
    trains : Draws F → Call
    updates_reward : F → Call
    sets_params : Option F → Option F → Option F → Call
    clears : Call

  abbrev after : RlEngine F → Result String (RlEngine F) → RlEngine F
  after e (ok e') = e'
  after e (err m) = e
  after e panic = e

  abbrev after_training : RlEngine F → Result String (RlEngine F × F) → RlEngine F
  after_training e (ok (e', loss)) = e'
  after_training e (err m) = e
  after_training e panic = e

  -- A call that fails leaves the engine as it was.
  pub step : Call → RlEngine F → RlEngine F
  step (sets_algorithm name) e = after e (set_algorithm fl name e)
  step (records x) e = record_experience fl x e
  step (trains d) e = after_training e (train fl d e)
  step (updates_reward r) e = update_reward fl r e
  step (sets_params lr df eps) e = set_algorithm_params fl lr df eps e
  step clears e = clear_buffer fl e

  pub run : List Call → RlEngine F → RlEngine F
  run [] e = e
  run (c ∷ cs) e = run cs (step c e)

  active-update :
      (f : Algorithm F → Algorithm F) (k : String) (m : Map String (Algorithm F))
      → Map.get String_discrete k m ≢ none
      → Map.get String_discrete k (Map.update String_discrete k f m) ≢ none
  active-update f k m h e = ground (arith, get-update String_discrete k k f m)

  update_algorithm-IsSound : (a : Algorithm F) → IsSound a → IsSound (update_algorithm fl a)
  unfolding update_algorithm QLearning.update
  update_algorithm-IsSound (q_learning q) h = record { wide = h.wide; rows = h.rows }
  update_algorithm-IsSound ppo h = tt
  update_algorithm-IsSound dqn h = tt

  set_params_of-IsSound :
      (lr df eps : Option F) (a : Algorithm F) → IsSound a → IsSound (set_params_of fl lr df eps a)
  unfolding QLearning.set_params
  set_params_of-IsSound lr df eps (q_learning q) h = record { wide = h.wide; rows = h.rows }
  set_params_of-IsSound lr df eps ppo h = tt
  set_params_of-IsSound lr df eps dqn h = tt

  train_algorithm-IsSound :
      (a : Algorithm F) (es : List (Experience F))
      → IsSound a
      → (r : Algorithm F × F) × (train_algorithm fl a es ≡ ok r) × IsSound r.0
  unfolding train_algorithm
  train_algorithm-IsSound (q_learning q) es h =
      let (r, done, v) = train-IsShaped fl q es h in ((q_learning r.0, r.1), rw done, v)
  train_algorithm-IsSound ppo es h = ((ppo, fl.decimal 0 0), refl, tt)
  train_algorithm-IsSound dqn es h = ((dqn, fl.decimal 0 0), refl, tt)

  train_active-IsReady :
      (a : Algorithm F) (batch : List (Experience F)) (e : RlEngine F)
      → IsSound a
      → IsReady e
      → (r : RlEngine F × F) × (train_active fl (some a) batch e ≡ ok r) × IsReady r.0
  unfolding train_active
  train_active-IsReady a batch e h v =
      let (r, done, sound) = train_algorithm-IsSound a batch h in
      let k = e.active_algorithm in
      (
        (record e { algorithms = Map.update String_discrete k (λ _. r.0) e.algorithms }, r.1),
        rw (done, train_active),
        record {
          active = active-update (λ _. r.0) k e.algorithms v.active;
          sound =
              update-AllValues String_discrete IsSound k (λ _. r.0) e.algorithms (λ _ _. sound)
                v.sound;
        },
      )

  -- Training a ready engine ends with a ready engine: it neither fails for want of the active
  -- algorithm nor panics.
  pub train-IsReady :
      (d : Draws F) (e : RlEngine F)
      → IsReady e
      → (r : RlEngine F × F) × (train fl d e ≡ ok r) × IsReady r.0
  unfolding train
  train-IsReady d e v =
      elim (Bool-cases (ltb (Experience.len e.experience_buffer) e.training_batch_size)) [
        | inl few ↦ ((e, fl.decimal 0 0), rw few, v)
        | inr many ↦ elim (Option-cases (Map.get String_discrete e.active_algorithm e.algorithms)) [
          | inl gone ↦ absurd (v.active gone)
          | inr (a, found) ↦
              let sound =
                AllValues-get String_discrete IsSound e.active_algorithm a e.algorithms v.sound
                  found in
              let batch = Experience.sample d.choose e.training_batch_size e.experience_buffer in
              let (r, done, v') = train_active-IsReady a batch e sound v in
              (r, rw (many, found) done, v')
        ]
      ]

  step-IsReady : (c : Call) (e : RlEngine F) → IsReady e → IsReady (step c e)
  unfolding step set_algorithm record_experience update_reward set_algorithm_params clear_buffer
  step-IsReady (sets_algorithm name) e v =
      elim (Option-cases (Map.get String_discrete name e.algorithms)) [
        | inl gone ↦ rw (gone, set_algorithm) v
        | inr (a, found) ↦
            rw (found, set_algorithm) (record { active = λ h. cc (h, found); sound = v.sound })
      ]
  step-IsReady (records x) e v = record { active = v.active; sound = v.sound }
  step-IsReady (trains d) e v = let (r, done, v') = train-IsReady d e v in rw done v'
  step-IsReady (updates_reward r) e v = record {
    active = active-update (update_algorithm fl) e.active_algorithm e.algorithms v.active;
    sound =
        update-AllValues String_discrete IsSound e.active_algorithm (update_algorithm fl)
          e.algorithms update_algorithm-IsSound v.sound;
  }
  step-IsReady (sets_params lr df eps) e v = record {
    active = active-update (set_params_of fl lr df eps) e.active_algorithm e.algorithms v.active;
    sound =
        update-AllValues String_discrete IsSound e.active_algorithm (set_params_of fl lr df eps)
          e.algorithms (set_params_of-IsSound lr df eps) v.sound;
  }
  step-IsReady clears e v = record { active = v.active; sound = v.sound }

  pub recorded-IsReady :
      (x : Experience F) (r : F) (e : RlEngine F)
      → IsReady e
      → IsReady (update_reward fl r (record_experience fl x e))
  unfolding step
  recorded-IsReady x r e v =
      step-IsReady (updates_reward r) (record_experience fl x e) (step-IsReady (records x) e v)

  run-IsReady : (cs : List Call) (e : RlEngine F) → IsReady e → IsReady (run cs e)
  unfolding run
  run-IsReady [] e v = v
  run-IsReady (c ∷ cs) e v = run-IsReady cs (step c e) (step-IsReady c e v)

  -- After any calls on a new engine the active algorithm is one that is registered and the tables
  -- keep their shape, and so the next training succeeds.
  pub run-new-IsReady :
      (cs : List Call) (d : Draws F)
      → IsReady (run cs (new fl))
        × ((r : RlEngine F × F) × (train fl d (run cs (new fl)) ≡ ok r) × IsReady r.0)
  run-new-IsReady cs d =
      let v = run-IsReady cs (new fl) new-IsReady in (v, train-IsReady d (run cs (new fl)) v)
