-- ===== src/Rl/QLearning/Totality.antt =====
-- The learner never indexes out of range (crates/cca-rl/src/algorithm.rs).
use cca.Common.{
  ℕ, ◌<◌, ◌≡◌, refl, List, [], ◌∷◌, String, F64, ok, arith, length, length-replicate, length-set,
  get_elem?-some, set, String_discrete, Option-cases, inl, inr, ◌∙◌,
}
use cca.Common.Map
use cca.Common.Map.{Map, AllValues, AllValues-get, insert-AllValues}
use cca.Rl.State.{to_index, action_space_size}
use cca.Rl.State.Indices.{to_index-lt}
use cca.Rl.Experience.{Experience}
use cca.Rl.QLearning.{
  QLearning, new, state_key, row_at, get_q_values, target, set_value, train_one, train_from, train,
}

module _ {F : Type 0} (fl : F64 F) where
  abbrev IsRow : List F → Type 0
  IsRow row = length row ≡ action_space_size

  -- Every row of the table has a value for each action.
  pub record IsShaped (q : QLearning F) : Type 0 where
    pub wide : q.space ≡ action_space_size
    pub rows : AllValues String_discrete IsRow q.q_table

  new-IsShaped : (lr df eps : F) → IsShaped (new fl lr df eps)
  unfolding new
  new-IsShaped lr df eps = record { wide = refl; rows = tt }

  length-row_at :
      (q : QLearning F) (key : String) → IsShaped q → length (row_at fl q key) ≡ action_space_size
  unfolding row_at
  length-row_at q key v = elim (Option-cases (Map.get String_discrete key q.q_table)) [
    | inl e ↦ rw (e, row_at) (length-replicate q.space (fl.decimal 0 0) ∙ v.wide)
    | inr (values, e) ↦
        rw (e, row_at) (AllValues-get String_discrete IsRow key values q.q_table v.rows e)
  ]

  set_value-IsShaped :
      (q : QLearning F) (key : String) (i : ℕ) (x : F)
      → IsShaped q
      → i < action_space_size
      → (q' : QLearning F) × (set_value fl q key i x ≡ ok q') × IsShaped q'
  unfolding set_value
  set_value-IsShaped q key i x v h =
      let row = row_at fl q key in
      let wide = length-row_at q key v in
      let (old, found) = get_elem?-some row i (omega (arith, wide)) in
      (
        record q { q_table = Map.insert String_discrete key (set row i x) q.q_table },
        rw (found, set_value),
        record {
          wide = v.wide;
          rows =
              insert-AllValues String_discrete IsRow key (set row i x) q.q_table
                (length-set row i x ∙ wide) v.rows;
        },
      )

  train_one-IsShaped :
      (q : QLearning F) (e : Experience F)
      → IsShaped q
      → (r : QLearning F × F) × (train_one fl q e ≡ ok r) × IsShaped r.0
  unfolding train_one get_q_values
  train_one-IsShaped q e v =
      let i = to_index e.action in
      let key = state_key fl e.state in
      let (current, found) =
        get_elem?-some (row_at fl q key) i
          (omega (arith, length-row_at q key v, to_index-lt e.action)) in
      let change = fl.sub (target fl q e) current in
      let (q', done, v') =
        set_value-IsShaped q key i (fl.add current (fl.mul q.learning_rate change)) v
          (to_index-lt e.action) in
      ((q', fl.mul change change), rw (found, train_one) (rw (done, train_one)), v')

  train_from-IsShaped :
      (q : QLearning F) (loss : F) (es : List (Experience F))
      → IsShaped q
      → (r : QLearning F × F) × (train_from fl q loss es ≡ ok r) × IsShaped r.0
  unfolding train_from
  train_from-IsShaped q loss [] v = ((q, loss), refl, v)
  train_from-IsShaped q loss (e ∷ es) v =
      let (r, done, v') = train_one-IsShaped q e v in
      let (r', done', v'') = train_from-IsShaped r.0 (fl.add loss r.1) es v' in
      (r', rw (done, train_from) done', v'')

  -- Training a learner whose rows have a place for each action, on any batch, ends with such a
  -- learner, never in a panic or an error.
  pub train-IsShaped :
      (q : QLearning F) (es : List (Experience F))
      → IsShaped q
      → (r : QLearning F × F) × (train fl q es ≡ ok r) × IsShaped r.0
  unfolding train
  train-IsShaped q es v =
      let (r, done, v') = train_from-IsShaped q (fl.decimal 0 0) es v in
      ((r.0, fl.div r.1 (fl.of_nat (length es))), rw (done, train), v')
