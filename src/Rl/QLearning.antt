-- ===== src/Rl/QLearning.antt =====
-- The tabular learner of crates/cca-rl/src/algorithm.rs. Vector indexing panics out of range; the
-- random draws of `predict` are arguments.
pub mod Totality
use Prim.Native.Nat.{Ordering}
use Prim.Native.String.{◌++◌ as str_append}
use cca.Common.{
  ℕ, zero, suc, ◌+◌, ◌%◌, Bool, true, false, List, [], ◌∷◌, Option, none, some, String, F64, Result,
  ok, err, panic, ◌>>=◌, length, if◌then◌else◌, String_discrete, replicate, get_elem?, set, ◌++◌,
}
use cca.Common.Map
use cca.Common.Map.{Map}
use cca.Core.Role.{coordinator}
use cca.Rl.State.{State, Action, route_to_agent, to_index, from_index, action_space_size}
use cca.Rl.Experience.{Experience}

pub record QLearning (F : Type 0) : Type 0 where
  pub q_table : Map String (List F)
  pub learning_rate : F
  pub discount_factor : F
  pub epsilon : F
  pub space : ℕ

-- `v[i]`.
abbrev pub index_or_panic : {F : Type 0} → Option F → Result String F
index_or_panic none = panic
index_or_panic (some x) = ok x

module _ {F : Type 0} (fl : F64 F) where
  unfoldable pub new : F → F → F → QLearning F
  new learning_rate discount_factor epsilon = record {
    q_table = [];
    learning_rate = learning_rate;
    discount_factor = discount_factor;
    epsilon = epsilon;
    space = action_space_size;
  }

  unfoldable pub default : QLearning F
  unfolding new
  default = new (fl.decimal 1 1) (fl.decimal 99 2) (fl.decimal 1 1)

  unfoldable pub state_key : State F → String
  state_key s = str_append (fl.fixed2 s.complexity) (str_append "_" (fl.fixed2 s.token_usage))

  -- The row of a key, or zeros.
  unfoldable pub row_at : QLearning F → String → List F
  row_at q key = elim (Map.get String_discrete key q.q_table) [
    | none ↦ replicate q.space (fl.decimal 0 0)
    | some values ↦ values
  ]

  unfoldable pub get_q_values : QLearning F → State F → List F
  unfolding row_at
  get_q_values q s = row_at q (state_key s)

  -- `iter().copied().fold(f64::NEG_INFINITY, f64::max)`.
  unfoldable pub max_from : F → List F → F
  max_from acc [] = acc
  max_from acc (x ∷ xs) = max_from (fl.fmax acc x) xs

  unfoldable pub target : QLearning F → Experience F → F
  unfolding max_from
  target q e = if e.done then e.reward else elim e.next_state [
    | none ↦ e.reward
    | some next ↦
        fl.add e.reward (fl.mul q.discount_factor (max_from fl.neg_infinity (get_q_values q next)))
  ]

  -- `entry(key).or_insert_with(zeros)[i] = v`.
  unfoldable pub set_value : QLearning F → String → ℕ → F → Result String (QLearning F)
  set_value q key i v =
      let row = row_at q key in
      elim (get_elem? row i) [
        | none ↦ panic
        | some old ↦
            ok (record q { q_table = Map.insert String_discrete key (set row i v) q.q_table })
      ]

  -- One experience: the learner after it, and its squared error.
  unfoldable pub train_one : QLearning F → Experience F → Result String (QLearning F × F)
  unfolding set_value target
  train_one q e = do
    current ← index_or_panic (get_elem? (get_q_values q e.state) (to_index e.action))
    let goal = target q e
    let change = fl.sub goal current
    q' ←
        set_value q (state_key e.state) (to_index e.action)
          (fl.add current (fl.mul q.learning_rate change))
    ok (q', fl.mul change change)

  unfoldable pub train_from :
      QLearning F → F → List (Experience F) → Result String (QLearning F × F)
  unfolding train_one
  train_from q loss [] = ok (q, loss)
  train_from q loss (e ∷ es) = do (q', l) ← train_one q e; train_from q' (fl.add loss l) es

  unfoldable pub train : QLearning F → List (Experience F) → Result String (QLearning F × F)
  unfolding train_from
  train q es = do
    (q', total) ← train_from q (fl.decimal 0 0) es
    ok (q', fl.div total (fl.of_nat (length es)))

  -- `max_by` with `partial_cmp(..).unwrap()`: the last of the greatest, and a panic on a NaN.
  abbrev pick : ℕ × F → ℕ × F → Option Ordering → Result String (ℕ × F)
  pick best next none = panic
  pick best next (some Ordering.gt) = ok best
  pick best next (some Ordering.eq) = ok next
  pick best next (some Ordering.lt) = ok next

  unfoldable pub best_from : ℕ × F → ℕ → List F → Result String (ℕ × F)
  best_from best i [] = ok best
  best_from best i (x ∷ xs) = do
    best' ← pick best (i, x) (fl.partial_cmp best.1 x)
    best_from best' (suc i) xs

  unfoldable pub best_index : List F → Result String ℕ
  unfolding best_from
  best_index [] = ok 0
  best_index (x ∷ xs) = do best ← best_from (0, x) 1 xs; ok best.0

  abbrev or_coordinator : Option (Action F) → Action F
  or_coordinator none = route_to_agent coordinator
  or_coordinator (some a) = a

  -- `draw` and `pick_index` are the two random numbers.
  unfoldable pub predict : F → ℕ → QLearning F → State F → Result String (Action F)
  unfolding best_index
  predict draw pick_index q s =
      if fl.lt draw q.epsilon
      then ok (or_coordinator (from_index (pick_index % q.space)))
      else (do i ← best_index (get_q_values q s); ok (or_coordinator (from_index i)))

  unfoldable pub update : QLearning F → QLearning F
  update q =
      let decayed = fl.mul q.epsilon (fl.decimal 999 3) in
      record q { epsilon = if fl.lt decayed (fl.decimal 1 2) then fl.decimal 1 2 else decayed }

  abbrev or_old : Option F → F → F
  or_old none old = old
  or_old (some new_value) old = new_value

  -- The numbers that the JSON parameters hold under the three names.
  unfoldable pub set_params : Option F → Option F → Option F → QLearning F → QLearning F
  set_params learning_rate discount_factor epsilon q = record q {
    learning_rate = or_old learning_rate q.learning_rate;
    discount_factor = or_old discount_factor q.discount_factor;
    epsilon = or_old epsilon q.epsilon;
  }
