-- ===== src/Tokens/Usage.antt =====
-- The totals of the usage table (crates/cca-daemon/src/tokens.rs).
use cca.Common.{
  ℕ, ◌+◌, ◌%◌, ◌<◌, ◌≡◌, ap, ◌∙◌, List, [], ◌∷◌, some, F64, if_pos, if_neg, ite, ℕ_discrete,
  u64_mod, arith,
}
use cca.Common.Map
use cca.Tokens.{TokenUsage, TokenMetrics, new, or_default, add_usage, record_usage}

-- The input tokens of one agent in these usages, without any bound.
abbrev pub inputs : ℕ → List TokenUsage → ℕ
inputs a [] = 0
inputs a (u ∷ us) = ite (ℕ_discrete u.agent_id a) (u.input_tokens + inputs a us) (inputs a us)

module _ {F : Type 0} (fl : F64 F) where
  pub record_all : List TokenUsage → TokenMetrics F → TokenMetrics F
  unfolding record_usage
  record_all [] t = t
  record_all (u ∷ us) t = record_all us (record_usage fl u t)

  abbrev pub total_input_of : ℕ → TokenMetrics F → ℕ
  total_input_of a t = (or_default fl (Map.get ℕ_discrete a t.agent_metrics)).total_input

  get-record_usage :
      (a : ℕ) (u : TokenUsage) (t : TokenMetrics F)
      → Map.get ℕ_discrete a (record_usage fl u t).agent_metrics
        ≡ ite
            (ℕ_discrete u.agent_id a)
            (some (add_usage fl u (or_default fl (Map.get ℕ_discrete u.agent_id t.agent_metrics))))
            (Map.get ℕ_discrete a t.agent_metrics)
  unfolding record_usage
  get-record_usage a u t = Map.get-insert ℕ_discrete a u.agent_id _ t.agent_metrics

  own_usage :
      (a : ℕ) (u : TokenUsage) (t : TokenMetrics F)
      → u.agent_id ≡ a
      → total_input_of a (record_usage fl u t) ≡ (total_input_of a t + u.input_tokens) % u64_mod
  unfolding add_usage
  own_usage a u t p =
      ap (λ o. (or_default fl o).total_input)
        (get-record_usage a u t ∙ if_pos (ℕ_discrete u.agent_id a) p _ _)
      ∙ ap (λ k. (total_input_of k t + u.input_tokens) % u64_mod) p

  other_usage :
      (a : ℕ) (u : TokenUsage) (t : TokenMetrics F)
      → ¬ (u.agent_id ≡ a)
      → total_input_of a (record_usage fl u t) ≡ total_input_of a t
  other_usage a u t n =
      ap (λ o. (or_default fl o).total_input)
        (get-record_usage a u t ∙ if_neg (ℕ_discrete u.agent_id a) n _ _)

  record_all-from :
      (a : ℕ) (us : List TokenUsage) (t : TokenMetrics F)
      → total_input_of a t + inputs a us < u64_mod
      → total_input_of a (record_all us t) ≡ total_input_of a t + inputs a us
  unfolding record_all
  record_all-from a [] t small = omega arith
  record_all-from a (u ∷ us) t small = elim (ℕ_discrete u.agent_id a) [
    | yes p ↦
        let all : inputs a (u ∷ us) ≡ u.input_tokens + inputs a us =
          if_pos (ℕ_discrete u.agent_id a) p _ _ in
        let own = own_usage a u t p in
        let rest = record_all-from a us (record_usage fl u t) (omega (arith, small, all, own)) in
        omega (arith, small, all, own, rest)
    | no n ↦
        let all : inputs a (u ∷ us) ≡ inputs a us = if_neg (ℕ_discrete u.agent_id a) n _ _ in
        let own = other_usage a u t n in
        let rest = record_all-from a us (record_usage fl u t) (omega (arith, small, all, own)) in
        omega (arith, all, own, rest)
  ]

  -- After any usages recorded on a new table, the input tokens of an agent are the sum of those of
  -- its own usages, as long as that is less than 2^64.
  pub record_all-totals :
      (a : ℕ) (us : List TokenUsage)
      → inputs a us < u64_mod
      → total_input_of a (record_all us (new fl)) ≡ inputs a us
  unfolding new Map.get
  record_all-totals a us small =
      let e = record_all-from a us (new fl) (omega (arith, small)) in omega (arith, e)
