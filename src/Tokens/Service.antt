-- ===== src/Tokens/Service.antt =====
-- `TokenService` of crates/cca-daemon/src/tokens.rs, with the recommendations of `TokenMetrics`.
use cca.Common.{
  ℕ, ◌-◌, ◌/◌, ◌%◌, min, Bool, ◌&&◌, ◌||◌, List, [], ◌∷◌, ◌++◌, String, F64, if◌then◌else◌, ltb,
  add_u32, add_u64, u32_mod, length,
}
use cca.Tokens.{Text, count, TokenMetrics, AgentTokenMetrics, record_savings}
use cca.Tokens.Compressor.{compress_code}
use cca.Tokens.Analyzer.{ContextAnalysis, analyze}

pub record TokenRecommendation : Type 0 where
  pub agent_id : ℕ
  pub category : String
  pub severity : String
  pub message : String
  pub potential_savings : ℕ

pub record ProcessedContext (F : Type 0) : Type 0 where
  pub content : Text
  pub original_tokens : ℕ
  pub final_tokens : ℕ
  pub tokens_saved : ℕ
  pub analysis : ContextAnalysis F

pub record EfficiencySummary (F : Type 0) : Type 0 where
  pub total_tokens_used : ℕ
  pub total_tokens_saved : ℕ
  pub compression_ratio : F
  pub agents_tracked : ℕ
  pub recommendations_count : ℕ
  pub total_potential_savings : ℕ
  pub target_reduction : F
  pub current_reduction : F
  pub on_track : Bool

abbrev push_if : Bool → TokenRecommendation → List TokenRecommendation
push_if b r = if b then r ∷ [] else []

module _ {F : Type 0} (fl : F64 F) where
  -- The three messages are formatted from the numbers in them: `peak` and `average` do this.
  unfoldable pub recommend :
      (ℕ → String) → (F → String) → ℕ → AgentTokenMetrics F → List TokenRecommendation
  recommend peak average agent_id agent =
      let total = add_u64 (add_u64 agent.total_input agent.total_output) agent.total_context in
      push_if (ltb 50000 agent.peak_context_size) (record {
        agent_id = agent_id;
        category = "context_size";
        severity = "high";
        message = peak agent.peak_context_size;
        potential_savings = agent.peak_context_size / 3;
      })
      ++ push_if (ltb 10000 total && ltb agent.compression_savings (total / 10)) (record {
        agent_id = agent_id;
        category = "compression";
        severity = "medium";
        message = "Low compression savings. Enable context compression.";
        potential_savings = (total / 5) % u32_mod;
      })
      ++ push_if (fl.lt (fl.decimal 2000 0) agent.avg_input_per_message) (record {
        agent_id = agent_id;
        category = "verbosity";
        severity = "medium";
        message = average agent.avg_input_per_message;
        potential_savings =
            min (fl.to_nat (fl.mul agent.avg_input_per_message (fl.decimal 3 1))) (u32_mod - 1);
      })

  unfoldable pub recommend_all :
      (ℕ → String) → (F → String) → List (ℕ × AgentTokenMetrics F) → List TokenRecommendation
  unfolding recommend
  recommend_all peak average [] = []
  recommend_all peak average (e ∷ m) =
      recommend peak average e.0 e.1 ++ recommend_all peak average m

  unfoldable pub get_recommendations :
      (ℕ → String) → (F → String) → TokenMetrics F → List TokenRecommendation
  unfolding recommend_all
  get_recommendations peak average t = recommend_all peak average t.agent_metrics

  -- What is saved is noted only where something is.
  unfoldable pub note_savings : ℕ → ℕ → TokenMetrics F → TokenMetrics F
  unfolding record_savings
  note_savings agent_id saved t = if ltb 0 saved then record_savings fl agent_id saved t else t

  -- The content that is handed on, and the tokens that this saves.
  unfoldable pub reduced : (Text → Text) → Bool → Text → Text × ℕ
  unfolding analyze compress_code count
  reduced to_lowercase compress content =
      let analysis = analyze fl to_lowercase content in
      if compress && fl.lt (fl.decimal 1 1) analysis.compression_potential
      then (compress_code content, analysis.total_tokens - count (compress_code content))
      else (content, 0)

  unfoldable pub process_context :
      (Text → Text) → ℕ → Text → Bool → TokenMetrics F → ProcessedContext F × TokenMetrics F
  unfolding reduced note_savings analyze
  process_context to_lowercase agent_id content compress t =
      let analysis = analyze fl to_lowercase content in
      let (processed, saved) = reduced to_lowercase compress content in
      (
        record {
          content = processed;
          original_tokens = analysis.total_tokens;
          final_tokens = analysis.total_tokens - saved;
          tokens_saved = saved;
          analysis = analysis;
        },
        note_savings agent_id saved t,
      )

  unfoldable pub sum_savings : List TokenRecommendation → ℕ
  sum_savings [] = 0
  sum_savings (r ∷ rs) = add_u32 r.potential_savings (sum_savings rs)

  unfoldable pub get_efficiency_summary :
      (ℕ → String) → (F → String) → TokenMetrics F → EfficiencySummary F
  unfolding get_recommendations sum_savings
  get_efficiency_summary peak average t =
      let recommendations = get_recommendations peak average t in
      let ratio = t.global_metrics.compression_ratio in
      record {
        total_tokens_used = t.global_metrics.total_tokens_used;
        total_tokens_saved = t.global_metrics.total_tokens_saved;
        compression_ratio = ratio;
        agents_tracked = length t.agent_metrics;
        recommendations_count = length recommendations;
        total_potential_savings = sum_savings recommendations;
        target_reduction = fl.decimal 30 2;
        current_reduction = ratio;
        on_track = fl.lt (fl.decimal 25 2) ratio || fl.eq ratio (fl.decimal 25 2);
      }
