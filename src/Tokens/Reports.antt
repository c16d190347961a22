-- ===== src/Tokens/Reports.antt =====
-- What `process_context` reports (crates/cca-daemon/src/tokens.rs).
use cca.Common.{ℕ, ◌+◌, ◌<◌, ◌≡◌, refl, Bool, ◌&&◌, F64, if-elim, ltb, arith, u64_mod}
use cca.Tokens.{Text, count, TokenMetrics, record_savings, save_globally}
use cca.Tokens.Smaller.{compress_code-count-le}
use cca.Tokens.Analyzer.{analyze}
use cca.Tokens.Service.{process_context, reduced, note_savings}

module _ {F : Type 0} (fl : F64 F) (to_lowercase : Text → Text) where
  reduced-count :
      (compress : Bool) (content : Text)
      → (reduced fl to_lowercase compress content).1
          + count (reduced fl to_lowercase compress content).0
        ≡ count content
  unfolding reduced analyze
  reduced-count compress content =
      if-elim (λ (r : Text × ℕ). r.1 + count r.0 ≡ count content)
        (compress && fl.lt (fl.decimal 1 1) (analyze fl to_lowercase content).compression_potential)
        (λ _. omega (arith, compress_code-count-le content)) (λ _. omega arith)

  note_savings-total :
      (agent_id saved : ℕ) (t : TokenMetrics F)
      → t.global_metrics.total_tokens_saved + saved < u64_mod
      → (note_savings fl agent_id saved t).global_metrics.total_tokens_saved
        ≡ t.global_metrics.total_tokens_saved + saved
  unfolding note_savings record_savings save_globally
  note_savings-total agent_id saved t small =
      if-elim
        (λ (r : TokenMetrics F).
          r.global_metrics.total_tokens_saved ≡ t.global_metrics.total_tokens_saved + saved)
        (ltb 0 saved)
        (λ _.
          if-elim
            (λ (g : cca.Tokens.GlobalTokenMetrics F).
              g.total_tokens_saved ≡ t.global_metrics.total_tokens_saved + saved)
            (ltb 0 t.global_metrics.total_tokens_used) (λ _. omega (arith, small))
            (λ _. omega (arith, small)))
        (λ e. ground arith)

  -- Whether it compresses or not, `process_context` reports the tokens of the content that it was
  -- given and of the content that it hands on; their difference is what it reports as saved, and what
  -- is added to the total of saved tokens, as long as that total stays below 2^64.
  pub process_context-accounts :
      (agent_id : ℕ) (content : Text) (compress : Bool) (t : TokenMetrics F)
      → t.global_metrics.total_tokens_saved + count content < u64_mod
      → let (p, t') = process_context fl to_lowercase agent_id content compress t in
        (p.original_tokens ≡ count content)
        × (p.final_tokens ≡ count p.content)
        × (p.final_tokens + p.tokens_saved ≡ p.original_tokens)
        × (t'.global_metrics.total_tokens_saved
            ≡ t.global_metrics.total_tokens_saved + p.tokens_saved)
  unfolding process_context analyze
  process_context-accounts agent_id content compress t small =
      let sum = reduced-count compress content in
      let saved = (reduced fl to_lowercase compress content).1 in
      (
        refl,
        omega (arith, sum),
        omega (arith, sum),
        note_savings-total agent_id saved t (omega (arith, sum, small)),
      )
