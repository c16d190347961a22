-- ===== src/Orchestrator/Finishing.antt =====
-- The aggregation of the results of delegated tasks (crates/cca-daemon/src/orchestrator.rs): when it
-- is complete, and what it adds up to.
use cca.Common.{
  ℕ, suc, ◌+◌, ◌%◌, ◌<◌, ◌≡◌, refl, ap, ◌↔◌, true, false, [], ◌∷◌, none, some, String, ℕ_discrete,
  if_neg, arith, u64_mod, length, Has, leb, inl, inr,
}
use cca.Common.Map
use cca.Common.Map.{Map, keys, AllValues}
use cca.Core.Task.{TaskResult}
use cca.Orchestrator.{PendingAggregation, Orchestrator}
use cca.Orchestrator.Outcomes.{parent_of}
use cca.Orchestrator.Aggregation.{
  collect, summary, aggregated, with_result, keep_result, close_parent, take_result,
  try_aggregate_result,
}

-- The tokens of all the results, without any bound.
abbrev pub tokens : Map ℕ TaskResult → ℕ
tokens [] = 0
tokens (e ∷ m) = e.1.tokens_used + tokens m

abbrev pub Succeeded : TaskResult → Type 0
Succeeded r = r.success ≡ true

module _ (uuid_text : ℕ → String) where
  summary-tokens : (m : Map ℕ TaskResult) → (summary uuid_text m).total_tokens ≡ tokens m % u64_mod
  unfolding summary collect
  summary-tokens [] = omega arith
  summary-tokens (e ∷ m) = omega (arith, summary-tokens m)

  summary_sound :
      (m : Map ℕ TaskResult)
      → (summary uuid_text m).all_success ≡ true
      → AllValues ℕ_discrete Succeeded m
  unfolding summary collect
  summary_sound [] h = tt
  summary_sound (e ∷ m) h = (ground arith, summary_sound m (ground arith))

  summary_complete :
      (m : Map ℕ TaskResult)
      → AllValues ℕ_discrete Succeeded m
      → (summary uuid_text m).all_success ≡ true
  unfolding summary collect
  summary_complete [] h = refl
  summary_complete (e ∷ m) h = ground (arith, summary_complete m h.1)

  -- The aggregated result is a success exactly if every subtask succeeded, and it has the tokens of all
  -- of them, those of failures included, up to the wrap-around of u64.
  pub aggregated-adds_up :
      (agg : PendingAggregation)
      → ((aggregated uuid_text agg).success ≡ true ↔ AllValues ℕ_discrete Succeeded agg.results)
        × ((aggregated uuid_text agg).tokens_used ≡ tokens agg.results % u64_mod)
  unfolding aggregated
  aggregated-adds_up agg =
      ((summary_sound agg.results, summary_complete agg.results), summary-tokens agg.results)

pub length-insert_new :
    (k : ℕ) (r : TaskResult) (m : Map ℕ TaskResult)
    → ¬ Has k (keys m)
    → length (Map.insert ℕ_discrete k r m) ≡ suc (length m)
unfolding Map.insert
length-insert_new k r [] h = refl
length-insert_new k r (e ∷ m) h =
    rw (if_neg (ℕ_discrete e.0 k) (λ p. h (inl p)))
      (ap suc (length-insert_new k r m (λ q. h (inr q))))

module _ {C F : Type 0} (uuid_text : ℕ → String) where
  pub taken :
      (now p : ℕ) (r : TaskResult) (agg : PendingAggregation) (o : Orchestrator C F)
      → parent_of (Map.get ℕ_discrete r.task_id o.tasks) ≡ some p
      → Map.get ℕ_discrete p o.pending_aggregations ≡ some agg
      → try_aggregate_result uuid_text now r.task_id r o
        ≡ take_result uuid_text now p r.task_id r agg o
  unfolding try_aggregate_result
  taken now p r agg o hp hg = rw (try_aggregate_result, hp, hg) refl

  pub waits :
      (now p : ℕ) (r : TaskResult) (agg : PendingAggregation) (o : Orchestrator C F)
      → ¬ Has r.task_id (keys agg.results)
      → suc (length agg.results) < agg.required_count
      → take_result uuid_text now p r.task_id r agg o
        ≡ (keep_result uuid_text p r.task_id r o, none)
  unfolding take_result with_result
  waits now p r agg o hn hl =
      let n = length-insert_new r.task_id r agg.results hn in
      let b : leb agg.required_count (length (with_result r.task_id r agg).results) ≡ false =
        ground (arith, n) in
      rw (take_result, b) refl

  pub closes :
      (now p : ℕ) (r : TaskResult) (agg : PendingAggregation) (o : Orchestrator C F)
      → ¬ Has r.task_id (keys agg.results)
      → suc (length agg.results) ≡ agg.required_count
      → take_result uuid_text now p r.task_id r agg o
        ≡ close_parent uuid_text now p (with_result r.task_id r agg) o
  unfolding take_result with_result
  closes now p r agg o hn hl =
      let n = length-insert_new r.task_id r agg.results hn in
      let b : leb agg.required_count (length (with_result r.task_id r agg).results) ≡ true =
        ground (arith, n) in
      rw (take_result, b) refl
