-- ===== src/Rl/Service/Counting.antt =====
-- What the service counts and configures (crates/cca-daemon/src/rl.rs).
use cca.Common.{
  ◌+◌, ◌%◌, ◌<◌, ◌≡◌, ◌≢◌, false, F64, ok, arith, Bool-cases, inl, inr, if◌then◌else◌, ◌==◌,
  u64_mod,
}
use cca.Rl.Experience.{Experience}
use cca.Rl.Engine.{Draws}
use cca.Rl.Engine.Ready.{IsReady, train-IsReady, recorded-IsReady}
use cca.Rl.Service.{RlConfig, RlService, new, recorded, record_experience}

module _ {F : Type 0} (fl : F64 F) where
  -- Recording an experience on a service whose engine is ready and whose count is below 2^64 - 1
  -- succeeds whenever the training interval is not zero, counts one more experience, and leaves the
  -- engine ready.
  pub record_experience-counts :
      (d : Draws F) (x : Experience F) (s : RlService F)
      → IsReady fl s.engine
      → s.config.train_interval ≢ 0
      → s.experience_count + 1 < u64_mod
      → (s' : RlService F) × (record_experience fl d x s ≡ ok s')
        × (s'.experience_count ≡ s.experience_count + 1)
        × IsReady fl s'.engine
  unfolding record_experience
  record_experience-counts d x s v h small =
      let s1 = recorded fl x s in
      let v1 = recorded-IsReady fl x x.reward s.engine v in
      let counted : s1.experience_count ≡ s.experience_count + 1 = omega arith in
      let (r, done, v2) = train-IsReady fl d s1.engine v1 in
      elim (Bool-cases (s1.experience_count % s.config.train_interval == 0)) [
        | inl due ↦ (
          record s1 {
            engine = r.0;
            last_training_loss = if fl.lt (fl.decimal 0 0) r.1 then r.1 else s.last_training_loss;
          },
          rw (not_zero s h, due, done),
          counted,
          v2,
        )
        | inr later ↦ (s1, rw (not_zero s h, later), counted, v1)
      ]
    where
      not_zero :
          (s : RlService F) → s.config.train_interval ≢ 0 → (s.config.train_interval == 0) ≡ false
      not_zero s h = ground arith

  -- The engine of a new service trains on batches of 32 and keeps 10000 experiences, whatever the
  -- batch size and the capacity of the configuration.
  pub new-fixed_sizes :
      (config : RlConfig)
      → ((new fl config).engine.training_batch_size ≡ 32)
        × ((new fl config).engine.experience_buffer.capacity ≡ 10000)
  unfolding new
  new-fixed_sizes config = ground arith
