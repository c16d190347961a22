-- ===== src/Tests/Learning.antt =====
-- The learner on concrete experiences.
use cca.Common.{ℕ, ◌≡◌, false, List, [], ◌∷◌, ok, max}
use cca.Rl.Experience.{Experience, all}
use cca.Rl.Experience
use cca.Rl.Experience.Window.{push_all, last_n, all-push_all}
use cca.Rl.QLearning.{QLearning}
use cca.Rl.Engine.{RlEngine, train}
use cca.Rl.Engine
use cca.Rl.Engine.Ready.{Call, sets_algorithm, records, trains, run, IsReady, run-new-IsReady}
use cca.Rl.Service.{RlService, default_config}
use cca.Tests.Fixtures.{fl, experience, draws}

all-push_all_example :
    all (push_all (experience 1 ∷ experience 2 ∷ experience 3 ∷ []) (Experience.new 2))
    ≡ last_n (max 2 1) (experience 1 ∷ experience 2 ∷ experience 3 ∷ [])
all-push_all_example = all-push_all 2 (experience 1 ∷ experience 2 ∷ experience 3 ∷ [])

abbrev calls : List (Call {F = ℕ} fl)
calls = sets_algorithm "unknown" ∷ records (experience 4) ∷ trains draws ∷ []

run-new-IsReady_example :
    IsReady fl (run fl calls (Engine.new fl))
    × ((r : RlEngine ℕ × ℕ) × (train fl draws (run fl calls (Engine.new fl)) ≡ ok r)
        × IsReady fl r.0)
run-new-IsReady_example = run-new-IsReady fl calls draws

abbrev learner : QLearning ℕ
learner = record { q_table = []; learning_rate = 1; discount_factor = 1; epsilon = 1; space = 12 }

abbrev service : RlService ℕ
service = record {
  engine = Engine.new fl;
  config = default_config;
  has_postgres = false;
  stored = [];
  experience_count = 6;
  last_training_loss = 0;
}
