-- ===== src/Core/Task/Lifecycle.antt =====
-- The life of a task (crates/cca-core/src/task.rs): any sequence of the calls that change it.
use cca.Common.{ℕ, ◌≡◌, refl, List, [], ◌∷◌, Option, none, some, String}
use cca.Core.Task.{
  Task, TaskStatus, pending, in_progress, completed, failed, cancelled, new, start, complete, fail,
  cancel,
}

pub data Call : Type 0 where
  starts : ℕ → Call
  completes : ℕ → Call
  fails : ℕ → String → Call
  cancels : ℕ → Call

unfoldable pub step : Call → Task → Task
unfolding start complete fail cancel
step (starts now) t = start now t
step (completes now) t = complete now t
step (fails now reason) t = fail now reason t
step (cancels now) t = cancel now t

unfoldable pub run : List Call → Task → Task
unfolding step
run [] t = t
run (c ∷ cs) t = run cs (step c t)

abbrev pub Timed : Option ℕ → Type 0
Timed o = (at : ℕ) × (o ≡ some at)

-- What each status says of the two time stamps.
abbrev StampOf : TaskStatus → Option ℕ → Option ℕ → Type 0
StampOf pending s c = (s ≡ none) × (c ≡ none)
StampOf in_progress s c = Timed s
StampOf completed s c = Timed c
StampOf (failed reason) s c = Timed c
StampOf cancelled s c = Timed c

abbrev pub IsStamped : Task → Type 0
IsStamped t = StampOf t.status t.started_at t.completed_at

step-IsStamped : (c : Call) (t : Task) → IsStamped (step c t)
unfolding step
step-IsStamped (starts now) t = (now, refl)
step-IsStamped (completes now) t = (now, refl)
step-IsStamped (fails now reason) t = (now, refl)
step-IsStamped (cancels now) t = (now, refl)

run-IsStamped_lem : (cs : List Call) (t : Task) → IsStamped t → IsStamped (run cs t)
unfolding run
run-IsStamped_lem [] t h = h
run-IsStamped_lem (c ∷ cs) t h = run-IsStamped_lem cs (step c t) (step-IsStamped c t)

-- What no call of the lifecycle touches.
abbrev pub SameTask : Task → Task → Type 0
SameTask t u =
    (t.id ≡ u.id)
    × (t.description ≡ u.description)
    × (t.assigned_to ≡ u.assigned_to)
    × (t.parent_task ≡ u.parent_task)
    × (t.priority ≡ u.priority)
    × (t.token_budget ≡ u.token_budget)
    × (t.created_at ≡ u.created_at)
    × (t.metadata ≡ u.metadata)

run-SameTask : (cs : List Call) (t : Task) → SameTask (run cs t) t
unfolding run step
run-SameTask [] t = (refl, refl, refl, refl, refl, refl, refl, refl)
run-SameTask (starts now ∷ cs) t = run-SameTask cs (step (starts now) t)
run-SameTask (completes now ∷ cs) t = run-SameTask cs (step (completes now) t)
run-SameTask (fails now reason ∷ cs) t = run-SameTask cs (step (fails now reason) t)
run-SameTask (cancels now ∷ cs) t = run-SameTask cs (step (cancels now) t)

-- Whatever calls a new task has seen, its status agrees with its time stamps: a pending task has
-- neither, one in progress has been started, and a completed, failed or cancelled one carries the
-- time at which it ended. Its identity, assignment, parent, priority, budget and metadata are those
-- it was created with.
pub run-new-IsStamped :
    (cs : List Call) (id now : ℕ) (description : String)
    → IsStamped (run cs (new id now description))
      × SameTask (run cs (new id now description)) (new id now description)
unfolding new
run-new-IsStamped cs id now description = (
  run-IsStamped_lem cs (new id now description) (refl, refl),
  run-SameTask cs (new id now description),
)
