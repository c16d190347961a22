-- ===== src/Daemon/Cleanup.antt =====
-- One round of `task_cleanup_job` of crates/cca-daemon/src/daemon.rs.
pub mod Removal
pub mod Bound
use cca.Common.{
  ℕ, zero, suc, ◌+◌, ◌-◌, Bool, true, false, ◌||◌, List, [], ◌∷◌, String, str_eq, String_discrete,
  if◌then◌else◌, ltb, leb, length, take, keep_if, map,
}
use cca.Common.Map
use cca.Common.Map.{Map}
use cca.Daemon.{TaskState}

-- `TASK_TTL_SECS` in milliseconds, and `MAX_TASKS`.
abbrev pub task_ttl : ℕ
task_ttl = 3600000

abbrev pub max_tasks : ℕ
max_tasks = 10000

unfoldable pub is_unfinished : TaskState → Bool
is_unfinished t = str_eq t.status "pending" || str_eq t.status "in_progress"

unfoldable pub is_done : TaskState → Bool
is_done t = str_eq t.status "completed" || str_eq t.status "failed"

-- The test of `retain`; the comparison with the cutoff `now - TTL`, which may lie before 0, has the
-- TTL on the other side.
unfoldable pub is_kept : ℕ → TaskState → Bool
unfolding is_unfinished
is_kept now t = if is_unfinished t then true else ltb now (t.updated_at + task_ttl)

-- What can be removed, with its time.
unfoldable pub completed_tasks : Map String TaskState → List (String × ℕ)
unfolding is_done
completed_tasks [] = []
completed_tasks (e ∷ m) =
    let rest = completed_tasks m in if is_done e.1 then (e.0, e.1.updated_at) ∷ rest else rest

-- `sort_by_key`, which is stable.
unfoldable pub insert_by_time : String × ℕ → List (String × ℕ) → List (String × ℕ)
insert_by_time e [] = e ∷ []
insert_by_time e (x ∷ xs) = if leb e.1 x.1 then e ∷ x ∷ xs else x ∷ insert_by_time e xs

unfoldable pub sort_by_time : List (String × ℕ) → List (String × ℕ)
unfolding insert_by_time
sort_by_time [] = []
sort_by_time (e ∷ xs) = insert_by_time e (sort_by_time xs)

unfoldable pub remove_ids : List (String × ℕ) → Map String TaskState → Map String TaskState
remove_ids [] m = m
remove_ids (e ∷ ids) m = remove_ids ids (Map.remove String_discrete e.0 m)

-- The oldest of them, as many as there are tasks above the limit.
unfoldable pub evict : Map String TaskState → Map String TaskState
unfolding completed_tasks sort_by_time remove_ids
evict m =
    if ltb max_tasks (length m)
    then remove_ids (take (length m - max_tasks) (sort_by_time (completed_tasks m))) m
    else m

unfoldable pub task_cleanup : ℕ → Map String TaskState → Map String TaskState
unfolding evict is_kept keep_if
task_cleanup now tasks = evict (keep_if (λ e. is_kept now e.1) tasks)
