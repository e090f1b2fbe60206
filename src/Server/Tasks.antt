-- ===== src/Server/Tasks.antt =====
-- src/core/scheduler.cpp. A task is any value; what running it does to the world, and whether it
-- throws, is the function `what`. A task does not call the scheduler that runs it: the source's loop
-- would not allow it.
pub mod Order
use mcx.Prelude.{
  ℕ, ◌+◌, Bool, true, false, List, [], ◌∷◌, ◌++◌, leb, if◌then◌else◌, Eq, nat_eq, text_key,
}

pub record ScheduledTask (Task : Type 0) : Type 0 where
  pub when : ℕ
  pub what : Task

abbrev pub Scheduler : Type 0 → Type 0
Scheduler Task = List (ScheduledTask Task)

module _ {Task : Type 0} where
  unfoldable pub schedule : ℕ → ℕ → Task → Scheduler Task → Scheduler Task
  schedule now delay task tasks = tasks ++ (record { when = now + delay; what = task } ∷ [])

  unfoldable pub clear : Scheduler Task → Scheduler Task
  clear tasks = []

module _ {Task World : Type 0} (run : Task → World → World × Bool) where
  -- The loop of Update over the tasks that are left; `true` tells that a task threw. A task is erased
  -- only after it returns, so one that throws stays, with all that follow it.
  unfoldable pub update : ℕ → Scheduler Task → World → Scheduler Task × World × Bool
  update now [] w = ([], w, false)
  update now (t ∷ tasks) w =
      let (w', threw) = run t.what w in
      let after = update now tasks w' in
      let skipped = update now tasks w in
      if leb t.when now
      then (if threw then (t ∷ tasks, w', true) else after)
      else (t ∷ skipped.0, skipped.1, skipped.2)
