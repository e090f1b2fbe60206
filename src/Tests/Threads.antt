-- ===== src/Tests/Threads.antt =====
-- The workers and the scheduler thread at concrete inputs.
use mcx.Prelude.{
  ℕ, ◌<◌, ◌≡◌, ◌⊎◌, refl, Bool, true, false, some, List, [], ◌∷◌, arith, ltb, get_elem?,
}
use mcx.Threads.Async.{AsyncTask, TaskPriority, testing, stopped}
use mcx.Threads.Async.Pool.{System, Act, submits, stops, turn, run, IsConsistent, run-IsConsistent}
use mcx.Threads.Async.Progress.{run-stopped}
use mcx.Threads.Timed
use mcx.Prelude.Int.{pos, ◌+ℤ◌}
use mcx.Threads.Timed.Times.{IsTimely}
use mcx.Threads.Timed.Agenda.{History, view, Reach-History}
use mcx.Threads.Timed.Hangs.{stuck, stop_hangs}
use mcx.Threads.Timed.Exits.{gone, loses_worker}
use mcx.Tests.Samples.{alice}

abbrev task : ℕ → AsyncTask ℕ
task n = record { id = alice; work = some n; callback = some 0; priority = TaskPriority.normal }

abbrev two_workers : System ℕ
two_workers = record {
  shared = record { tasks = []; running = true; active_threads = 0 };
  workers = testing ∷ testing ∷ [];
  submitted = [];
  taken = [];
  done = [];
}

-- The task 1 throws.
abbrev throws : ℕ → Bool
throws n = ltb 0 n

abbrev plan : List (Act ℕ)
plan =
    submits (task 0)
    ∷ submits (task 1)
    ∷ turn 0
    ∷ turn 1
    ∷ turn 0
    ∷ turn 1
    ∷ turn 1
    ∷ turn 0
    ∷ turn 1
    ∷ []

two_workers-IsConsistent : IsConsistent two_workers
two_workers-IsConsistent = record {
  fifo = refl;
  conserved = (λ w. refl);
  gauge = refl;
  few = omega arith;
}

run-IsConsistent_example : IsConsistent (run throws plan two_workers)
run-IsConsistent_example = run-IsConsistent throws plan two_workers two_workers-IsConsistent

abbrev turns : List (Act ℕ)
turns =
    turn 1 ∷ turn 0 ∷ turn 1 ∷ submits (task 2) ∷ turn 1 ∷ turn 1 ∷ turn 0 ∷ turn 1 ∷ turn 1 ∷ []

run-stopped_example : get_elem? (run throws (stops ∷ turns) two_workers).workers 1 ≡ some stopped
run-stopped_example = run-stopped throws 1 turns two_workers refl (omega arith)

-- The constructor, a task that is scheduled for later, and one unit of time.
abbrev scheduled : Timed.System ℕ
scheduled = record {
  now = 8;
  tasks = record { when = 10; what = 5 } ∷ [];
  running = true;
  built = true;
  place = Timed.testing;
  stopper = Timed.before;
  scheduled = record { when = 10; what = 5 } ∷ [];
  ran = [];
}

scheduled-Reach : Timed.Reach false (Timed.start 7 false) scheduled
unfolding ◌+ℤ◌
scheduled-Reach =
    let s0 : Timed.System ℕ = Timed.start 7 false in
    let s1 : Timed.System ℕ = record s0 { running = true; built = true } in
    let task5 : Timed.TimedTask ℕ = record { when = 10; what = 5 } in
    let s2 : Timed.System ℕ = record s1 { tasks = task5 ∷ []; scheduled = task5 ∷ [] } in
    Timed.next
      (Timed.next (Timed.next Timed.here (Timed.constructs s0 refl))
        (Timed.schedules s1 (pos 3) 10 5 refl refl refl))
      (Timed.ticks s2)

Reach-History_example :
    History (record { now = 7; waiting = []; started = [] }) (view scheduled) × IsTimely scheduled
Reach-History_example = Reach-History scheduled-Reach

stuck_later : Timed.Reach {Work = ℕ} false (stuck 7) (record (stuck 7) { now = 8 })
stuck_later = Timed.next Timed.here (Timed.ticks (stuck 7))

stop_hangs_example :
    Timed.Reach {Work = ℕ} false (Timed.start 7 true) (stuck 7)
    × ((Timed.waiting ≡ Timed.waiting) ⊎ (0 < 0))
stop_hangs_example = stop_hangs 7 true stuck_later

abbrev gone_at : ℕ → Timed.System ℕ
gone_at now = record (gone 7) { now = now }

gone_later : Timed.Reach true (gone 7) (gone_at 8)
gone_later = Timed.next Timed.here (Timed.ticks (gone 7))

loses_worker_example :
    Timed.Reach {Work = ℕ} true (Timed.start 7 false) (gone 7)
    × ((gone_at 8).place ≡ Timed.exited)
    × ((gone_at 8).ran ≡ [])
loses_worker_example = loses_worker 7 gone_later
