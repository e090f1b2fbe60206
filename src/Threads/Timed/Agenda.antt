-- ===== src/Threads/Timed/Agenda.antt =====
-- What ThreadScheduler of src/core/thread_scheduler.cpp promises, without its threads: an agenda.
use mcx.Prelude.{ℕ, ◌+◌, ◌≤◌, ◌≡◌, arith, Bool, List, [], ◌∷◌, ◌++◌, All, false, if_split, leb}
use mcx.Threads.Timed.{
  TimedTask, System, start, WorkerStep, tests, locks, finds_none, asks, blocks, locks_again, looks,
  look, greater, times_out, finishes, Step, worker, ticks, constructs, schedules, raises, notifies,
  joins, wakes, Reach, here, next, next_wakes,
}
use mcx.Threads.Timed.Times.{IsTimely, Reach-IsTimely}

-- The tasks that wait, and those that were started, with the times of their starts.
pub record Agenda (Work : Type 0) : Type 0 where
  pub now : ℕ
  pub waiting : List (TimedTask Work)
  pub started : List (ℕ × TimedTask Work)

module _ {Work : Type 0} where
  -- Time passes; a task is put on the agenda; one of the earliest tasks is started, once its time has
  -- come; or nothing that can be seen happens.
  pub data Happens : Agenda Work → Agenda Work → Type 0 where
    passes : (a : Agenda Work) → Happens a (record a { now = a.now + 1 })
    adds :
        (a : Agenda Work) (task : TimedTask Work)
        → Happens a (record a { waiting = task ∷ a.waiting })
    begins :
        (a : Agenda Work) (xs ys : List (TimedTask Work)) (task : TimedTask Work)
        → a.waiting ≡ xs ++ (task ∷ ys)
        → All (λ other. task.when ≤ other.when) (xs ++ ys)
        → task.when ≤ a.now
        → Happens a (record a { waiting = xs ++ ys; started = (a.now, task) ∷ a.started })
    silent : (a : Agenda Work) → Happens a a

  pub data History (a : Agenda Work) : Agenda Work → Type 0 where
    begin : History a a
    continue : {b c : Agenda Work} → History a b → Happens b c → History a c

  -- What is seen of a state.
  abbrev pub view : System Work → Agenda Work
  view s = record { now = s.now; waiting = s.tasks; started = s.ran }

  -- What is greater than none of the others has the least time.
  earliest :
      (top : TimedTask Work) (tasks : List (TimedTask Work))
      → All (λ task. greater top task ≡ false) tasks
      → All (λ task. top.when ≤ task.when) tasks
  unfolding greater
  earliest top [] h = tt
  earliest top (task ∷ tasks) h = (ground (arith, h.0), earliest top tasks h.1)

  WorkerStep-Happens : {s t : System Work} → WorkerStep s t → Happens (view s) (view t)
  unfolding look
  WorkerStep-Happens (tests s e) = silent (view s)
  WorkerStep-Happens (locks s e) = silent (view s)
  WorkerStep-Happens (finds_none s e n) = silent (view s)
  WorkerStep-Happens (asks s e) = silent (view s)
  WorkerStep-Happens (blocks s e) = silent (view s)
  WorkerStep-Happens (locks_again s e) = silent (view s)
  WorkerStep-Happens (looks s xs ys top e split least) =
      if_split (λ t. Happens (view s) (view t)) (leb top.when s.now)
        (λ due.
          begins (view s) xs ys top split (earliest top (xs ++ ys) least) (ground (arith, due)))
        (λ early. silent (view s))
  WorkerStep-Happens (times_out s until e late) = silent (view s)
  WorkerStep-Happens (finishes s task e) = silent (view s)

  Step-Happens : {s t : System Work} → Step s t → Happens (view s) (view t)
  Step-Happens (worker step) = WorkerStep-Happens step
  Step-Happens (ticks s) = passes (view s)
  Step-Happens (constructs s b) = silent (view s)
  Step-Happens (schedules s delay when task moment b u) =
      adds (view s) (record { when = when; what = task })
  Step-Happens (raises s b e) = silent (view s)
  Step-Happens (notifies s e) = silent (view s)
  Step-Happens (joins s e x) = silent (view s)

  Reach-view :
      {spurious memory : Bool} {now : ℕ} {s : System Work}
      → Reach spurious (start now memory) s
      → History (record { now = now; waiting = []; started = [] }) (view s)
  Reach-view here = begin
  Reach-view (next r step) = continue (Reach-view r) (Step-Happens step)
  Reach-view (next_wakes e r (wakes s)) = Reach-view r

  -- The scheduler implements the agenda: whatever its threads do, in whatever order, and with delays of
  -- either sign, what is seen of it is a history of the agenda, in which each task that is started is
  -- one of the earliest that wait. No task was started before its time, and each one that was
  -- scheduled waits or was started, as often as it was scheduled.
  pub Reach-History :
      {spurious memory : Bool} {now : ℕ} {s : System Work}
      → Reach spurious (start now memory) s
      → History (record { now = now; waiting = []; started = [] }) (view s) × IsTimely s
  Reach-History r = (Reach-view r, Reach-IsTimely r)
