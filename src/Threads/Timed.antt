-- ===== src/Threads/Timed.antt =====
-- ThreadScheduler of src/core/thread_scheduler.cpp and include/mcx/thread_scheduler.hpp: one worker, the
-- threads that schedule, and the one that stops, as steps between states. The members and the
-- clock are a record, and a step is what a thread does without giving the others a turn. Times are
-- counted from a point that is earlier than any time point: a delay may be negative. What a task does to
-- the rest of the program is left out; an exception of it is logged and changes nothing else.
pub mod Times
pub mod Hangs
pub mod Exits
pub mod Agenda
use mcx.Prelude.{
  ℕ, ◌+◌, ◌≤◌, ◌<◌, ◌≡◌, Bool, true, false, not, ◌||◌, List, [], ◌∷◌, ◌++◌, if◌then◌else◌, All,
  is_empty, ltb, leb,
}
use mcx.Prelude.Int.{ℤ, pos, ◌+ℤ◌}

pub record TimedTask (Work : Type 0) : Type 0 where
  pub when : ℕ
  pub what : Work

-- operator>, by which the priority queue compares.
unfoldable pub greater : {Work : Type 0} → TimedTask Work → TimedTask Work → Bool
greater task other = ltb other.when task.when

-- Where the worker stands: at the test of its loop; before `unique_lock lock`; behind it; at the test
-- of `cv_.wait`; behind a test that failed, with the mutex still locked; blocked in `cv_.wait`; notified
-- there; blocked in `cv_.wait_until` up to a time; in a task; and behind the loop.
pub data Place (Work : Type 0) : Type 0 where
  testing locking checking asking failing blocked notified : Place Work
  sleeping : ℕ → Place Work
  working : TimedTask Work → Place Work
  exited : Place Work

-- Where the thread that calls Stop stands: before, behind `running_ = false`, behind
-- `cv_.notify_all()`, and behind the join.
pub data Stopper : Type 0 where
  before raised waiting joined : Stopper

-- `worker_` is declared, and so started, before `running_` is initialised; `built` tells that it
-- is. `scheduled` and `ran` record the tasks that were pushed, and those that were popped, with the
-- time that the worker had read.
pub record System (Work : Type 0) : Type 0 where
  pub now : ℕ
  pub tasks : List (TimedTask Work)
  pub running : Bool
  pub built : Bool
  pub place : Place Work
  pub stopper : Stopper
  pub scheduled : List (TimedTask Work)
  pub ran : List (ℕ × TimedTask Work)

module _ {Work : Type 0} where
  -- What `notify_one` and `notify_all` do to the worker: it leaves a wait, if it is in one.
  abbrev pub notify : Place Work → Place Work
  notify blocked = notified
  notify (sleeping until) = testing
  notify place = place

  abbrev pub is_locked : Place Work → Bool
  is_locked checking = true
  is_locked asking = true
  is_locked failing = true
  is_locked place = false

  -- The state in which the constructor starts the worker; the memory of `running_` holds anything.
  abbrev pub start : ℕ → Bool → System Work
  start now memory = record {
    now = now;
    tasks = [];
    running = memory;
    built = false;
    place = testing;
    stopper = before;
    scheduled = [];
    ran = [];
  }

  -- Behind the test that the queue is not empty, with the task `top` on its top, between the others:
  -- it is popped and run, or waited for.
  unfoldable pub look :
      List (TimedTask Work) → List (TimedTask Work) → TimedTask Work → System Work → System Work
  look xs ys top s =
      if leb top.when s.now
      then record s { place = working top; tasks = xs ++ ys; ran = (s.now, top) ∷ s.ran }
      else record s { place = sleeping top.when }

  -- The steps of WorkerThread. Of a std::priority_queue it is asked that `top` gives a task that is
  -- greater than none of the others.
  pub data WorkerStep : System Work → System Work → Type 0 where
    tests :
        (s : System Work)
        → s.place ≡ testing
        → WorkerStep s (record s { place = if s.running then locking else exited })
    locks : (s : System Work) → s.place ≡ locking → WorkerStep s (record s { place = checking })
    finds_none :
        (s : System Work)
        → s.place ≡ checking
        → s.tasks ≡ []
        → WorkerStep s (record s { place = asking })
    asks :
        (s : System Work)
        → s.place ≡ asking
        → WorkerStep s (record s {
          place = if not (is_empty s.tasks) || not s.running then testing else failing;
        })
    blocks : (s : System Work) → s.place ≡ failing → WorkerStep s (record s { place = blocked })
    locks_again :
        (s : System Work) → s.place ≡ notified → WorkerStep s (record s { place = asking })
    looks :
        (s : System Work) (xs ys : List (TimedTask Work)) (top : TimedTask Work)
        → s.place ≡ checking
        → s.tasks ≡ xs ++ (top ∷ ys)
        → All (λ task. greater top task ≡ false) (xs ++ ys)
        → WorkerStep s (look xs ys top s)
    times_out :
        (s : System Work) (until : ℕ)
        → s.place ≡ sleeping until
        → until ≤ s.now
        → WorkerStep s (record s { place = testing })
    finishes :
        (s : System Work) (task : TimedTask Work)
        → s.place ≡ working task
        → WorkerStep s (record s { place = testing })

  -- The steps of the program: the worker's, the clock's, the constructor's, Schedule's (the push and the
  -- notification under the mutex), and Stop's.
  pub data Step : System Work → System Work → Type 0 where
    worker : {s t : System Work} → WorkerStep s t → Step s t
    ticks : (s : System Work) → Step s (record s { now = s.now + 1 })
    constructs :
        (s : System Work) → s.built ≡ false → Step s (record s { running = true; built = true })
    schedules :
        (s : System Work) (delay : ℤ) (when : ℕ) (task : Work)
        → pos when ≡ pos s.now +ℤ delay
        → s.built ≡ true
        → is_locked s.place ≡ false
        → Step s (record s {
          tasks = record { when = when; what = task } ∷ s.tasks;
          scheduled = record { when = when; what = task } ∷ s.scheduled;
          place = notify s.place;
        })
    raises :
        (s : System Work)
        → s.built ≡ true
        → s.stopper ≡ before
        → Step s (record s { running = false; stopper = raised })
    notifies :
        (s : System Work)
        → s.stopper ≡ raised
        → Step s (record s { place = notify s.place; stopper = waiting })
    joins :
        (s : System Work)
        → s.stopper ≡ waiting
        → s.place ≡ exited
        → Step s (record s { stopper = joined })

  -- A wait that returns without a notification, as a condition variable may.
  pub data Wakes : System Work → System Work → Type 0 where
    wakes : (s : System Work) → Wakes s (record s { place = notify s.place })

  -- The states that follow; the flag tells whether waits may return without a notification.
  pub data Reach (spurious : Bool) (s : System Work) : System Work → Type 0 where
    here : Reach spurious s s
    next : {t u : System Work} → Reach spurious s t → Step t u → Reach spurious s u
    next_wakes :
        {t u : System Work} → spurious ≡ true → Reach spurious s t → Wakes t u → Reach spurious s u
