-- ===== src/Threads/Async.antt =====
-- AsyncWorker of src/core/async_worker.cpp: the queue, the flag, the gauge of active threads, and the
-- code of one worker. Whether a function throws is a parameter; what it does to the rest of the
-- program is left out, and so are the log lines.
pub mod Pool
pub mod Progress
pub mod Starting
use mcx.Prelude.{
  ℕ, zero, suc, ◌+◌, ◌-◌, ◌%◌, ◌^◌, Bool, false, Option, none, some, List, [], ◌∷◌, ◌++◌, ltb,
  if◌then◌else◌, length,
}
use mcx.Prelude.Text.{Text}

pub data TaskPriority : Type 0 where
  low normal high : TaskPriority

-- A `std::function` that is empty is `none`.
pub record AsyncTask (Work : Type 0) : Type 0 where
  pub id : Text
  pub work : Option Work
  pub callback : Option Work
  pub priority : TaskPriority

-- The members that the threads share. The queue's front is the head of the list.
pub record AsyncWorker (Work : Type 0) : Type 0 where
  pub tasks : List (AsyncTask Work)
  pub running : Bool
  pub active_threads : ℕ

-- Where a worker stands in WorkerLoop: at the test of the loop, before GetNextTask, with a task
-- before `activeThreads_++`, before `task.work()`, before `task.callback()`, before
-- `activeThreads_--`, and behind the loop.
pub data Place (Work : Type 0) : Type 0 where
  testing fetching : Place Work
  holding working calling leaving : AsyncTask Work → Place Work
  stopped : Place Work

-- What a turn did to a task.
pub data Deed (Work : Type 0) : Type 0 where
  nothing : Deed Work
  took skipped ended : AsyncTask Work → Deed Work

module _ {Work : Type 0} where
  unfoldable pub submit : AsyncTask Work → AsyncWorker Work → AsyncWorker Work
  submit task w = record w { tasks = w.tasks ++ (task ∷ []) }

  unfoldable pub submit_simple : Work → AsyncWorker Work → AsyncWorker Work
  unfolding submit
  submit_simple work w =
      submit (record { id = []; work = some work; callback = none; priority = TaskPriority.normal })
        w

  unfoldable pub get_pending_count : AsyncWorker Work → ℕ
  get_pending_count w = length w.tasks

  -- The first part of Stop; the second waits until every worker is behind its loop.
  unfoldable pub request_stop : AsyncWorker Work → AsyncWorker Work
  request_stop w = record w { running = false }

  -- `none` is the empty task.
  unfoldable pub get_next_task : AsyncWorker Work → Option (AsyncTask Work) × AsyncWorker Work
  get_next_task w = elim w.tasks [
    | [] ↦ (none, w)
    | task ∷ rest ↦ (some task, record w { tasks = rest })
  ]

  -- `if (!task.work) { ...; continue; }`
  unfoldable pub accept : AsyncTask Work → Place Work × Deed Work
  accept task = elim task.work [
    | none ↦ (testing, skipped task)
    | some work ↦ (holding task, took task)
  ]

  unfoldable pub fetch : AsyncWorker Work → Place Work × AsyncWorker Work × Deed Work
  unfolding get_next_task accept
  fetch w = elim (get_next_task w).0 [
    | none ↦ (testing, w, nothing)
    | some task ↦ ((accept task).0, (get_next_task w).1, (accept task).1)
  ]

  module _ (throws : Work → Bool) where
    -- What follows `task.work()`: an exception skips the callback.
    unfoldable pub after_work : AsyncTask Work → Place Work
    after_work task = elim task.work [
      | none ↦ leaving task
      | some work ↦
          if throws work
          then leaving task
          else elim task.callback [ none ↦ leaving task | some callback ↦ calling task ]
    ]

    -- One turn of WorkerLoop.
    unfoldable pub worker_turn :
        Place Work → AsyncWorker Work → Place Work × AsyncWorker Work × Deed Work
    unfolding fetch after_work
    worker_turn testing w = (if w.running then fetching else stopped, w, nothing)
    worker_turn fetching w = fetch w
    worker_turn (holding task) w =
        (working task, record w { active_threads = (w.active_threads + 1) % 2 ^ 64 }, nothing)
    worker_turn (working task) w = (after_work task, w, nothing)
    worker_turn (calling task) w = (leaving task, w, nothing)
    worker_turn (leaving task) w = (
      testing,
      record w { active_threads = (w.active_threads + 2 ^ 64 - 1) % 2 ^ 64 },
      ended task,
    )
    worker_turn stopped w = (stopped, w, nothing)

-- The loop of Start: `workers_.emplace_back` while `i < workers_.capacity()`. How a full vector
-- grows is a parameter; `none` tells that the fuel ran out.
unfoldable pub start_loop : (ℕ → ℕ) → ℕ → ℕ → ℕ → ℕ → Option ℕ
start_loop grow zero i size capacity = none
start_loop grow (suc fuel) i size capacity =
    let grown = if ltb size capacity then capacity else grow capacity in
    let next = start_loop grow fuel (i + 1) (size + 1) grown in
    if ltb i capacity then next else some size

-- Start of a worker whose vector has `size` threads.
unfoldable pub start : (ℕ → ℕ) → ℕ → ℕ → ℕ → Option ℕ
unfolding start_loop
start grow fuel size capacity = start_loop grow fuel 0 size capacity
