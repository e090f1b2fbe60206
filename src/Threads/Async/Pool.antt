-- ===== src/Threads/Async/Pool.antt =====
-- A pool of workers under any schedule: src/core/async_worker.cpp.
use mcx.Prelude.{
  ℕ, zero, suc, ◌+◌, ◌^◌, ◌≤◌, ◌<◌, ◌≡◌, refl, sym, ap, ◌∙◌, inl, inr, Bool, none, some, List, [],
  ◌∷◌, ◌++◌, arith, Option-cases, length, get_elem?, set, weigh, weigh-append, weigh-set,
  length-set,
}
use mathlib.Core.List.{append_assoc}
use mcx.Threads.Async.{
  AsyncTask, AsyncWorker, Place, testing, fetching, holding, working, calling, leaving, stopped,
  Deed, nothing, took, skipped, ended, submit, request_stop, get_next_task, accept, fetch,
  after_work, worker_turn,
}

-- The shared members, the workers, and what has happened: the tasks that were submitted, that a
-- worker took off the queue, and that a worker is done with.
pub record System (Work : Type 0) : Type 0 where
  pub shared : AsyncWorker Work
  pub workers : List (Place Work)
  pub submitted : List (AsyncTask Work)
  pub taken : List (AsyncTask Work)
  pub done : List (AsyncTask Work)

-- Any thread submits a task or asks for the end, or the worker of that number makes a turn.
pub data Act (Work : Type 0) : Type 0 where
  submits : AsyncTask Work → Act Work
  stops : Act Work
  turn : ℕ → Act Work

module _ {Work : Type 0} where
  abbrev pub takes : Deed Work → List (AsyncTask Work)
  takes nothing = []
  takes (took task) = task ∷ []
  takes (skipped task) = task ∷ []
  takes (ended task) = []

  abbrev pub ends : Deed Work → List (AsyncTask Work)
  ends nothing = []
  ends (took task) = []
  ends (skipped task) = task ∷ []
  ends (ended task) = task ∷ []

  module _ (throws : Work → Bool) where
    unfoldable pub move : ℕ → Place Work → System Work → System Work
    move i place s =
        let (place', shared', deed) = worker_turn throws place s.shared in
        record s {
          shared = shared';
          workers = set s.workers i place';
          taken = s.taken ++ takes deed;
          done = s.done ++ ends deed;
        }

    unfoldable pub act : Act Work → System Work → System Work
    unfolding move
    act (submits task) s = record s {
      shared = submit task s.shared;
      submitted = s.submitted ++ (task ∷ []);
    }
    act stops s = record s { shared = request_stop s.shared }
    act (turn i) s = elim (get_elem? s.workers i) [ none ↦ s | some place ↦ move i place s ]

    unfoldable pub run : List (Act Work) → System Work → System Work
    unfolding act
    run [] s = s
    run (a ∷ acts) s = run acts (act a s)

  -- The weight of the task that a worker has in hand.
  abbrev pub held : (AsyncTask Work → ℕ) → Place Work → ℕ
  held w (holding task) = w task
  held w (working task) = w task
  held w (calling task) = w task
  held w (leaving task) = w task
  held w place = 0

  -- A worker between the two changes of the gauge.
  abbrev pub is_active : Place Work → ℕ
  is_active (working task) = 1
  is_active (calling task) = 1
  is_active (leaving task) = 1
  is_active place = 0

  -- Tasks leave the queue in the order in which they came; each task that was taken is done or in the
  -- hands of a worker, and as often as it was taken (for every weight of tasks); and the gauge counts
  -- the workers that are busy.
  pub record IsConsistent (s : System Work) : Type 0 where
    pub fifo : s.submitted ≡ s.taken ++ s.shared.tasks
    pub conserved :
        (w : AsyncTask Work → ℕ) → weigh w s.taken ≡ weigh w s.done + weigh (held w) s.workers
    pub gauge : s.shared.active_threads ≡ weigh is_active s.workers
    pub few : length s.workers + 1 < 2 ^ 64

  weigh-is_active-le : (places : List (Place Work)) → weigh is_active places ≤ length places
  weigh-is_active-le [] = omega arith
  weigh-is_active-le (place ∷ places) = omega (arith, is_active-le place, weigh-is_active-le places)
    where
      is_active-le : (p : Place Work) → is_active p ≤ 1
      is_active-le p = ground arith

  module _ (throws : Work → Bool) where
    -- What one turn does to the queue, to the tasks in hand and to the gauge.
    turn_fifo :
        (place : Place Work) (shared : AsyncWorker Work)
        → shared.tasks
          ≡ takes (worker_turn throws place shared).2 ++ (worker_turn throws place shared).1.tasks
    unfolding worker_turn fetch accept get_next_task after_work
    turn_fifo testing shared = refl
    turn_fifo fetching shared = ground arith
    turn_fifo (holding task) shared = refl
    turn_fifo (working task) shared = refl
    turn_fifo (calling task) shared = refl
    turn_fifo (leaving task) shared = refl
    turn_fifo stopped shared = refl

    turn_conserved :
        (w : AsyncTask Work → ℕ) (place : Place Work) (shared : AsyncWorker Work)
        → weigh w (takes (worker_turn throws place shared).2) + held w place
          ≡ weigh w (ends (worker_turn throws place shared).2)
            + held w (worker_turn throws place shared).0
    unfolding worker_turn fetch accept get_next_task after_work
    turn_conserved w testing shared = ground arith
    turn_conserved w fetching shared = ground arith
    turn_conserved w (holding task) shared = omega arith
    turn_conserved w (working task) shared = ground arith
    turn_conserved w (calling task) shared = omega arith
    turn_conserved w (leaving task) shared = omega arith
    turn_conserved w stopped shared = omega arith

    turn_gauge :
        (place : Place Work) (shared : AsyncWorker Work)
        → is_active place ≤ shared.active_threads
        → shared.active_threads + 1 < 2 ^ 64
        → (worker_turn throws place shared).1.active_threads + is_active place
          ≡ shared.active_threads + is_active (worker_turn throws place shared).0
    unfolding worker_turn fetch accept get_next_task after_work
    turn_gauge testing shared low high = ground arith
    turn_gauge fetching shared low high = ground arith
    turn_gauge (holding task) shared low high = omega arith
    turn_gauge (working task) shared low high = ground arith
    turn_gauge (calling task) shared low high = omega arith
    turn_gauge (leaving task) shared low high = omega arith
    turn_gauge stopped shared low high = omega arith

    is_active_held :
        (i : ℕ) (places : List (Place Work)) {place : Place Work}
        → get_elem? places i ≡ some place
        → is_active place ≤ weigh is_active places
    is_active_held i [] e = cc
    is_active_held zero (p ∷ places) e = ground (arith, e)
    is_active_held (suc i) (p ∷ places) e = omega (arith, is_active_held i places e)

    move-IsConsistent :
        (i : ℕ) (place : Place Work) (s : System Work)
        → get_elem? s.workers i ≡ some place
        → IsConsistent s
        → IsConsistent (move throws i place s)
    unfolding move
    move-IsConsistent i place s e c =
        let place' = (worker_turn throws place s.shared).0 in
        let deed = (worker_turn throws place s.shared).2 in
        let low : is_active place ≤ s.shared.active_threads =
          omega (arith, c.gauge, is_active_held i s.workers e) in
        let high : s.shared.active_threads + 1 < 2 ^ 64 =
          omega (arith, c.gauge, c.few, weigh-is_active-le s.workers) in
        record {
          fifo =
              c.fifo
              ∙ ap (◌++◌ s.taken) (turn_fifo place s.shared)
              ∙ sym (append_assoc s.taken (takes deed) _);
          conserved = λ w. omega (
            arith,
            c.conserved w,
            weigh-append w s.taken (takes deed),
            weigh-append w s.done (ends deed),
            weigh-set (held w) s.workers i place' e,
            turn_conserved w place s.shared,
          );
          gauge = omega (
            arith,
            c.gauge,
            weigh-set is_active s.workers i place' e,
            turn_gauge place s.shared low high,
          );
          few = omega (arith, c.few, length-set s.workers i place');
        }

    act-IsConsistent :
        (a : Act Work) (s : System Work) → IsConsistent s → IsConsistent (act throws a s)
    unfolding act submit request_stop
    act-IsConsistent (submits task) s c = record {
      fifo = ap (λ l. l ++ (task ∷ [])) c.fifo ∙ append_assoc s.taken s.shared.tasks (task ∷ []);
      conserved = c.conserved;
      gauge = c.gauge;
      few = c.few;
    }
    act-IsConsistent stops s c = record {
      fifo = c.fifo;
      conserved = c.conserved;
      gauge = c.gauge;
      few = c.few;
    }
    act-IsConsistent (turn i) s c = elim (Option-cases (get_elem? s.workers i)) [
      | inl e ↦ rw (act, e) c
      | inr (place, e) ↦ rw (act, e) (move-IsConsistent i place s e c)
    ]

    -- A pool stays consistent under any schedule, whatever throws: tasks leave the queue in the
    -- order in which they were submitted, each task that left it is done or in the hands of a
    -- worker, as often as it left it, and `activeThreads_` is the number of the workers that have a
    -- task in hand behind its increment. The workers are fewer than 2^64 - 1.
    pub run-IsConsistent :
        (acts : List (Act Work)) (s : System Work)
        → IsConsistent s
        → IsConsistent (run throws acts s)
    unfolding run
    run-IsConsistent [] s c = c
    run-IsConsistent (a ∷ acts) s c =
        run-IsConsistent acts (act throws a s) (act-IsConsistent a s c)
