-- ===== src/Threads/Timed/Times.antt =====
-- When tasks run: src/core/thread_scheduler.cpp.
use mcx.Prelude.{
  ℕ, ◌+◌, ◌≤◌, ◌≡◌, refl, ap, Bool, ◌∷◌, arith, All, weigh, weigh-append, if_split, leb,
}
use mcx.Threads.Timed.{
  TimedTask, Place, System, start, WorkerStep, tests, locks, finds_none, asks, blocks, locks_again,
  looks, look, times_out, finishes, Step, worker, ticks, constructs, schedules, raises, notifies,
  joins, wakes, Reach, here, next, next_wakes,
}

module _ {Work : Type 0} where
  abbrev pub weight : (TimedTask Work → ℕ) → ℕ × TimedTask Work → ℕ
  weight w (at, task) = w task

  -- No task was popped before its time, and each task that was scheduled waits or was popped, as
  -- often as it was scheduled (for every weight of tasks).
  pub record IsTimely (s : System Work) : Type 0 where
    pub timely : All (λ e. e.1.when ≤ e.0) s.ran
    pub conserved :
        (w : TimedTask Work → ℕ) → weigh w s.scheduled ≡ weigh w s.tasks + weigh (weight w) s.ran

  at_place :
      (s : System Work) (place : Place Work) → IsTimely s → IsTimely (record s { place = place })
  at_place s place h = record { timely = h.timely; conserved = h.conserved }

  WorkerStep-IsTimely : {s t : System Work} → WorkerStep s t → IsTimely s → IsTimely t
  unfolding look
  WorkerStep-IsTimely (tests s e) h = at_place s _ h
  WorkerStep-IsTimely (locks s e) h = at_place s _ h
  WorkerStep-IsTimely (finds_none s e n) h = at_place s _ h
  WorkerStep-IsTimely (asks s e) h = at_place s _ h
  WorkerStep-IsTimely (blocks s e) h = at_place s _ h
  WorkerStep-IsTimely (locks_again s e) h = at_place s _ h
  WorkerStep-IsTimely (looks s xs ys top e split least) h =
      if_split IsTimely (leb top.when s.now)
        (λ due. record {
          timely = (ground (arith, due), h.timely);
          conserved = λ w. omega (
            arith,
            h.conserved w,
            weigh-append w xs (top ∷ ys),
            weigh-append w xs ys,
            ap (weigh w) split,
          );
        })
        (λ early. at_place s _ h)
  WorkerStep-IsTimely (times_out s until e late) h = at_place s _ h
  WorkerStep-IsTimely (finishes s task e) h = at_place s _ h

  Step-IsTimely : {s t : System Work} → Step s t → IsTimely s → IsTimely t
  Step-IsTimely (worker step) h = WorkerStep-IsTimely step h
  Step-IsTimely (ticks s) h = record { timely = h.timely; conserved = h.conserved }
  Step-IsTimely (constructs s b) h = record { timely = h.timely; conserved = h.conserved }
  Step-IsTimely (schedules s delay when task moment b u) h = record {
    timely = h.timely;
    conserved = λ w. omega (arith, h.conserved w);
  }
  Step-IsTimely (raises s b e) h = record { timely = h.timely; conserved = h.conserved }
  Step-IsTimely (notifies s e) h = record { timely = h.timely; conserved = h.conserved }
  Step-IsTimely (joins s e x) h = record { timely = h.timely; conserved = h.conserved }

  -- In every state that the scheduler reaches, whatever the order of the steps and also where waits return
  -- without a notification: each task that was taken off the queue was due at the time that the
  -- worker had read, and the tasks that were scheduled are those that wait and those that were taken, as
  -- often as they were scheduled.
  pub Reach-IsTimely :
      {spurious memory : Bool} {now : ℕ} {s : System Work}
      → Reach spurious (start now memory) s
      → IsTimely s
  Reach-IsTimely here = record { timely = tt; conserved = λ w. refl }
  Reach-IsTimely (next r step) = Step-IsTimely step (Reach-IsTimely r)
  Reach-IsTimely (next_wakes e r (wakes s)) = at_place s _ (Reach-IsTimely r)
