-- ===== src/Threads/Timed/Hangs.antt =====
-- How the worker of src/core/thread_scheduler.cpp ends, and how it does not.
use mcx.Prelude.{
  ℕ, ◌≤◌, ◌<◌, ◌≡◌, ◌⊎◌, inl, inr, refl, Bool, true, false, [], arith, length, if_either, leb,
}
use mcx.Threads.Timed.{
  locking, checking, asking, failing, blocked, raised, waiting, System, start, WorkerStep, tests,
  locks, finds_none, asks, blocks, locks_again, looks, look, times_out, finishes, Step, worker,
  ticks, constructs, schedules, raises, notifies, joins, wakes, Reach, here, next, next_wakes,
}

module _ {Work : Type 0} where
  -- The worker waits for a notification, and the one of Stop is past.
  pub record IsHung (s : System Work) : Type 0 where
    pub empty : s.tasks ≡ []
    pub down : s.running ≡ false
    pub up : s.built ≡ true
    pub place : s.place ≡ blocked
    pub stopper : s.stopper ≡ waiting

  -- Between the test of `cv_.wait` and the block, Stop has lowered the flag and notified.
  abbrev pub stuck : ℕ → System Work
  stuck now = record {
    now = now;
    tasks = [];
    running = false;
    built = true;
    place = blocked;
    stopper = waiting;
    scheduled = [];
    ran = [];
  }

  Reach-stuck : (now : ℕ) (memory : Bool) → Reach false (start now memory) (stuck now)
  Reach-stuck now memory =
      let s0 = start now memory in
      let s1 = record s0 { running = true; built = true } in
      let s5 = record s1 { place = failing } in
      let s7 = record s5 { running = false; stopper = waiting } in
      let r1 = next here (constructs s0 refl) in
      let r2 = next r1 (worker (tests s1 refl)) in
      let r3 = next r2 (worker (locks (record s1 { place = locking }) refl)) in
      let r4 = next r3 (worker (finds_none (record s1 { place = checking }) refl refl)) in
      let r5 = next r4 (worker (asks (record s1 { place = asking }) refl)) in
      let r6 = next r5 (raises s5 refl refl) in
      let r7 = next r6 (notifies (record s5 { running = false; stopper = raised }) refl) in
      next r7 (worker (blocks s7 refl))

  IsHung-idle : {s t : System Work} → WorkerStep s t → s.place ≡ blocked → ⊥
  IsHung-idle (tests s e) h = cc
  IsHung-idle (locks s e) h = cc
  IsHung-idle (finds_none s e n) h = cc
  IsHung-idle (asks s e) h = cc
  IsHung-idle (blocks s e) h = cc
  IsHung-idle (locks_again s e) h = cc
  IsHung-idle (looks s xs ys top e split least) h = cc
  IsHung-idle (times_out s until e late) h = cc
  IsHung-idle (finishes s task e) h = cc

  Step-scheduled-le : {s t : System Work} → Step s t → length s.scheduled ≤ length t.scheduled
  unfolding look
  Step-scheduled-le (worker step) = WorkerStep-scheduled-le step
    where
      WorkerStep-scheduled-le :
          {s t : System Work} → WorkerStep s t → length s.scheduled ≤ length t.scheduled
      WorkerStep-scheduled-le (tests s e) = omega arith
      WorkerStep-scheduled-le (locks s e) = omega arith
      WorkerStep-scheduled-le (finds_none s e n) = omega arith
      WorkerStep-scheduled-le (asks s e) = omega arith
      WorkerStep-scheduled-le (blocks s e) = omega arith
      WorkerStep-scheduled-le (locks_again s e) = omega arith
      WorkerStep-scheduled-le (looks s xs ys top e split least) =
          if_either (λ (t : System Work). length s.scheduled ≤ length t.scheduled)
            (leb top.when s.now) (omega arith) (omega arith)
      WorkerStep-scheduled-le (times_out s until e late) = omega arith
      WorkerStep-scheduled-le (finishes s task e) = omega arith
  Step-scheduled-le (ticks s) = omega arith
  Step-scheduled-le (constructs s b) = omega arith
  Step-scheduled-le (schedules s delay when task moment b u) = omega arith
  Step-scheduled-le (raises s b e) = omega arith
  Step-scheduled-le (notifies s e) = omega arith
  Step-scheduled-le (joins s e x) = omega arith

  Reach-scheduled-le :
      {b : Bool} {s t : System Work} → Reach b s t → length s.scheduled ≤ length t.scheduled
  Reach-scheduled-le here = omega arith
  Reach-scheduled-le (next r step) = omega (arith, Reach-scheduled-le r, Step-scheduled-le step)
  Reach-scheduled-le (next_wakes e r (wakes s)) = Reach-scheduled-le r

  Step-IsHung :
      {s t : System Work}
      → Step s t
      → IsHung s
      → IsHung t ⊎ (length s.scheduled < length t.scheduled)
  Step-IsHung (worker step) h = absurd (IsHung-idle step h.place)
  Step-IsHung (ticks s) h =
      inl
        (record { empty = h.empty; down = h.down; up = h.up; place = h.place; stopper = h.stopper })
  Step-IsHung (constructs s b) h = absurd cc
  Step-IsHung (schedules s delay when task moment b u) h = inr (omega arith)
  Step-IsHung (raises s b e) h = absurd cc
  Step-IsHung (notifies s e) h = absurd cc
  Step-IsHung (joins s e x) h = absurd cc

  Reach-IsHung :
      {s t : System Work}
      → Reach false s t
      → IsHung s
      → IsHung t ⊎ (length s.scheduled < length t.scheduled)
  Reach-IsHung here h = inl h
  Reach-IsHung (next r step) h = elim (Reach-IsHung r h) [
    | inl k ↦ elim (Step-IsHung step k) [
      | inl kept ↦ inl kept
      | inr more ↦ inr (omega (arith, Reach-scheduled-le r))
    ]
    | inr more ↦ inr (omega (arith, Step-scheduled-le step))
  ]
  Reach-IsHung (next_wakes e r w) h = absurd cc

  -- Stop can hang: from the start the state is reached in which the flag is down, the
  -- notification is past and the worker blocks, and in each state that follows the join still
  -- waits, unless a task was scheduled after all, or a wait returned without a notification.
  pub stop_hangs :
      (now : ℕ) (memory : Bool) {t : System Work}
      → Reach false (stuck now) t
      → Reach false (start now memory) (stuck now)
        × ((t.stopper ≡ waiting) ⊎ (0 < length t.scheduled))
  stop_hangs now memory r =
      let h : IsHung (stuck now) = record {
        empty = refl;
        down = refl;
        up = refl;
        place = refl;
        stopper = refl;
      } in
      (
        Reach-stuck now memory,
        elim (Reach-IsHung r h) [ inl k ↦ inl k.stopper | inr more ↦ inr more ],
      )
