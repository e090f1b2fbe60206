-- ===== src/Threads/Timed/Exits.antt =====
-- When the worker of src/core/thread_scheduler.cpp leaves its loop.
use mcx.Prelude.{
  ◌≡◌, ◌≢◌, ◌⊎◌, inl, inr, refl, ap, Bool, true, false, not, ℕ, [], if◌then◌else◌, ◌||◌, is_empty,
  arith, if_either, leb,
}
use mcx.Threads.Timed.{
  Place, testing, locking, failing, exited, before, waiting, joined, System, start, notify,
  WorkerStep, tests, locks, finds_none, asks, blocks, locks_again, looks, look, times_out, finishes,
  Step, worker, ticks, constructs, schedules, raises, notifies, joins, wakes, Reach, here, next,
  next_wakes,
}

module _ {Work : Type 0} where
  -- The worker has left its loop before `running_` was initialised.
  abbrev pub gone : ℕ → System Work
  gone now = record {
    now = now;
    tasks = [];
    running = true;
    built = true;
    place = exited;
    stopper = before;
    scheduled = [];
    ran = [];
  }

  Reach-gone : {b : Bool} (now : ℕ) → Reach b (start now false) (gone now)
  Reach-gone now =
      next (next here (worker (tests (start now false) refl)))
        (constructs (record (start now false) { place = exited }) refl)

  abbrev IsGone : System Work → Type 0
  IsGone s = (s.place ≡ exited) × (s.ran ≡ [])

  WorkerStep-idle : {s t : System Work} → WorkerStep s t → s.place ≡ exited → ⊥
  WorkerStep-idle (tests s e) h = cc
  WorkerStep-idle (locks s e) h = cc
  WorkerStep-idle (finds_none s e n) h = cc
  WorkerStep-idle (asks s e) h = cc
  WorkerStep-idle (blocks s e) h = cc
  WorkerStep-idle (locks_again s e) h = cc
  WorkerStep-idle (looks s xs ys top e split least) h = cc
  WorkerStep-idle (times_out s until e late) h = cc
  WorkerStep-idle (finishes s task e) h = cc

  Step-IsGone : {s t : System Work} → Step s t → IsGone s → IsGone t
  Step-IsGone (worker step) h = absurd (WorkerStep-idle step h.0)
  Step-IsGone (ticks s) h = h
  Step-IsGone (constructs s b) h = h
  Step-IsGone (schedules s delay when task moment b u) h = (ap notify h.0, h.1)
  Step-IsGone (raises s b e) h = h
  Step-IsGone (notifies s e) h = (ap notify h.0, h.1)
  Step-IsGone (joins s e x) h = h

  Reach-IsGone : {b : Bool} {s t : System Work} → Reach b s t → IsGone s → IsGone t
  Reach-IsGone here h = h
  Reach-IsGone (next r step) h = Step-IsGone step (Reach-IsGone r h)
  Reach-IsGone (next_wakes e r (wakes s)) h = let k = Reach-IsGone r h in (ap notify k.0, k.1)

  -- Where the memory of `running_` holds a zero, the worker can leave its loop before
  -- `running_` is initialised, while the scheduler is up, and then no task that is scheduled ever runs.
  pub loses_worker :
      {b : Bool} (now : ℕ) {t : System Work}
      → Reach b (gone now) t
      → Reach b (start now false) (gone now) × (t.place ≡ exited) × (t.ran ≡ [])
  loses_worker now r = let k = Reach-IsGone r (refl, refl) in (Reach-gone now, k.0, k.1)

  -- What holds where the memory happened to hold a one: the flag is up or Stop was called, and the
  -- worker is in its loop or the flag is down.
  record IsGuarded (s : System Work) : Type 0 where
    flag : (s.running ≡ true) ⊎ (s.built ≡ true) × (s.stopper ≢ before)
    loop : (s.place ≢ exited) ⊎ (s.running ≡ false)

  at_place :
      (s : System Work) (place : Place Work)
      → (place ≢ exited) ⊎ (s.running ≡ false)
      → IsGuarded s
      → IsGuarded (record s { place = place })
  at_place s place loop h = record { flag = h.flag; loop = loop }

  tested : (b : Bool) → (if◌then◌else◌ {A = Place Work} b locking exited ≢ exited) ⊎ (b ≡ false)
  tested true = inl cc
  tested false = inr refl

  asked : (b : Bool) → if◌then◌else◌ {A = Place Work} b testing failing ≢ exited
  asked true = cc
  asked false = cc

  notify-exited : (place : Place Work) → notify place ≡ exited → place ≡ exited
  notify-exited place h = ground arith

  notified-loop : (s : System Work) → IsGuarded s → (notify s.place ≢ exited) ⊎ (s.running ≡ false)
  notified-loop s h = elim h.loop [
    | inl ne ↦ inl (λ e. ne (notify-exited s.place e))
    | inr down ↦ inr down
  ]

  WorkerStep-IsGuarded : {s t : System Work} → WorkerStep s t → IsGuarded s → IsGuarded t
  unfolding look
  WorkerStep-IsGuarded (tests s e) h = at_place s _ (tested s.running) h
  WorkerStep-IsGuarded (locks s e) h = at_place s _ (inl cc) h
  WorkerStep-IsGuarded (finds_none s e n) h = at_place s _ (inl cc) h
  WorkerStep-IsGuarded (asks s e) h =
      at_place s _ (inl (asked (not (is_empty s.tasks) || not s.running))) h
  WorkerStep-IsGuarded (blocks s e) h = at_place s _ (inl cc) h
  WorkerStep-IsGuarded (locks_again s e) h = at_place s _ (inl cc) h
  WorkerStep-IsGuarded (looks s xs ys top e split least) h =
      if_either IsGuarded (leb top.when s.now) (record { flag = h.flag; loop = inl cc })
        (at_place s _ (inl cc) h)
  WorkerStep-IsGuarded (times_out s until e late) h = at_place s _ (inl cc) h
  WorkerStep-IsGuarded (finishes s task e) h = at_place s _ (inl cc) h

  constructed :
      (s : System Work)
      → s.built ≡ false
      → (s.running ≡ true) ⊎ (s.built ≡ true) × (s.stopper ≢ before)
      → (s.place ≢ exited) ⊎ (s.running ≡ false)
      → s.place ≢ exited
  constructed s b (inl up) (inl ne) = ne
  constructed s b (inl up) (inr down) = cc
  constructed s b (inr stops) loop = cc

  Step-IsGuarded : {s t : System Work} → Step s t → IsGuarded s → IsGuarded t
  Step-IsGuarded (worker step) h = WorkerStep-IsGuarded step h
  Step-IsGuarded (ticks s) h = record { flag = h.flag; loop = h.loop }
  Step-IsGuarded (constructs s b) h = record {
    flag = inl refl;
    loop = inl (constructed s b h.flag h.loop);
  }
  Step-IsGuarded (schedules s delay when task moment b u) h = record {
    flag = h.flag;
    loop = notified-loop s h;
  }
  Step-IsGuarded (raises s b e) h = record { flag = inr (b, cc); loop = inr refl }
  Step-IsGuarded (notifies s e) h = record {
    flag = moved s.running h.flag;
    loop = notified-loop s h;
  }
    where
      moved :
          (b : Bool)
          → (b ≡ true) ⊎ (s.built ≡ true) × (s.stopper ≢ before)
          → (b ≡ true) ⊎ (s.built ≡ true) × (waiting ≢ before)
      moved b (inl up) = inl up
      moved b (inr stops) = inr (stops.0, cc)
  Step-IsGuarded (joins s e x) h = record { flag = moved s.running h.flag; loop = h.loop }
    where
      moved :
          (b : Bool)
          → (b ≡ true) ⊎ (s.built ≡ true) × (s.stopper ≢ before)
          → (b ≡ true) ⊎ (s.built ≡ true) × (joined ≢ before)
      moved b (inl up) = inl up
      moved b (inr stops) = inr (stops.0, cc)

  Reach-IsGuarded :
      {b : Bool} (now : ℕ) {s : System Work} → Reach b (start now true) s → IsGuarded s
  Reach-IsGuarded now here = record { flag = inl refl; loop = inl cc }
  Reach-IsGuarded now (next r step) = Step-IsGuarded step (Reach-IsGuarded now r)
  Reach-IsGuarded now (next_wakes e r (wakes s)) =
      let h = Reach-IsGuarded now r in at_place s _ (notified-loop s h) h

  -- Where the memory of `running_` holds a one, the worker leaves its loop only after Stop was called.
  exits_stopped :
      {b : Bool} (now : ℕ) {s : System Work}
      → Reach b (start now true) s
      → s.place ≡ exited
      → s.stopper ≢ before
  exits_stopped now {s = s} r e = let h = Reach-IsGuarded now r in stopped h.flag h.loop
    where
      stopped :
          (s.running ≡ true) ⊎ (s.built ≡ true) × (s.stopper ≢ before)
          → (s.place ≢ exited) ⊎ (s.running ≡ false)
          → s.stopper ≢ before
      stopped flag (inl ne) = absurd (ne e)
      stopped (inl up) (inr down) = cc
      stopped (inr stops) (inr down) = stops.1
