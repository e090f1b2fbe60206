-- ===== src/Server/Tasks/Order.antt =====
-- Which tasks a frame runs, and in which order: src/core/scheduler.cpp.
use mcx.Prelude.{
  ℕ, ◌+◌, ◌≤◌, ◌≡◌, refl, subst, inl, inr, Bool, true, false, not, [], ◌∷◌, ◌++◌, arith, leb,
  if◌then◌else◌, Bool-cases, keep_if, keep_if_kept, keep_if_dropped, nat_eq, text_key,
}
use mcx.Server.Tasks.{ScheduledTask, Scheduler, schedule, update}

abbrev pub due : {Task : Type 0} → ℕ → Scheduler Task → Scheduler Task
due now = keep_if (λ t. leb t.when now)

abbrev pub waiting : {Task : Type 0} → ℕ → Scheduler Task → Scheduler Task
waiting now = keep_if (λ t. not (leb t.when now))

module _ {Task World : Type 0} (run : Task → World → World × Bool) where
  -- Running tasks one after the other, as long as none throws.
  abbrev pub run_all : Scheduler Task → World → World
  run_all [] w = w
  run_all (t ∷ tasks) w = run_all tasks (run t.what w).0

  -- No task of the list throws, in the world that it is run in.
  abbrev pub AllReturn : Scheduler Task → World → Type 0
  AllReturn [] w = Unit
  AllReturn (t ∷ tasks) w = ((run t.what w).1 ≡ false) × AllReturn tasks (run t.what w).0

  -- Where no due task throws, a frame runs the due tasks once each, in the order in which they were
  -- scheduled, and keeps exactly the others, in their order.
  pub update_lem :
      (now : ℕ) (tasks : Scheduler Task) (w : World)
      → AllReturn (due now tasks) w
      → update run now tasks w ≡ (waiting now tasks, run_all (due now tasks) w, false)
  unfolding update
  update_lem now [] w h = refl
  update_lem now (t ∷ tasks) w h = elim (Bool-cases (leb t.when now)) [
    | inl early ↦
        let h' =
          subst (λ (l : Scheduler Task). AllReturn l w)
            (keep_if_kept (λ (t : ScheduledTask Task). leb t.when now) t tasks early) h in
        ground (arith, early, h'.0, update_lem now tasks (run t.what w).0 h'.1)
    | inr late ↦
        let h' =
          subst (λ (l : Scheduler Task). AllReturn l w)
            (keep_if_dropped (λ (t : ScheduledTask Task). leb t.when now) t tasks late) h in
        ground (arith, late, update_lem now tasks w h')
  ]

  -- A due task that throws ends the frame: it stays scheduled, with every task behind it, and none of
  -- those is run.
  pub update_throws :
      (now : ℕ) (early rest : Scheduler Task) (t : ScheduledTask Task) (w : World)
      → AllReturn (due now early) w
      → t.when ≤ now
      → (run t.what (run_all (due now early) w)).1 ≡ true
      → update run now (early ++ (t ∷ rest)) w
        ≡ (waiting now early ++ (t ∷ rest), (run t.what (run_all (due now early) w)).0, true)
  unfolding update
  update_throws now [] rest t w h le e = ground arith
  update_throws now (s ∷ early) rest t w h le e = elim (Bool-cases (leb s.when now)) [
    | inl soon ↦
        let q = keep_if_kept (λ (t : ScheduledTask Task). leb t.when now) s early soon in
        let h' = subst (λ (l : Scheduler Task). AllReturn l w) q h in
        let e' = subst (λ (l : Scheduler Task). (run t.what (run_all l w)).1 ≡ true) q e in
        ground (arith, soon, h'.0, update_throws now early rest t (run s.what w).0 h'.1 le e')
    | inr late ↦
        let q = keep_if_dropped (λ (t : ScheduledTask Task). leb t.when now) s early late in
        let h' = subst (λ (l : Scheduler Task). AllReturn l w) q h in
        let e' = subst (λ (l : Scheduler Task). (run t.what (run_all l w)).1 ≡ true) q e in
        ground (arith, late, update_throws now early rest t w h' le e')
  ]

-- A task that is scheduled runs in the first frame at or after its time, and in no frame before.
due-schedule :
    {Task : Type 0} (now later delay : ℕ) (task : Task) (tasks : Scheduler Task)
    → due later (schedule now delay task tasks) ≡ (
        if leb (now + delay) later
        then due later tasks ++ (record { when = now + delay; what = task } ∷ [])
        else due later tasks)
unfolding schedule
due-schedule now later delay task [] = ground arith
due-schedule now later delay task (t ∷ tasks) =
    ground (arith, due-schedule now later delay task tasks)
