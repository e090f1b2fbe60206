-- ===== src/Server/Loop/Stuck.antt =====
-- Frames of src/core/server.cpp with a task that throws.
use mcx.Prelude.{ℕ, ◌≤◌, ◌≡◌, refl, sym, ap, ◌∙◌, Bool, true, false, List, [], ◌∷◌, All}
use mcx.Server.Core.{Server}
use mcx.Server.Tasks.{ScheduledTask, Scheduler, update}
use mcx.Server.Tasks.Order.{update_throws}
use mcx.Server.Loop.{update_server, main_loop}

module _ {Task World : Type 0} (run_task : Task → World → World × Bool) where
  -- A task run once in each frame.
  abbrev pub in_each : List (ℕ × Bool) → Task → World → World
  in_each [] task w = w
  in_each (frame ∷ frames) task w = in_each frames task (run_task task w).0

-- The frame comes at or after the time of the task, and is not the end.
abbrev pub IsLate : {Task : Type 0} → ScheduledTask Task → ℕ × Bool → Type 0
IsLate t (now, shutdown) = (t.when ≤ now) × (shutdown ≡ false)

module _ {State Task World : Type 0} (run_task : Task → World → World × Bool) where
  frame_throws :
      (now : ℕ) (shutdown : Bool) (frames : List (ℕ × Bool)) (server : Server State Task)
      (t : ScheduledTask Task) (rest : Scheduler Task) (w : World)
      → server.running ≡ true
      → server.scheduler ≡ t ∷ rest
      → t.when ≤ now
      → shutdown ≡ false
      → (run_task t.what w).1 ≡ true
      → main_loop run_task ((now, shutdown) ∷ frames) server w
        ≡ main_loop run_task frames (record server { scheduler = t ∷ rest }) (run_task t.what w).0
  unfolding main_loop update_server
  frame_throws now shutdown frames server t rest w on q due go e =
      let u =
        ap (λ l. update run_task now l w) q ∙ update_throws run_task now [] rest t w tt due e in
      rw (main_loop, on, go, u) refl

  -- While the server runs, a task at the head of the schedule that always throws is run again in
  -- each frame, where all frames are at or after its time and none is the end, and the tasks behind
  -- it stay where they are: none of them is ever run, however late it is.
  pub main_loop_stuck :
      (frames : List (ℕ × Bool)) (server : Server State Task) (t : ScheduledTask Task)
      (rest : Scheduler Task) (w : World)
      → server.running ≡ true
      → server.scheduler ≡ t ∷ rest
      → ((v : World) → (run_task t.what v).1 ≡ true)
      → All (IsLate t) frames
      → main_loop run_task frames server w ≡ (server, in_each run_task frames t.what w)
  unfolding main_loop
  main_loop_stuck [] server t rest w on q e late = refl
  main_loop_stuck ((now, shutdown) ∷ frames) server t rest w on q e late =
      frame_throws now shutdown frames server t rest w on q late.0.0 late.0.1 (e w)
      ∙ main_loop_stuck frames (record server { scheduler = t ∷ rest }) t rest (run_task t.what w).0
          on refl e late.1
      ∙ ap
          (λ l.
            (record server { scheduler = l }, in_each run_task frames t.what (run_task t.what w).0))
          (sym q)
