-- ===== src/Server/Signals.antt =====
-- src/core/signal_handler.cpp: the flag and the callback of the process, and what MainLoop of
-- src/core/server.cpp makes of the flag. `S` is what the callback changes.
use mcx.Prelude.{
  ℕ, ◌≡◌, refl, Bool, true, false, Option, none, some, List, [], ◌∷◌, Bool-cases, inl, inr,
  if◌then◌else◌,
}
use mcx.Server.Core.{Server}
use mcx.Server.Loop.{main_loop, update_server}

pub record Signals (S : Type 0) : Type 0 where
  pub shutdown_requested : Bool
  pub callback : Option (S → S)

module _ {S : Type 0} where
  unfoldable pub signal_handler : Signals S → S → Signals S × S
  signal_handler signals s = (
    record signals { shutdown_requested = true },
    elim signals.callback [ none ↦ s | some call ↦ call s ],
  )

  unfoldable pub register_signal_handler : (S → S) → Signals S → Signals S
  register_signal_handler callback signals = record signals { callback = some callback }

  unfoldable pub should_shutdown : Signals S → Bool
  should_shutdown signals = signals.shutdown_requested

  -- The times of frames with what ShouldShutdown answers in each, where `true` is a signal that comes
  -- before the frame.
  unfoldable pub frames_of : List (ℕ × Bool) → Signals S → S → List (ℕ × Bool)
  unfolding signal_handler should_shutdown
  frames_of [] signals s = []
  frames_of ((now, true) ∷ times) signals s =
      let (signals', s') = signal_handler signals s in
      (now, should_shutdown signals') ∷ frames_of times signals' s'
  frames_of ((now, false) ∷ times) signals s =
      (now, should_shutdown signals) ∷ frames_of times signals s

-- The frames before the first signal.
abbrev before_signal : List (ℕ × Bool) → List (ℕ × Bool)
before_signal [] = []
before_signal ((now, true) ∷ times) = []
before_signal ((now, false) ∷ times) = (now, false) ∷ before_signal times

module _ {State Task World : Type 0} (run_task : Task → World → World × Bool) where
  main_loop_stops :
      (now : ℕ) (frames : List (ℕ × Bool)) (server : Server State Task) (w : World)
      → main_loop run_task ((now, true) ∷ frames) server w ≡ (server, w)
  unfolding main_loop
  main_loop_stops now frames server w = elim (Bool-cases server.running) [
    | inl r ↦ rw (main_loop, r) refl
    | inr r ↦ rw (main_loop, r) refl
  ]

  -- The loop as the flag is when it starts.
  main_loop_flagged :
      {S : Type 0} (times : List (ℕ × Bool)) (flag : Bool) (callback : Option (S → S)) (s : S)
      (server : Server State Task) (w : World)
      → main_loop run_task
          (frames_of times (record { shutdown_requested = flag; callback = callback }) s)
          server
          w
        ≡ (if flag then (server, w) else main_loop run_task (before_signal times) server w)
  unfolding frames_of should_shutdown signal_handler main_loop
  main_loop_flagged [] true callback s server w = refl
  main_loop_flagged [] false callback s server w = refl
  main_loop_flagged ((now, true) ∷ times) true callback s server w =
      main_loop_stops now (frames_of times _ _) server w
  main_loop_flagged ((now, true) ∷ times) false callback s server w =
      main_loop_stops now (frames_of times _ _) server w
  main_loop_flagged ((now, false) ∷ times) true callback s server w =
      main_loop_stops now (frames_of times _ _) server w
  main_loop_flagged ((now, false) ∷ times) false callback s server w =
      let (server', w', threw) = update_server run_task now server w in
      rw (main_loop_flagged times false callback s server' w') refl

  -- A signal ends the main loop behind the frames that came before it, whatever the callback does;
  -- the flag falls nowhere, so behind a signal a loop that starts again runs no frame.
  main_loop-frames_of :
      {S : Type 0} (times : List (ℕ × Bool)) (signals : Signals S) (s : S)
      (server : Server State Task) (w : World)
      → main_loop run_task (frames_of times signals s) server w ≡ (
          if should_shutdown signals
          then (server, w)
          else main_loop run_task (before_signal times) server w)
  unfolding should_shutdown
  main_loop-frames_of times signals s server w =
      main_loop_flagged times signals.shutdown_requested signals.callback s server w
