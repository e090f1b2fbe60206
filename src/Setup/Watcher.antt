-- ===== src/Setup/Watcher.antt =====
-- ConfigWatcher of src/core/config_watcher.cpp, in the build for Linux: its thread, and the turns of
-- WatchLoop. The system gives the descriptor, or none, and says whether the file can be watched.
use mcx.Prelude.{
  ℕ, ◌+◌, ◌≡◌, refl, Bool, true, false, ◌&&◌, Option, none, some, List, [], ◌∷◌, arith, is_empty,
  if◌then◌else◌,
}
use mcx.Prelude.Text.{codes}
use mcx.Log.{Line, error}
use mcx.Sockets.{close, is_open}
use mcx.Sockets.Descriptors.{close_new}

pub record Watcher : Type 0 where
  pub running : Bool
  pub joinable : Bool
  pub has_callback : Bool

-- `none` is std::terminate: a thread is assigned over one that can be joined.
unfoldable pub start : Watcher → Option Watcher
start w = if w.joinable then none else some (record w { running = true; joinable = true })

-- The join waits for the end of WatchLoop.
unfoldable pub stop : Watcher → Watcher
stop w = record w { running = false; joinable = false }

unfoldable pub on_change : Watcher → Watcher
on_change w = record w { has_callback = true }

-- A turn of the loop: what it reads of the flag, and whether `select` finds a change within a second.
pub record Round : Type 0 where
  pub running : Bool
  pub changed : Bool

-- How often the callback is called.
unfoldable pub watch_rounds : Bool → List Round → ℕ
watch_rounds has_callback [] = 0
watch_rounds has_callback (r ∷ rounds) =
    let rest = watch_rounds has_callback rounds in
    if r.running then (if r.changed && has_callback then 1 else 0) + rest else 0

-- The lines that are logged, the calls of the callback, and the descriptors that are open.
unfoldable pub watch_loop : Option ℕ → Bool → Bool → List Round → List ℕ → List Line × ℕ × List ℕ
unfolding watch_rounds
watch_loop none watches has_callback rounds fds =
    ((error, codes "Failed to init inotify") ∷ [], 0, fds)
watch_loop (some fd) false has_callback rounds fds =
    ((error, codes "Failed to watch config file") ∷ [], 0, close fd (fd ∷ fds))
watch_loop (some fd) true has_callback rounds fds =
    ([], watch_rounds has_callback rounds, close fd (fd ∷ fds))

-- The changes that are found before the flag is low.
abbrev pub changes : List Round → ℕ
changes [] = 0
changes (r ∷ rounds) = if r.running then (if r.changed then 1 else 0) + changes rounds else 0

watch_rounds_lem :
    (rounds : List Round)
    → (watch_rounds true rounds ≡ changes rounds) × (watch_rounds false rounds ≡ 0)
unfolding watch_rounds
watch_rounds_lem [] = (refl, refl)
watch_rounds_lem (r ∷ rounds) =
    let ih = watch_rounds_lem rounds in (ground (arith, ih.0), ground (arith, ih.1))

-- The loop leaves open what was open on each of its paths. With a callback, it is called once for
-- each change that is found before the flag is low, where the file can be watched, and never else;
-- without one nothing is called. It logs a line exactly where the file cannot be watched.
pub watch_loop_lem :
    (socket : Option ℕ) (watches : Bool) (rounds : List Round) (fds : List ℕ)
    → ((fd : ℕ) → socket ≡ some fd → is_open fd fds ≡ false)
    → let (lines, calls, opened) = watch_loop socket watches true rounds fds in
      let works = watches && elim socket [ none ↦ false | some fd ↦ true ] in
      (opened ≡ fds)
      × (calls ≡ (if works then changes rounds else 0))
      × (is_empty lines ≡ works)
      × ((watch_loop socket watches false rounds fds).1 ≡ 0)
unfolding watch_loop
watch_loop_lem none true rounds fds new = (refl, refl, refl, refl)
watch_loop_lem none false rounds fds new = (refl, refl, refl, refl)
watch_loop_lem (some fd) false rounds fds new = (close_new fd fds (new fd refl), refl, refl, refl)
watch_loop_lem (some fd) true rounds fds new =
    let (called, silent) = watch_rounds_lem rounds in
    (close_new fd fds (new fd refl), called, refl, silent)

-- A second Start without a Stop ends the program, also where the loop of the first has ended by
-- itself; behind a Stop it starts again.
start_again : (w v : Watcher) → start w ≡ some v → (start v ≡ none) × (start (stop v) ≡ start w)
unfolding start stop
start_again w v h = ground (arith, h)
