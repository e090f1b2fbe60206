-- ===== src/Launchers/Imgui/Restart.antt =====
-- What a restart does to the threads of StartServer.
use mcx.Prelude.{
  ℕ, suc, ◌+◌, ◌≡◌, refl, ap, ◌∙◌, true, false, some, ◌∷◌, [], ◌++◌, length, length-append,
  get_elem?, if◌then◌else◌, if_either, if_split, subst,
}
use mcx.Prelude.Text.{codes}
use mcx.Prelude.Decimal.{to_string}
use mcx.Launchers.Imgui.Console.{Launcher, append_console}
use mcx.Launchers.Imgui.System.{
  System, ServerThread, says_started, tests, sleeps, wakes, says_beat, server_turn, start_server,
  stop_server,
}
use mcx.Launchers.Imgui.Ui.{restart_button, restart, act, turn_server}
use mcx.Launchers.Imgui.Lives.{Stands, act-Stands, turn_server_at, turn_server-Stands}

stop_server_stopped : (s : System) → (stop_server s).launcher.server_running ≡ false
unfolding stop_server append_console
stop_server_stopped s =
    if_split (λ (x : System). x.launcher.server_running ≡ false) s.launcher.server_running
      (λ _. refl) (λ e. e)

start_server_running : (s : System) → (start_server s).launcher.server_running ≡ true
unfolding start_server append_console
start_server_running s =
    if_split (λ (x : System). x.launcher.server_running ≡ true) s.launcher.server_running (λ e. e)
      (λ _. refl)

pub restart_running : (s : System) → (restart s).launcher.server_running ≡ true
unfolding restart
restart_running s = start_server_running (stop_server s)

stop_server_threads : (s : System) → (stop_server s).server_threads ≡ s.server_threads
unfolding stop_server
stop_server_threads s =
    if_either (λ (x : System). x.server_threads ≡ s.server_threads) s.launcher.server_running refl
      refl

start_server_threads :
    (s : System)
    → s.launcher.server_running ≡ false
    → (start_server s).server_threads ≡ s.server_threads ++ (says_started ∷ [])
unfolding start_server
start_server_threads s stopped = rw (stopped, start_server) refl

-- A restart makes one thread more, and leaves those that are there in their places.
pub restart_threads :
    (s : System) → (restart s).server_threads ≡ s.server_threads ++ (says_started ∷ [])
unfolding restart
restart_threads s =
    start_server_threads (stop_server s) (stop_server_stopped s)
    ∙ ap (λ ts. ts ++ (says_started ∷ [])) (stop_server_threads s)

turned :
    (k : ℕ) (t : ServerThread) (s : System)
    → Stands k t s
    → Stands k (server_turn t s.launcher).0 (turn_server k s)
      × ((turn_server k s).launcher ≡ (server_turn t s.launcher).1)
turned k t s h =
    (turn_server-Stands k t s h, ap (λ (u : System). u.launcher) (turn_server_at k t s h))

wakes_turned :
    (k i : ℕ) (s : System)
    → s.launcher.server_running ≡ true
    → Stands k (wakes i) s
    → Stands k (says_beat i) (turn_server k s)
unfolding server_turn
wakes_turned k i s running h =
    subst (λ b. Stands k (if b then says_beat i else tests (suc i)) (turn_server k s)) running
      (turned k (wakes i) s h).0

-- A restart does not end the thread of the start before it. After it the server is marked as running
-- and there is one thread more; a thread that slept in round `i` at the restart prints its Heartbeat
-- `i + 1` after three turns, and is at its test again.
pub restart-beats :
    (k i : ℕ) (s : System)
    → get_elem? s.server_threads k ≡ some (sleeps i)
    → ((restart s).launcher.server_running ≡ true)
      × (length (restart s).server_threads ≡ length s.server_threads + 1)
      × (get_elem? (turn_server k (turn_server k (turn_server k (restart s)))).server_threads k
          ≡ some (tests (suc i)))
      × ((turn_server k (turn_server k (turn_server k (restart s)))).launcher
          ≡ append_console
              (codes "Heartbeat " ++ to_string (suc i))
              (codes "white")
              (restart s).launcher)
unfolding server_turn act
restart-beats k i s h =
    let r = restart s in
    let woken = turned k (sleeps i) r (act-Stands restart_button k (sleeps i) s h) in
    let said : (turn_server k r).launcher.server_running ≡ true =
      ap (λ (l : Launcher). l.server_running) woken.1 ∙ restart_running s in
    let beat = wakes_turned k i (turn_server k r) said woken.0 in
    let same = (turned k (wakes i) (turn_server k r) woken.0).1 ∙ woken.1 in
    let last = turned k (says_beat i) (turn_server k (turn_server k r)) beat in
    (
      restart_running s,
      ap length (restart_threads s) ∙ length-append s.server_threads (says_started ∷ []),
      last.0,
      last.1 ∙ ap (append_console (codes "Heartbeat " ++ to_string (suc i)) (codes "white")) same,
    )
