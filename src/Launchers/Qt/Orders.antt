-- ===== src/Launchers/Qt/Orders.antt =====
-- A restart whose process does not end within the wait: the two orders of what follows.
use mcx.Prelude.{◌+◌, ◌≡◌, refl, true, false, none, [], ◌∷◌}
use mcx.Prelude.Int.{ℤ}
use mcx.Launchers.Qt.Settings.{QSettings}
use mcx.Launchers.Qt.Window.{
  Window, append_to_console, signal, on_server_finished, end_process, terminate_process,
  on_stop_server, on_restart_server, on_save_config, run_process, start_process, on_start_server,
}
use mcx.Launchers.Qt.Events.{
  restart, restart_timer, finished, on_finished, on_restart_timer, step, steps,
}

-- The process of a running server does not end within the wait of a restart, and is killed; no other
-- restart is under way. Where its end is met before the timer fires, the server is started again.
-- Where the timer fires first, nothing is started, and the server stays down behind the end, with
-- no timer left.
pub steps-restart :
    (q : QSettings) (code : ℤ) (w : Window q.Store)
    → w.is_server_running ≡ true
    → w.process.is_alive ≡ true
    → w.restarts ≡ 0
    → let early = steps q (restart none ∷ finished code ∷ restart_timer true ∷ []) w in
      let late = steps q (restart none ∷ restart_timer true ∷ finished code ∷ []) w in
      (early.is_server_running ≡ true)
      × (early.process.starts ≡ w.process.starts + 1)
      × (late.is_server_running ≡ false)
      × (late.process.starts ≡ w.process.starts)
      × (late.restarts ≡ 0)
unfolding steps step on_restart_server on_stop_server terminate_process signal on_finished
    end_process on_server_finished on_restart_timer on_start_server on_save_config start_process
    run_process append_to_console
steps-restart q code w on alive fresh = rw (on, alive, fresh) (refl, refl, refl, refl, refl)
