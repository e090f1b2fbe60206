-- ===== src/Launchers/Qt/Events.antt =====
-- What reaches the window, one event after the other.
use mcx.Prelude.{zero, suc, Bool, Option, List, [], ◌∷◌, if◌then◌else◌}
use mcx.Prelude.Int.{ℤ, pos}
use mcx.Prelude.Text.{Text, codes}
use mcx.Updates.Release.{ReleaseInfo}
use mcx.Launchers.Qt.Settings.{QSettings, Form, clamp}
use mcx.Launchers.Qt.Window.{
  Window, current_version, append_to_console, end_process, on_stop_server, on_restart_server,
  on_check_update, start_update_check, on_checked, on_update_available, on_clear_console,
  on_save_config, on_load_config, on_start_server, close_event,
}

-- `output` and `error` carry what `trimmed` leaves of the text of the process. A click on a button or a menu item with the answers of the process, the timers, the signals of the
-- process, the update check, the input fields, and the close of the window.
pub data Event : Type 0 where
  start : Bool → Event
  stop restart : Option ℤ → Event
  restart_timer : Bool → Event
  output error : Text → Event
  finished : ℤ → Event
  update_timer check_update checked : Event
  release : ReleaseInfo → Bool → Event
  edit : Form → Event
  save load clear : Event
  close_window : Bool → Option ℤ → Event

-- The callback of the update checker, with the answer of its question.
unfoldable pub on_release : {Store : Type 0} → ReleaseInfo → Bool → Window Store → Window Store
on_release info reply w =
    on_update_available (if info.update_available then info.version else current_version)
      info.download_url reply w

-- The spin boxes keep their ranges.
unfoldable pub cut_form : Form → Form
unfolding clamp
cut_form f = record f {
  port = clamp 65535 (pos f.port);
  max_players = clamp 1000 (pos f.max_players);
  rcon_port = clamp 65535 (pos f.rcon_port);
}

-- A process that does not run ends no more; a timer that was not set does not fire.
unfoldable pub on_finished : {Store : Type 0} → ℤ → Window Store → Window Store
on_finished code w = if w.process.is_alive then end_process code w else w

unfoldable pub end_check : {Store : Type 0} → Window Store → Window Store
end_check w = elim w.checks [ zero ↦ w | suc others ↦ on_checked others w ]

module _ (q : QSettings) where
  unfoldable pub on_restart_timer : Bool → Window q.Store → Window q.Store
  on_restart_timer started w = elim w.restarts [
    | zero ↦ w
    | suc others ↦ on_start_server q started (record w { restarts = others })
  ]

  unfoldable pub step : Event → Window q.Store → Window q.Store
  step (start started) w = on_start_server q started w
  step (stop finish) w = on_stop_server finish w
  step (restart finish) w = on_restart_server finish w
  step (restart_timer started) w = on_restart_timer started w
  step (output text) w = append_to_console text (codes "white") w
  step (error text) w = append_to_console text (codes "red") w
  step (finished code) w = on_finished code w
  step update_timer w = start_update_check w
  step check_update w = on_check_update w
  step checked w = end_check w
  step (release info reply) w = on_release info reply w
  step (edit f) w = record w { form = cut_form f }
  step save w = on_save_config q w
  step load w = on_load_config q w
  step clear w = on_clear_console w
  step (close_window reply finish) w = (close_event q reply finish w).1

  unfoldable pub steps : List Event → Window q.Store → Window q.Store
  steps [] w = w
  steps (e ∷ es) w = steps es (step e w)
