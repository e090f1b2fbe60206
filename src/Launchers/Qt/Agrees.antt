-- ===== src/Launchers/Qt/Agrees.antt =====
-- What holds of the window between two events.
use mcx.Prelude.{
  zero, suc, ◌≡◌, refl, Bool, true, false, not, Option, none, some, List, [], ◌∷◌, arith, if_either,
  text_eq,
}
use mcx.Prelude.Int.{ℤ, pos}
use mcx.Prelude.Text.{Text}
use mcx.Launchers.Qt.Settings.{QSettings, Form}
use mcx.Launchers.Qt.Stored.{IsInRange, clamp_bounds, load_form-IsInRange}
use mcx.Launchers.Qt.Window.{
  Window, current_version, signal, append_to_console, on_server_finished, end_process,
  terminate_process, on_stop_server, on_restart_server, on_check_update, start_update_check,
  on_checked, on_update_available, on_clear_console, on_save_config, on_load_config, start_process,
  on_start_server, close_event, make_launcher,
}
use mcx.Launchers.Qt.Events.{
  Event, start, stop, restart, restart_timer, output, error, finished, update_timer, check_update,
  checked, release, edit, save, load, clear, close_window, on_release, cut_form, on_finished,
  end_check, on_restart_timer, step, steps,
}

-- The buttons follow the flag, the flag is set only while the process runs, and the spin boxes are
-- within their ranges.
pub record AreConsistent (running start_on stop_on restart_on alive : Bool) (form : Form)
    : Type 0 where
  pub start_button : start_on ≡ not running
  pub stop_button : stop_on ≡ running
  pub restart_button : restart_on ≡ running
  pub process : running ≡ true → alive ≡ true
  pub numbers : IsInRange form

abbrev pub IsConsistent : {Store : Type 0} → Window Store → Type 0
IsConsistent w =
    AreConsistent w.is_server_running w.start_enabled w.stop_enabled w.restart_enabled
      w.process.is_alive w.form

module _ {Store : Type 0} where
  end_process-IsConsistent :
      (code : ℤ) (w : Window Store) → IsInRange w.form → IsConsistent (end_process code w)
  unfolding end_process on_server_finished append_to_console
  end_process-IsConsistent code w h = record {
    start_button = refl;
    stop_button = refl;
    restart_button = refl;
    process = λ e. cc;
    numbers = h;
  }

  terminate_process-IsConsistent :
      (finish : Option ℤ) (w : Window Store)
      → IsConsistent w
      → IsConsistent (terminate_process finish w)
  unfolding terminate_process signal
  terminate_process-IsConsistent none w v = v
  terminate_process-IsConsistent (some code) w v = end_process-IsConsistent code _ v.numbers

  on_stop_server-IsConsistent :
      (finish : Option ℤ) (w : Window Store)
      → IsConsistent w
      → IsConsistent (on_stop_server finish w)
  unfolding on_stop_server append_to_console
  on_stop_server-IsConsistent finish w v =
      if_either (λ (x : Window Store). IsConsistent x) w.is_server_running
        (terminate_process-IsConsistent finish _ v) v

  on_update_available-IsConsistent :
      (version url : Text) (reply : Bool) (w : Window Store)
      → IsConsistent w
      → IsConsistent (on_update_available version url reply w)
  unfolding on_update_available
  on_update_available-IsConsistent version url reply w v =
      if_either (λ (x : Window Store). IsConsistent x) (text_eq version current_version) v
        (if_either (λ (x : Window Store). IsConsistent x) reply v v)

  end_check-IsConsistent : (w : Window Store) → IsConsistent w → IsConsistent (end_check w)
  unfolding end_check on_checked
  end_check-IsConsistent w v =
      elim w.checks
        as (λ n.
          IsConsistent {Store = Store} (elim n [ zero ↦ w | suc others ↦ on_checked others w ])) [
            | zero ↦ v
            | suc others ↦ v
          ]

cut_form-IsInRange : (f : Form) → IsInRange (cut_form f)
unfolding cut_form
cut_form-IsInRange f = record {
  port = clamp_bounds 65535 (pos f.port) (omega arith);
  max_players = clamp_bounds 1000 (pos f.max_players) (omega arith);
  rcon_port = clamp_bounds 65535 (pos f.rcon_port) (omega arith);
}

module _ (q : QSettings) where
  start_process-IsConsistent :
      (started : Bool) (w : Window q.Store)
      → IsConsistent w
      → IsConsistent (start_process started w)
  unfolding start_process append_to_console
  start_process-IsConsistent true w v = record {
    start_button = refl;
    stop_button = refl;
    restart_button = refl;
    process = λ _. refl;
    numbers = v.numbers;
  }
  start_process-IsConsistent false w v = v

  on_start_server-IsConsistent :
      (started : Bool) (w : Window q.Store)
      → IsConsistent w
      → IsConsistent (on_start_server q started w)
  unfolding on_start_server on_save_config append_to_console
  on_start_server-IsConsistent started w v =
      if_either (λ (x : Window q.Store). IsConsistent x) w.is_server_running v
        (start_process-IsConsistent started _ v)

  on_restart_timer-IsConsistent :
      (started : Bool) (w : Window q.Store)
      → IsConsistent w
      → IsConsistent (on_restart_timer q started w)
  unfolding on_restart_timer
  on_restart_timer-IsConsistent started w v =
      elim w.restarts
        as (λ n. IsConsistent {Store = q.Store} (elim n [
          | zero ↦ w
          | suc others ↦ on_start_server q started (record w { restarts = others })
        ])) [
          | zero ↦ v
          | suc others ↦ on_start_server-IsConsistent started (record w { restarts = others }) v
        ]

  step-IsConsistent : (e : Event) (w : Window q.Store) → IsConsistent w → IsConsistent (step q e w)
  unfolding step on_restart_server append_to_console on_finished start_update_check on_check_update
      on_release on_clear_console on_save_config on_load_config close_event
  step-IsConsistent (start started) w v = on_start_server-IsConsistent started w v
  step-IsConsistent (stop finish) w v = on_stop_server-IsConsistent finish w v
  step-IsConsistent (restart finish) w v = on_stop_server-IsConsistent finish w v
  step-IsConsistent (restart_timer started) w v = on_restart_timer-IsConsistent started w v
  step-IsConsistent (output text) w v = v
  step-IsConsistent (error text) w v = v
  step-IsConsistent (finished code) w v =
      if_either (λ (x : Window q.Store). IsConsistent x) w.process.is_alive
        (end_process-IsConsistent code w v.numbers) v
  step-IsConsistent update_timer w v =
      if_either (λ (x : Window q.Store). IsConsistent x) w.form.auto_update v v
  step-IsConsistent check_update w v = v
  step-IsConsistent checked w v = end_check-IsConsistent w v
  step-IsConsistent (release info reply) w v =
      on_update_available-IsConsistent _ info.download_url reply w v
  step-IsConsistent (edit f) w v = record {
    start_button = v.start_button;
    stop_button = v.stop_button;
    restart_button = v.restart_button;
    process = v.process;
    numbers = cut_form-IsInRange f;
  }
  step-IsConsistent save w v = v
  step-IsConsistent load w v = record {
    start_button = v.start_button;
    stop_button = v.stop_button;
    restart_button = v.restart_button;
    process = v.process;
    numbers = load_form-IsInRange q w.settings;
  }
  step-IsConsistent clear w v = v
  step-IsConsistent (close_window reply finish) w v =
      if_either (λ (x : Bool × Window q.Store). IsConsistent x.1) w.is_server_running
        (if_either (λ (x : Bool × Window q.Store). IsConsistent x.1) reply
          (on_stop_server-IsConsistent finish w v) v)
        v

  steps-IsConsistent :
      (es : List Event) (w : Window q.Store) → IsConsistent w → IsConsistent (steps q es w)
  unfolding steps
  steps-IsConsistent [] w v = v
  steps-IsConsistent (e ∷ es) w v = steps-IsConsistent es (step q e w) (step-IsConsistent e w v)

  make_launcher-IsConsistent : (settings : q.Store) → IsConsistent (make_launcher q settings)
  unfolding make_launcher on_load_config append_to_console
  make_launcher-IsConsistent settings = record {
    start_button = refl;
    stop_button = refl;
    restart_button = refl;
    process = λ e. cc;
    numbers = load_form-IsInRange q settings;
  }

-- From the constructor on, over any settings and any events: the start button is enabled exactly
-- where the server is not marked as running, the stop and the restart button exactly where it is;
-- it is so marked only while its process runs; and the numbers are in the ranges of the spin boxes.
pub steps-make_launcher :
    (q : QSettings) (settings : q.Store) (es : List Event)
    → IsConsistent (steps q es (make_launcher q settings))
steps-make_launcher q settings es =
    steps-IsConsistent q es (make_launcher q settings) (make_launcher-IsConsistent q settings)
