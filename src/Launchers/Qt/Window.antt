-- ===== src/Launchers/Qt/Window.antt =====
-- The members of MCXLauncher and its handlers. A console line is its colour and its text, without
-- the time of day in front; what the dialogs show is left out.
use mcx.Prelude.{
  ℕ, ◌+◌, Bool, true, false, ◌==◌, Option, none, some, List, [], ◌∷◌, ◌++◌, if◌then◌else◌, text_eq,
  text_key,
}
use mcx.Prelude.Int.{ℤ, pos, negsuc}
use mcx.Prelude.Text.{Text, codes}
use mcx.Prelude.Decimal.{int_text}
use mcx.Launchers.Qt.Settings.{QSettings, Form, default_form, save_form, load_form}

pub data Signal : Type 0 where
  terminate kill : Signal

-- QProcess: the arguments that were set, whether a process runs, the starts that were asked for, and
-- the signals that were sent, the last one first.
pub record Process : Type 0 where
  pub arguments : List Text
  pub is_alive : Bool
  pub starts : ℕ
  pub signals : List Signal

-- `checks` counts the threads of onCheckUpdate, `restarts` the timers of onRestartServer.
pub record Window (Store : Type 0) : Type 0 where
  pub form : Form
  pub settings : Store
  pub console : List (Text × Text)
  pub status : Text
  pub start_enabled : Bool
  pub stop_enabled : Bool
  pub restart_enabled : Bool
  pub update_enabled : Bool
  pub progress_visible : Bool
  pub is_server_running : Bool
  pub process : Process
  pub checks : ℕ
  pub restarts : ℕ
  pub opened : List Text

unfoldable pub current_version : Text
unfolding codes
current_version = codes "v0.2.0"

unfoldable pub exit_color : ℤ → Text
exit_color (pos n) = if n == 0 then codes "green" else codes "red"
exit_color (negsuc n) = codes "red"

-- The argument that onStartServer passes.
unfoldable pub arguments_of : Form → List Text
arguments_of f = (if f.demo_mode then codes "--demo" else codes "--server") ∷ []

module _ {Store : Type 0} where
  unfoldable pub append_to_console : Text → Text → Window Store → Window Store
  append_to_console text color w = record w { console = w.console ++ ((color, text) ∷ []) }

  unfoldable pub on_server_finished : ℤ → Window Store → Window Store
  on_server_finished code w =
      record (append_to_console
        (codes "Server stopped (exit code: " ++ (int_text code ++ codes ")")) (exit_color code) w) {
          is_server_running = false;
          start_enabled = true;
          stop_enabled = false;
          restart_enabled = false;
          status = codes "Server Stopped";
        }

  unfoldable pub signal : Signal → Window Store → Window Store
  signal s w = record w { process = record w.process { signals = s ∷ w.process.signals } }

  -- The process has ended, and `finished` is emitted.
  unfoldable pub end_process : ℤ → Window Store → Window Store
  end_process code w =
      on_server_finished code (record w { process = record w.process { is_alive = false } })

  -- `terminate`, `waitForFinished` and `kill`. `finish` is the exit code of a process that ends within
  -- the wait, which emits its signal; the one that is killed ends later.
  unfoldable pub terminate_process : Option ℤ → Window Store → Window Store
  terminate_process none w = signal kill (signal terminate w)
  terminate_process (some code) w = end_process code (signal terminate w)

  unfoldable pub on_stop_server : Option ℤ → Window Store → Window Store
  on_stop_server finish w =
      if w.is_server_running
      then terminate_process finish
          (append_to_console (codes "Stopping server...") (codes "yellow") w)
      else w

  unfoldable pub on_restart_server : Option ℤ → Window Store → Window Store
  on_restart_server finish w =
      let stopped = on_stop_server finish w in record stopped { restarts = stopped.restarts + 1 }

  unfoldable pub on_check_update : Window Store → Window Store
  on_check_update w = record w {
    status = codes "Checking for updates...";
    progress_visible = true;
    update_enabled = false;
    checks = w.checks + 1;
  }

  unfoldable pub start_update_check : Window Store → Window Store
  start_update_check w = if w.form.auto_update then on_check_update w else w

  -- The end of a thread of onCheckUpdate.
  unfoldable pub on_checked : ℕ → Window Store → Window Store
  on_checked others w = record w {
    status = codes "Ready";
    progress_visible = false;
    update_enabled = true;
    checks = others;
  }

  -- `reply` is the button of the question.
  unfoldable pub on_update_available : Text → Text → Bool → Window Store → Window Store
  on_update_available version url reply w =
      if text_eq version current_version
      then w
      else if reply
      then record w { opened = w.opened ++ (url ∷ []) }
      else w

  -- `start()` with the argument of the form; the flag is what `waitForStarted` gives.
  unfoldable pub run_process : Bool → Window Store → Process
  run_process started w = record w.process {
    arguments = arguments_of w.form;
    is_alive = if started then true else w.process.is_alive;
    starts = w.process.starts + 1;
  }

  unfoldable pub start_process : Bool → Window Store → Window Store
  unfolding run_process
  start_process true w =
      record (append_to_console (codes "Server started successfully!") (codes "green") w) {
        process = run_process true w;
        is_server_running = true;
        start_enabled = false;
        stop_enabled = true;
        restart_enabled = true;
        status = codes "Server Running";
      }
  start_process false w =
      record (append_to_console (codes "Failed to start server!") (codes "red") w) {
        process = run_process false w;
      }

  unfoldable pub on_clear_console : Window Store → Window Store
  on_clear_console w = record w { console = [] }

module _ (q : QSettings) where
  unfoldable pub on_save_config : Window q.Store → Window q.Store
  on_save_config w = record (append_to_console (codes "Configuration saved!") (codes "green") w) {
    settings = save_form q w.form w.settings;
    status = codes "Configuration saved";
  }

  unfoldable pub on_load_config : Window q.Store → Window q.Store
  on_load_config w = record (append_to_console (codes "Configuration loaded!") (codes "green") w) {
    form = load_form q w.settings;
  }

  unfoldable pub on_start_server : Bool → Window q.Store → Window q.Store
  on_start_server started w =
      if w.is_server_running
      then w
      else start_process started
          (on_save_config (append_to_console (codes "Starting MCX Server...") (codes "yellow") w))

  -- The answer of the dialog, and whether the event is accepted.
  unfoldable pub close_event : Bool → Option ℤ → Window q.Store → Bool × Window q.Store
  close_event reply finish w =
      if w.is_server_running
      then (if reply then (true, on_stop_server finish w) else (false, w))
      else (true, w)

  -- The destructor.
  unfoldable pub destroy : Option ℤ → Window q.Store → Window q.Store
  destroy finish w = on_save_config (if w.process.is_alive then terminate_process finish w else w)

  -- The constructor: the widgets of the setup functions, and loadSettings.
  unfoldable pub make_launcher : q.Store → Window q.Store
  make_launcher settings = on_load_config (record {
    form = default_form;
    settings = settings;
    console = [];
    status = codes "Ready - v" ++ current_version;
    start_enabled = true;
    stop_enabled = false;
    restart_enabled = false;
    update_enabled = true;
    progress_visible = false;
    is_server_running = false;
    process = record { arguments = []; is_alive = false; starts = 0; signals = [] };
    checks = 0;
    restarts = 0;
    opened = [];
  })
