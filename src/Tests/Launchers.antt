-- ===== src/Tests/Launchers.antt =====
-- The launchers at concrete inputs.
use mcx.Prelude.{
  List, ◌≤◌, ◌+◌, ◌≡◌, refl, Bool, true, false, none, some, [], ◌∷◌, ◌++◌, ◌⊎◌, arith, length,
  get_elem?, text_eq, text_key,
}
use mcx.Prelude.Int.{ℤ, pos, negsuc}
use mcx.Prelude.Text.{Text, codes}
use mcx.Prelude.Decimal.{to_string}
use mcx.Maps.{Map, lookup, insert, lookup-insert}
use mcx.Server.Main.{print_banner, run_demo, main}
use mcx.Launchers.Imgui.Config.{Config, default_config, save_config, load_config}
use mcx.Launchers.Imgui.Unread.{load_config-save_config}
use mcx.Launchers.Imgui.Console.{Launcher, ConsoleLine, append_console}
use mcx.Launchers.Imgui.System.{System, sleeps, tests, ended}
use mcx.Launchers.Imgui.Ui.{
  user, server, update, start_button, check_button, about_item, restart, turn_server, steps,
}
use mcx.Launchers.Imgui.Ui
use mcx.Launchers.Imgui.Interleaved
use mcx.Launchers.Imgui.Lives.{steps-ended}
use mcx.Launchers.Imgui.Restart.{restart-beats}
use mcx.Launchers.Qt.Settings.{QSettings, Form, save_form, load_form}
use mcx.Launchers.Qt.Stored.{load_form-save_form}
use mcx.Launchers.Qt.Window.{
  Window, kill, close_event, destroy, on_start_server, make_launcher, on_load_config,
  append_to_console as append_line, current_version,
}
use mcx.Launchers.Qt.Events
use mcx.Launchers.Qt.Agrees.{IsConsistent, steps-make_launcher}
use mcx.Launchers.Qt.Closing.{destroy-close_event}
use mcx.Launchers.Qt.Starts.{main-on_start_server}
use mcx.Launchers.Qt.Orders.{steps-restart}
use mcx.Launchers.Qt.Menu.{menu, activated, on_check_update}
use mcx.Tests.Samples.{alice, bob}

abbrev plain_config : Config
plain_config = record {
  server_name = alice;
  bind_ip = bob;
  port = negsuc 0;
  max_players = pos 3;
  demo_mode = false;
  auto_update = true;
  rcon_enabled = false;
  rcon_port = pos 7;
  rcon_password = alice;
}

load_config-save_config_example :
    load_config (save_config true plain_config none) default_config ≡ some default_config
load_config-save_config_example =
    load_config-save_config plain_config default_config none
      ((refl, (refl, tt)), (refl, tt), (refl, (refl, tt)))

-- A thread of StartServer in its fifth round, while the server runs.
abbrev busy_launcher : Launcher
busy_launcher = record {
  show_update_dialog = false;
  should_exit = false;
  console_lines = [];
  server_running = true;
  checking_update = false;
  update_progress = 0;
  latest_version = [];
  download_url = [];
  update_available = false;
  config = plain_config;
  file = none;
  is_writable = true;
  commands = [];
  time = 0;
}

abbrev busy_system : System
busy_system = record {
  launcher = busy_launcher;
  server_threads = sleeps 4 ∷ [];
  update_threads = [];
}

abbrev dialog_system : System
dialog_system = record busy_system { launcher = record busy_launcher { show_update_dialog = true } }

abbrev hello : ConsoleLine
hello = record { text = codes "hello"; color = []; timestamp = 1 }

-- Two calls, the second of which begins before the first one has pushed its line.
abbrev two_calls : List Interleaved.Turn
two_calls =
    Interleaved.call hello
    ∷ Interleaved.call hello
    ∷ Interleaved.goes 1
    ∷ Interleaved.goes 0
    ∷ Interleaved.goes 1
    ∷ []

turns-length_example : length (hello ∷ hello ∷ []) ≤ 1000 + 1
unfolding Interleaved.turns
turns-length_example = Interleaved.turns-length two_calls [] (omega arith) refl

four_turns : System
four_turns = turn_server 0 (turn_server 0 (turn_server 0 (turn_server 0 busy_system)))

steps-ended_example : get_elem? four_turns.server_threads 0 ≡ some ended
unfolding four_turns steps Ui.step
steps-ended_example =
    steps-ended (server 0 ∷ server 0 ∷ server 0 ∷ server 0 ∷ []) 0 (sleeps 4) busy_system refl
      (omega arith) refl

restart-beats_example :
    ((restart busy_system).launcher.server_running ≡ true)
    × (length (restart busy_system).server_threads ≡ 1 + 1)
    × (get_elem?
          (turn_server 0 (turn_server 0 (turn_server 0 (restart busy_system)))).server_threads
          0
        ≡ some (tests 5))
    × ((turn_server 0 (turn_server 0 (turn_server 0 (restart busy_system)))).launcher
        ≡ append_console
            (codes "Heartbeat " ++ to_string 5)
            (codes "white")
            (restart busy_system).launcher)
restart-beats_example = restart-beats 0 4 busy_system refl

-- QSettings in memory.
data Variant : Type 0 where
  text : Text → Variant
  int : ℤ → Variant
  bool : Bool → Variant

abbrev as_text : Variant → Text
as_text (text t) = t
as_text _ = []

abbrev as_int : Variant → ℤ
as_int (int n) = n
as_int _ = pos 0

abbrev as_bool : Variant → Bool
as_bool (bool b) = b
as_bool _ = false

abbrev memory : QSettings
memory = record {
  Variant = Variant;
  Store = Map Text Variant;
  of_text = text;
  of_int = int;
  of_bool = bool;
  to_text = as_text;
  to_int = as_int;
  to_bool = as_bool;
  stored = (λ v. v);
  set_value = insert;
  value = lookup;
  value-set_value = (λ k j v s. lookup-insert k j v s);
  to_text-stored = (λ t. refl);
  to_int-stored = (λ n. refl);
  to_bool-stored = (λ b. refl);
}

abbrev full_form : Form
full_form = record {
  server_name = alice;
  bind_ip = bob;
  port = 65535;
  max_players = 1;
  demo_mode = true;
  auto_update = false;
  rcon_enabled = false;
  rcon_port = 1;
  rcon_password = [];
}

load_form-save_form_example :
    load_form memory (save_form memory full_form ((bob, bool true) ∷ [])) ≡ full_form
load_form-save_form_example =
    load_form-save_form memory full_form ((bob, bool true) ∷ []) (omega arith)

steps-make_launcher_example : IsConsistent (
    Events.steps memory
      (Events.start true ∷ Events.restart none ∷ Events.finished (pos 1) ∷ [])
      (make_launcher memory ((codes "port", int (negsuc 4)) ∷ [])))
steps-make_launcher_example =
    steps-make_launcher memory ((codes "port", int (negsuc 4)) ∷ [])
      (Events.start true ∷ Events.restart none ∷ Events.finished (pos 1) ∷ [])

-- A window whose process runs.
abbrev running_window : Window (Map Text Variant)
running_window = record {
  form = full_form;
  settings = [];
  console = [];
  status = [];
  start_enabled = false;
  stop_enabled = true;
  restart_enabled = true;
  update_enabled = true;
  progress_visible = false;
  is_server_running = true;
  process = record { arguments = []; is_alive = true; starts = 1; signals = [] };
  checks = 0;
  restarts = 0;
  opened = [];
}

destroy-close_event_example :
    ((close_event memory false none running_window).0 ≡ false)
    × (((destroy memory none (close_event memory true none running_window).1).process.is_alive
          ≡ false)
        ⊎ (get_elem?
              (destroy memory none (close_event memory true none running_window).1).process.signals
              0
            ≡ some kill))
    × (load_form memory
          (destroy memory none (close_event memory true none running_window).1).settings
        ≡ full_form)
destroy-close_event_example = destroy-close_event memory true none none running_window (record {
  start_button = refl;
  stop_button = refl;
  restart_button = refl;
  process = (λ e. refl);
  numbers = omega arith;
})

abbrev stopped_window : Window (Map Text Variant)
stopped_window = record running_window { is_server_running = false }

main-on_start_server_example :
    main 0 (on_start_server memory true stopped_window).process.arguments
    ≡ (print_banner ∷ run_demo ∷ [], 0)
main-on_start_server_example = main-on_start_server memory true 0 stopped_window refl

abbrev early_window : Window (Map Text Variant)
early_window =
    Events.steps memory
      (Events.restart none ∷ Events.finished (pos 9) ∷ Events.restart_timer true ∷ [])
      running_window

abbrev late_window : Window (Map Text Variant)
late_window =
    Events.steps memory
      (Events.restart none ∷ Events.restart_timer true ∷ Events.finished (pos 9) ∷ [])
      running_window

steps-restart_example :
    (early_window.is_server_running ≡ true)
    × (early_window.process.starts ≡ 1 + 1)
    × (late_window.is_server_running ≡ false)
    × (late_window.process.starts ≡ 1)
    × (late_window.restarts ≡ 0)
steps-restart_example = steps-restart memory (pos 9) running_window refl refl refl

-- Ctrl+S stands at two entries.
shared_keys :
    (activated (codes "Ctrl+S") menu ≡ none)
    × (activated (codes "Ctrl+U") menu ≡ some on_check_update)
unfolding activated menu text_eq
shared_keys = (refl, refl)

-- What the label of a new window shows.
first_status : (make_launcher memory []).status ≡ codes "Ready - vv0.2.0"
unfolding make_launcher codes on_load_config append_line current_version
first_status = refl
