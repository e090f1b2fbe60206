-- ===== src/Launchers/Imgui/Ui.antt =====
-- The menu, the panels and the dialog: what each control does. A frame is the turns that the user
-- and the threads take in it.
use mcx.Prelude.{
  ℕ, Bool, true, false, ◌||◌, Option, none, some, List, [], ◌∷◌, ◌++◌, if◌then◌else◌, get_elem?,
  set, take, is_empty,
}
use mcx.Prelude.Do.{◌>>=◌}
use mcx.Prelude.Text.{Text, codes}
use mcx.Launchers.Imgui.Config.{Config}
use mcx.Launchers.Imgui.Console.{Launcher, append_console}
use mcx.Launchers.Imgui.System.{
  System, server_turn, update_turn, save, load, start_server, stop_server, check_for_updates,
}

-- The controls: the items of the menu bar, the buttons of the console, of the control panel and of
-- the configuration, its input fields, and the button of the dialog.
pub data Action : Type 0 where
  start_item stop_item check_item exit_item clear_item save_item load_item about_item : Action
  clear_button : Action
  send_button : Text → Action
  start_button stop_button restart_button download_button check_button : Action
  edit_config : Config → Action
  save_button load_button close_button : Action

unfoldable pub clear : Launcher → Launcher
clear l = record l { console_lines = [] }

unfoldable pub on_launcher : (Launcher → Launcher) → System → System
on_launcher f s = record s { launcher = f s.launcher }

-- A field keeps what fits its array.
unfoldable pub cut_config : Config → Config
cut_config c = record c {
  server_name = take 127 c.server_name;
  bind_ip = take 63 c.bind_ip;
  rcon_password = take 127 c.rcon_password;
}

unfoldable pub load_in : System → Option System
load_in s = elim (load s.launcher) [ none ↦ none | some l ↦ some (record s { launcher = l }) ]

-- The button is drawn where an update is available and no check runs.
unfoldable pub download : Launcher → Launcher
download l =
    if l.checking_update
    then l
    else if l.update_available
    then record l {
      commands = l.commands ++ ((codes "xdg-open \"" ++ (l.download_url ++ codes "\"")) ∷ []);
    }
    else l

unfoldable pub send_line : Text → Launcher → Launcher
send_line command l =
    if is_empty command then l else append_console (codes "> " ++ command) (codes "yellow") l

-- The guards of the controls.
unfoldable pub if_stopped : (System → System) → System → System
if_stopped f s = if s.launcher.server_running then s else f s

unfoldable pub if_running : (System → System) → System → System
if_running f s = if s.launcher.server_running then f s else s

unfoldable pub if_idle : (System → System) → System → System
if_idle f s = if s.launcher.checking_update then s else f s

unfoldable pub restart : System → System
restart s = start_server (stop_server s)

unfoldable pub act : Action → System → Option System
act start_item s = some (if_stopped start_server s)
act stop_item s = some (if_running stop_server s)
act check_item s = some (check_for_updates s)
act exit_item s = some (on_launcher (λ l. record l { should_exit = true }) s)
act clear_item s = some (on_launcher clear s)
act save_item s = some (on_launcher save s)
act load_item s = load_in s
act about_item s = some (on_launcher (λ l. record l { show_update_dialog = true }) s)
act clear_button s = some (on_launcher clear s)
act (send_button command) s = some (on_launcher (send_line command) s)
act start_button s = some (if_stopped start_server s)
act stop_button s = some (if_running stop_server s)
act restart_button s = some (restart s)
act download_button s = some (on_launcher download s)
act check_button s = some (if_idle check_for_updates s)
act (edit_config c) s = some (on_launcher (λ l. record l { config = cut_config c }) s)
act save_button s =
    some
      (on_launcher (λ l. append_console (codes "Configuration saved!") (codes "green") (save l)) s)
act load_button s = load_in s >>= λ t.
    some (on_launcher (append_console (codes "Configuration loaded!") (codes "green")) t)
act close_button s = some (on_launcher (λ l. record l { show_update_dialog = false }) s)

-- A thread that does not exist takes no turn.
unfoldable pub turn_server : ℕ → System → System
turn_server k s = elim (get_elem? s.server_threads k) [
  | none ↦ s
  | some t ↦ record s {
    launcher = (server_turn t s.launcher).1;
    server_threads = set s.server_threads k (server_turn t s.launcher).0;
  }
]

unfoldable pub turn_update : ℕ → System → System
turn_update k s = elim (get_elem? s.update_threads k) [
  | none ↦ s
  | some t ↦ record s {
    launcher = (update_turn t s.launcher).1;
    update_threads = set s.update_threads k (update_turn t s.launcher).0;
  }
]

pub data Turn : Type 0 where
  user : Action → Turn
  server update clock : ℕ → Turn

unfoldable pub step : Turn → System → Option System
step (user a) s = act a s
step (server k) s = some (turn_server k s)
step (update k) s = some (turn_update k s)
step (clock n) s = some (on_launcher (λ l. record l { time = n }) s)

unfoldable pub steps : List Turn → System → Option System
steps [] s = some s
steps (t ∷ ts) s = step t s >>= λ u. steps ts u

-- The loop of Run; `wants_close` is what GLFW answers before a frame. It stops at the last frame
-- that is given.
pub record Frame : Type 0 where
  pub wants_close : Bool
  pub turns : List Turn

unfoldable pub run : List Frame → System → Option System
unfolding steps
run [] s = some s
run (f ∷ fs) s =
    let frame = steps f.turns s >>= λ t. run fs t in
    if f.wants_close || s.launcher.should_exit then some s else frame
