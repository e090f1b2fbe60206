-- ===== src/Launchers/Imgui/System.antt =====
-- The threads of the launcher: the window's, those of StartServer and those of CheckForUpdates. One
-- turn is one access to the members that they share; the code takes no lock.
use mcx.Prelude.{
  ℕ, suc, ◌+◌, true, false, not, ◌&&◌, Option, none, some, List, [], ◌∷◌, ◌++◌, ltb, leb,
  if◌then◌else◌, text_eq, text_key,
}
use mcx.Prelude.Text.{codes}
use mcx.Prelude.Decimal.{int_text, to_string}
use mcx.Launchers.Imgui.Config.{save_config, load_config}
use mcx.Launchers.Imgui.Console.{Launcher, version, append_console}

-- Where a thread of StartServer stands: before the two lines, at the test of the loop in a round, in
-- the sleep, at the test behind it, before the line of the heartbeat, or at its end.
pub data ServerThread : Type 0 where
  says_started says_port : ServerThread
  tests sleeps wakes says_beat : ℕ → ServerThread
  ended : ServerThread

-- Where a thread of CheckForUpdates stands: at the test of the loop, in the sleep, before each of
-- the lines behind the loop, or at its end.
pub data UpdateThread : Type 0 where
  counts waits : ℕ → UpdateThread
  names_version names_url compares reports lowers done : UpdateThread

pub record System : Type 0 where
  pub launcher : Launcher
  pub server_threads : List ServerThread
  pub update_threads : List UpdateThread

unfoldable pub server_turn : ServerThread → Launcher → ServerThread × Launcher
server_turn says_started l =
    (says_port, append_console (codes "Server started successfully!") (codes "green") l)
server_turn says_port l = (
  tests 0,
  append_console (codes "Listening on port " ++ int_text l.config.port) (codes "green") l,
)
server_turn (tests i) l = ((if ltb i 5 && l.server_running then sleeps i else ended), l)
server_turn (sleeps i) l = (wakes i, l)
server_turn (wakes i) l = ((if l.server_running then says_beat i else tests (suc i)), l)
server_turn (says_beat i) l =
    (tests (suc i), append_console (codes "Heartbeat " ++ to_string (suc i)) (codes "white") l)
server_turn ended l = (ended, l)

unfoldable pub update_turn : UpdateThread → Launcher → UpdateThread × Launcher
update_turn (counts i) l =
    if leb i 100 && l.checking_update
    then (waits i, record l { update_progress = i })
    else (names_version, l)
update_turn (waits i) l = (counts (i + 5), l)
update_turn names_version l = (names_url, record l { latest_version = codes "v0.4.0" })
update_turn names_url l = (
  compares,
  record l { download_url = codes "https://github.com/alanparesys/MCX/releases/latest" },
)
update_turn compares l =
    (reports, record l { update_available = not (text_eq l.latest_version version) })
update_turn reports l = (
  lowers,
  (if l.update_available
      then append_console (codes "Update available: " ++ l.latest_version) (codes "yellow") l
      else append_console (codes "Up to date!") (codes "green") l),
)
update_turn lowers l = (done, record l { checking_update = false })
update_turn done l = (done, l)

unfoldable pub save : Launcher → Launcher
save l = record l { file = save_config l.is_writable l.config l.file }

-- LoadConfig; `none` is a write past the end of an array.
unfoldable pub load : Launcher → Option Launcher
load l = elim (load_config l.file l.config) [
  | none ↦ none
  | some c ↦ some (record l { config = c })
]

unfoldable pub start_server : System → System
start_server s = if s.launcher.server_running then s else record s {
  launcher =
      append_console (codes "Starting MCX Server...") (codes "yellow")
        (record (save s.launcher) { server_running = true });
  server_threads = s.server_threads ++ (says_started ∷ []);
}

unfoldable pub stop_server : System → System
stop_server s =
    if s.launcher.server_running
    then record s {
      launcher = append_console (codes "Server stopped") (codes "green") (
          append_console (codes "Stopping server...") (codes "yellow")
            (record s.launcher { server_running = false }));
    }
    else s

unfoldable pub check_for_updates : System → System
check_for_updates s = if s.launcher.checking_update then s else record s {
  launcher =
      append_console (codes "Checking for updates...") (codes "yellow") (record s.launcher {
        checking_update = true;
        update_progress = 0;
        update_available = false;
      });
  update_threads = s.update_threads ++ (counts 0 ∷ []);
}
