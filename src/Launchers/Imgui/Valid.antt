-- ===== src/Launchers/Imgui/Valid.antt =====
-- What holds in the launcher between two turns of its threads.
use mcx.Prelude.{
  ◌+◌, ◌≡◌, refl, ap, sym, ◌∙◌, true, false, if_either, if_split, is_empty, some, List, [], ◌∷◌,
  arith, inl, inr, weigh-append, Option-cases,
}
use mcx.Prelude.Text.{Text, codes}
use mcx.Launchers.Imgui.Ensures.{Ensures, Ensures->>=, Ensures_some}
use mcx.Launchers.Imgui.Config.{load_config}
use mcx.Launchers.Imgui.Console.{Launcher, append_console}
use mcx.Launchers.Imgui.System.{
  System, counts, save, load, start_server, stop_server, check_for_updates,
}
use mcx.Launchers.Imgui.Ui.{
  Action, start_item, stop_item, check_item, exit_item, clear_item, save_item, load_item,
  about_item, clear_button, send_button, start_button, stop_button, restart_button, download_button,
  check_button, edit_config, save_button, load_button, close_button, user, server, update, clock,
  Turn, clear, on_launcher, load_in, download, send_line, if_stopped, if_running, if_idle, restart,
  act, step, steps,
}
use mcx.Launchers.Imgui.Sound.{
  IsValid, IsSound, Steady, append_console-Steady, IsValid-IsSound, turn_update-IsValid,
  Steady-IsValid, turn_server-IsValid, live, flag,
}

start_server-IsValid : (s : System) → IsValid s → IsValid (start_server s)
unfolding start_server save
start_server-IsValid s v = if_either IsValid s.launcher.server_running v (
    Steady-IsValid s _ _ v
      (append_console-Steady _ _ _ (record { lines = v.console; percent = v.progress })))

stop_server-IsValid : (s : System) → IsValid s → IsValid (stop_server s)
unfolding stop_server
stop_server-IsValid s v =
    let (one, flag_one) : Steady s.launcher _ =
      append_console-Steady (codes "Stopping server...") (codes "yellow")
        (record s.launcher { server_running = false })
        (record { lines = v.console; percent = v.progress }) in
    let (two, flag_two) = append_console-Steady (codes "Server stopped") (codes "green") _ one in
    if_either IsValid s.launcher.server_running
      (Steady-IsValid s _ s.server_threads v (two, flag_two ∙ flag_one)) v

check_for_updates-IsValid : (s : System) → IsValid s → IsValid (check_for_updates s)
unfolding check_for_updates
check_for_updates-IsValid s v =
    if_split IsValid s.launcher.checking_update (λ _. v)
      λ idle.
        let l : Launcher = record s.launcher {
          checking_update = true;
          update_progress = 0;
          update_available = false;
        } in
        let (sound, same) =
          append_console-Steady (codes "Checking for updates...") (codes "yellow") l
            (record { lines = v.console; percent = omega arith }) in
        record {
          console = sound.lines;
          progress = sound.percent;
          one_check =
              weigh-append live s.update_threads (counts 0 ∷ [])
              ∙ ap (λ n. n + 1) (v.one_check ∙ ap flag idle)
              ∙ ap flag (sym same);
        }

-- A change that keeps the members sound and the flag as it is.
on_launcher-IsValid :
    (f : Launcher → Launcher) (s : System)
    → Steady s.launcher (f s.launcher)
    → IsValid s
    → IsValid (on_launcher f s)
unfolding on_launcher
on_launcher-IsValid f s h v = Steady-IsValid s (f s.launcher) s.server_threads v h

send_line-Steady : (command : Text) (l : Launcher) → IsSound l → Steady l (send_line command l)
unfolding send_line
send_line-Steady command l h =
    if_either (Steady l) (is_empty command) (h, refl) (append_console-Steady _ _ l h)

download-Steady : (l : Launcher) → IsSound l → Steady l (download l)
unfolding download
download-Steady l h =
    if_either (Steady l) l.checking_update (h, refl)
      (if_either (Steady l) l.update_available
        (record { lines = h.lines; percent = h.percent }, refl) (h, refl))

-- A load that succeeds changes the configuration only.
load_in-IsValid : (s : System) → IsValid s → Ensures IsValid (load_in s)
unfolding load_in load
load_in-IsValid s v = elim (Option-cases (load_config s.launcher.file s.launcher.config)) [
  | inl fault ↦ rw (fault, load_in, load) tt
  | inr (c, e) ↦
      rw (e, load_in, load)
        (Steady-IsValid s (record s.launcher { config = c }) s.server_threads v
          (record { lines = v.console; percent = v.progress }, refl))
]

act-IsValid : (a : Action) (s : System) → IsValid s → Ensures IsValid (act a s)
unfolding act if_stopped if_running if_idle restart clear on_launcher save
act-IsValid start_item s v = if_either IsValid _ v (start_server-IsValid s v)
act-IsValid stop_item s v = if_either IsValid _ (stop_server-IsValid s v) v
act-IsValid check_item s v = check_for_updates-IsValid s v
act-IsValid exit_item s v = record {
  console = v.console;
  progress = v.progress;
  one_check = v.one_check;
}
act-IsValid clear_item s v = record {
  console = omega arith;
  progress = v.progress;
  one_check = v.one_check;
}
act-IsValid save_item s v = record {
  console = v.console;
  progress = v.progress;
  one_check = v.one_check;
}
act-IsValid load_item s v = load_in-IsValid s v
act-IsValid about_item s v = record {
  console = v.console;
  progress = v.progress;
  one_check = v.one_check;
}
act-IsValid clear_button s v = record {
  console = omega arith;
  progress = v.progress;
  one_check = v.one_check;
}
act-IsValid (send_button command) s v =
    on_launcher-IsValid (send_line command) s
      (send_line-Steady command s.launcher (IsValid-IsSound s v)) v
act-IsValid start_button s v = if_either IsValid _ v (start_server-IsValid s v)
act-IsValid stop_button s v = if_either IsValid _ (stop_server-IsValid s v) v
act-IsValid restart_button s v = start_server-IsValid _ (stop_server-IsValid s v)
act-IsValid download_button s v =
    on_launcher-IsValid download s (download-Steady s.launcher (IsValid-IsSound s v)) v
act-IsValid check_button s v = if_either IsValid _ v (check_for_updates-IsValid s v)
act-IsValid (edit_config c) s v = record {
  console = v.console;
  progress = v.progress;
  one_check = v.one_check;
}
act-IsValid save_button s v =
    on_launcher-IsValid
      (λ l. append_console (codes "Configuration saved!") (codes "green") (save l)) s
      (append_console-Steady _ _ _ (record { lines = v.console; percent = v.progress })) v
act-IsValid load_button s v = Ensures->>= IsValid IsValid (load_in s) _ (load_in-IsValid s v) λ t w.
    on_launcher-IsValid (append_console (codes "Configuration loaded!") (codes "green")) t
      (append_console-Steady _ _ t.launcher (IsValid-IsSound t w)) w
act-IsValid close_button s v = record {
  console = v.console;
  progress = v.progress;
  one_check = v.one_check;
}

step-IsValid : (t : Turn) (s : System) → IsValid s → Ensures IsValid (step t s)
unfolding step on_launcher
step-IsValid (user a) s v = act-IsValid a s v
step-IsValid (server k) s v = turn_server-IsValid k s v
step-IsValid (update k) s v = turn_update-IsValid k s v
step-IsValid (clock n) s v = record {
  console = v.console;
  progress = v.progress;
  one_check = v.one_check;
}

steps-Ensures : (ts : List Turn) (s : System) → IsValid s → Ensures IsValid (steps ts s)
unfolding steps
steps-Ensures [] s v = v
steps-Ensures (t ∷ ts) s v =
    Ensures->>= IsValid IsValid (step t s) (steps ts) (step-IsValid t s v) (steps-Ensures ts)

-- Where no other access to the console comes between those of one AppendConsole: from a system in
-- which it holds, any turns of the user and of the threads that are defined lead to
-- one in which the console has at most 1000 lines, the progress is at most 100, and the threads of
-- CheckForUpdates that have not ended are one where `checking_update_` is set, and none where it is
-- not.
steps-IsValid :
    (ts : List Turn) (s : System) {u : System} → steps ts s ≡ some u → IsValid s → IsValid u
steps-IsValid ts s h v = Ensures_some IsValid (steps ts s) h (steps-Ensures ts s v)
