-- ===== src/Tests/Program.antt =====
-- The frames of the server, the demo and the backups at concrete inputs.
use mcx.Prelude.{
  ℕ, ◌+◌, ◌≡◌, refl, Bool, true, false, none, some, List, [], ◌∷◌, arith, ltb, text_eq, text_key,
}
use mcx.Prelude.Text.{Text}
use mcx.Maps.{Map, lookup}
use mcx.Server.Loader.{ModuleFunctions}
use mcx.Server.Tasks.{ScheduledTask}
use mcx.Server.Core.{Server, make_server}
use mcx.Server.Loop.{main_loop}
use mcx.Server.Loop.Stuck.{in_each, main_loop_stuck}
use mcx.Server.Demo.{demo_config}
use mcx.Backups.{Disk, Files, initial, backup_now, restore_backup}
use mcx.Backups.Restore.{restore_backup-backup_now}
use mcx.Tests.Samples.{alice, bob, carol}

-- A task adds its number to the world, and throws where it is above 10.
abbrev add_up : ℕ → ℕ → ℕ × Bool
add_up n world = (world + n, ltb 10 n)

abbrev functions : ModuleFunctions ℕ
functions = record {
  get_info = (λ n. record { name = alice; version = []; author = []; api_version = 1 });
  on_load = (λ n. (n, true));
  on_unload = (λ n. n);
  on_event = (λ event n actions. (n, actions, false));
}

abbrev demo_server : Server ℕ ℕ
unfolding make_server
demo_server = make_server demo_config

abbrev at_time : ℕ → ℕ → ScheduledTask ℕ
at_time t n = record { when = t; what = n }

abbrev busy_server : Server ℕ ℕ
busy_server = record demo_server { running = true; scheduler = at_time 5 20 ∷ at_time 1 1 ∷ [] }

abbrev frames : List (ℕ × Bool)
frames = (6, false) ∷ (7, false) ∷ []

-- A task that always throws.
abbrev fail : ℕ → ℕ → ℕ × Bool
fail n world = (world + n, true)

main_loop_stuck_example :
    main_loop fail frames busy_server 0 ≡ (busy_server, in_each fail frames 20 0)
main_loop_stuck_example =
    main_loop_stuck fail frames busy_server (at_time 5 20) (at_time 1 1 ∷ []) 0 refl refl
      (λ world. refl) ((omega arith, refl), ((omega arith, refl), tt))

-- Two backups, in the order of their names, and a sort for this list.
abbrev directory : Map Text ℕ
directory = (alice, 1) ∷ (bob, 2) ∷ []

abbrev as_it_is : List Text → List Text
as_it_is list = list

abbrev files : Files ℕ
files = record {
  creates = true;
  copies = (λ tree there. (true, some tree));
  removes = (λ tree. (true, none));
}

abbrev disk : Disk ℕ
disk = record { world = some 7; backups = some directory }

carol-missing : lookup carol directory ≡ none
unfolding lookup text_eq
carol-missing = refl

restore_backup-backup_now_example :
    ((backup_now as_it_is files initial carol disk).0 ≡ true)
    × ((restore_backup files carol
          (record (backup_now as_it_is files initial carol disk).1 { world = some 8 })).world
        ≡ some 7)
restore_backup-backup_now_example =
    restore_backup-backup_now as_it_is files initial carol disk 7 directory (some 8) refl refl
      carol-missing (omega arith) refl (λ w e. refl)
