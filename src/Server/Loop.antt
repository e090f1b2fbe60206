-- ===== src/Server/Loop.antt =====
-- Run, MainLoop, Update and LoadModules of src/core/server.cpp. What a task does, the linker, and what the
-- directory of modules holds are parameters; a frame is its time with the answer of ShouldShutdown.
pub mod Stuck
use mcx.Prelude.{ℕ, Bool, true, not, ◌&&◌, Option, none, some, List, [], ◌∷◌, if◌then◌else◌}
use mcx.Prelude.Text.{Text}
use mcx.Server.Core.{Server}
use mcx.Server.Tasks.{update}
use mcx.Server.Loader.{Opened, ModuleFunctions, ModuleLoader, load_module}

module _ {State Task World : Type 0} (run_task : Task → World → World × Bool) where
  -- The third part tells that a task threw.
  unfoldable pub update_server : ℕ → Server State Task → World → Server State Task × World × Bool
  update_server now server w =
      let (tasks, w', threw) = update run_task now server.scheduler w in
      (record server { scheduler = tasks }, w', threw)

  -- An exception of a frame is logged, and the loop goes on.
  unfoldable pub main_loop : List (ℕ × Bool) → Server State Task → World → Server State Task × World
  unfolding update_server
  main_loop [] server w = (server, w)
  main_loop ((now, shutdown) ∷ frames) server w =
      let (server', w', threw) = update_server now server w in
      let rest = main_loop frames server' w' in
      if server.running && not shutdown then rest else (server, w)

  module _ (functions : ModuleFunctions State) (open_library : Text → Opened State) where
    -- `none` is a path that does not exist; `is_library` is the test of the extension.
    unfoldable pub load_each : (Text → Bool) → List Text → ModuleLoader State → ModuleLoader State
    load_each is_library [] loader = loader
    load_each is_library (entry ∷ entries) loader =
        load_each is_library entries
          (if is_library entry then (load_module functions open_library entry loader).1 else loader)

    unfoldable pub load_modules :
        (Text → Bool) → Option (List Text) → Server State Task → Server State Task
    unfolding load_each
    load_modules is_library none server = server
    load_modules is_library (some entries) server = record server {
      module_loader = load_each is_library entries server.module_loader;
    }

    unfoldable pub run_server :
        (Text → Bool)
        → Option (List Text)
        → List (ℕ × Bool)
        → Server State Task
        → World
        → Server State Task × World
    unfolding load_modules main_loop
    run_server is_library entries frames server w =
        main_loop frames (load_modules is_library entries (record server { running = true })) w
