-- ===== src/Server/Loader.antt =====
-- src/core/module_loader.cpp. What a module does is a parameter: its state is a value of `State`, and
-- its functions act on it. The dynamic linker is the function `open`; `open_handles` counts the
-- libraries that are open, which the source leaves to the linker, and `unloaded` holds the states in
-- which modules were left by their OnUnload.
pub mod Modules
use mcx.Prelude.{
  ℕ, ◌+◌, ◌-◌, Bool, true, false, not, Option, none, some, List, [], ◌∷◌, ◌++◌, map, ◌==◌,
  if◌then◌else◌, Eq, nat_eq, text_eq, text_key,
}
use mcx.Prelude.Text.{Text}
use mcx.Events.{Event, Action}

pub record ModuleInfo : Type 0 where
  pub name : Text
  pub version : Text
  pub author : Text
  pub api_version : ℕ

abbrev pub module_api_version : ℕ
module_api_version = 1

-- How far opening a library and creating its module gets.
pub data Opened (State : Type 0) : Type 0 where
  missing not_loadable no_export null_instance : Opened State
  created : State → Opened State

-- IModule; `on_event` also tells whether it threw, after what it did.
pub record ModuleFunctions (State : Type 0) : Type 0 where
  pub get_info : State → ModuleInfo
  pub on_load : State → State × Bool
  pub on_unload : State → State
  pub on_event : Event → State → List Action → State × List Action × Bool

pub record LoadedModule (State : Type 0) : Type 0 where
  pub path : Text
  pub instance_ : State
  pub info : ModuleInfo

pub record ModuleLoader (State : Type 0) : Type 0 where
  pub modules : List (LoadedModule State)
  pub open_handles : ℕ
  pub unloaded : List State

module _ {State : Type 0} (functions : ModuleFunctions State) where
  open functions use {get_info, on_load, on_unload, on_event}

  -- After the instance is created: the version, `OnLoad`, and the place in the list. Each failure
  -- closes the library again.
  unfoldable pub accept : Text → State → ModuleLoader State → Bool × ModuleLoader State
  accept path state loader =
      let info = get_info state in
      let (loaded, done) = on_load state in
      if not (info.api_version == module_api_version)
      then (false, loader)
      else if not done
      then (false, loader)
      else (
        true,
        record loader {
          modules =
              loader.modules ++ (record { path = path; instance_ = loaded; info = info } ∷ []);
          open_handles = loader.open_handles + 1;
        },
      )

  -- Each early return of LoadModule leaves the loader alone.
  unfoldable pub load_opened : Text → ModuleLoader State → Opened State → Bool × ModuleLoader State
  unfolding accept
  load_opened path loader missing = (false, loader)
  load_opened path loader not_loadable = (false, loader)
  load_opened path loader no_export = (false, loader)
  load_opened path loader null_instance = (false, loader)
  load_opened path loader (created state) = accept path state loader

  unfoldable pub load_module :
      (Text → Opened State) → Text → ModuleLoader State → Bool × ModuleLoader State
  unfolding load_opened
  load_module open_library path loader = load_opened path loader (open_library path)

  -- `find_if`: the first module of that name, and the list without it.
  unfoldable pub take_named :
      Text → List (LoadedModule State) → Option (LoadedModule State × List (LoadedModule State))
  take_named name [] = none
  take_named name (mod_ ∷ rest) =
      let later = take_named name rest in
      if text_eq mod_.info.name name
      then some (mod_, rest)
      else elim later [ none ↦ none | some (found, kept) ↦ some (found, mod_ ∷ kept) ]

  unfoldable pub unload_module : Text → ModuleLoader State → ModuleLoader State
  unfolding take_named
  unload_module name loader = elim (take_named name loader.modules) [
    | none ↦ loader
    | some (found, kept) ↦ record {
      modules = kept;
      open_handles = loader.open_handles - 1;
      unloaded = on_unload found.instance_ ∷ loader.unloaded;
    }
  ]

  -- Each turn of the loop calls `OnUnload` and closes one library.
  unfoldable pub close_each : List (LoadedModule State) → ModuleLoader State → ModuleLoader State
  close_each [] loader = loader
  close_each (mod_ ∷ rest) loader = close_each rest (record loader {
    open_handles = loader.open_handles - 1;
    unloaded = on_unload mod_.instance_ ∷ loader.unloaded;
  })

  unfoldable pub unload_all : ModuleLoader State → ModuleLoader State
  unfolding close_each
  unload_all loader = record (close_each loader.modules loader) { modules = [] }

  -- The loop of DispatchEvent: a module that throws is passed over, with what it did.
  unfoldable pub dispatch_each :
      Event → List (LoadedModule State) → List Action → List (LoadedModule State) × List Action
  dispatch_each event [] actions = ([], actions)
  dispatch_each event (mod_ ∷ rest) actions =
      let (state, actions', threw) = on_event event mod_.instance_ actions in
      let (rest', actions'') = dispatch_each event rest actions' in
      (record mod_ { instance_ = state } ∷ rest', actions'')

  unfoldable pub dispatch_event :
      Event → ModuleLoader State → List Action → ModuleLoader State × List Action
  unfolding dispatch_each
  dispatch_event event loader actions =
      let (modules, actions') = dispatch_each event loader.modules actions in
      (record loader { modules = modules }, actions')

  unfoldable pub get_loaded_modules : ModuleLoader State → List ModuleInfo
  get_loaded_modules loader = map (λ mod_. mod_.info) loader.modules
