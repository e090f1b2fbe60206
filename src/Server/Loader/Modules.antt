-- ===== src/Server/Loader/Modules.antt =====
-- What the loader promises: no library is left open, and the modules stay apart.
use mcx.Prelude.{
  ◌+◌, ◌-◌, ◌≡◌, refl, sym, ap, ◌∙◌, inl, inr, Option, none, some, List, [], ◌∷◌, ◌++◌, map, arith,
  ◌==◌, Bool-cases, length, length-append, append_nil, All, All-append, nat_eq, text_eq, text_key,
}
use mcx.Prelude.Text.{Text}
use mathlib.Core.List.{reverse, reverse-cons, append_assoc}
use mcx.Events.{Event, Action}
use mcx.Server.Loader.{
  ModuleInfo, module_api_version, Opened, created, missing, not_loadable, no_export, null_instance,
  ModuleFunctions, LoadedModule, ModuleLoader, accept, load_opened, load_module, take_named,
  unload_module, close_each, unload_all, dispatch_each, dispatch_event, get_loaded_modules,
}

module _ {State : Type 0} where
  -- One open library for each module, and each module speaks the version of the server.
  pub record IsValid (loader : ModuleLoader State) : Type 0 where
    pub handles : loader.open_handles ≡ length loader.modules
    pub versions :
        All (λ (m : LoadedModule State). m.info.api_version ≡ module_api_version) loader.modules

  abbrev IsCurrent : LoadedModule State → Type 0
  IsCurrent m = m.info.api_version ≡ module_api_version

module _ {State : Type 0} (functions : ModuleFunctions State) where
  open functions use {get_info, on_load, on_unload, on_event}

  accept-IsValid :
      (path : Text) (state : State) (loader : ModuleLoader State)
      → IsValid loader
      → IsValid (accept functions path state loader).1
  unfolding accept
  accept-IsValid path state loader v =
      let added : LoadedModule State = record {
        path = path;
        instance_ = (on_load state).0;
        info = get_info state;
      } in
      elim (Bool-cases ((get_info state).api_version == module_api_version)) [
        | inl current ↦ elim (Bool-cases (on_load state).1) [
          | inl done ↦
              rw (current, done)
                (record {
                  handles = omega (arith, length-append loader.modules (added ∷ []), v.handles);
                  versions =
                      All-append IsCurrent loader.modules (added ∷ []) v.versions
                        (ground (arith, current), tt);
                })
          | inr failed ↦ rw (current, failed) v
        ]
        | inr old ↦ rw old v
      ]

  -- Loading a module, whether it succeeds or fails at any of its steps, leaves one library open for
  -- each module, and no module of another version.
  load_module-IsValid :
      (library : Text → Opened State) (path : Text) (loader : ModuleLoader State)
      → IsValid loader
      → IsValid (load_module functions library path loader).1
  unfolding load_module
  load_module-IsValid library path loader v = go (library path)
    where
      go : (o : Opened State) → IsValid (load_opened functions path loader o).1
      go missing = v
      go not_loadable = v
      go no_export = v
      go null_instance = v
      go (created state) = accept-IsValid path state loader v

  -- What was found, and what is left: one module less, and nothing new.
  abbrev Taken :
      List (LoadedModule State) → Option (LoadedModule State × List (LoadedModule State)) → Type 0
  Taken mods none = Unit
  Taken mods (some (found, kept)) = (length mods ≡ length kept + 1) × All IsCurrent kept

  take_named-Taken :
      (name : Text) (mods : List (LoadedModule State))
      → All IsCurrent mods
      → Taken mods (take_named functions name mods)
  unfolding take_named
  take_named-Taken name [] c = tt
  take_named-Taken name (m ∷ mods) c = elim (Bool-cases (text_eq m.info.name name)) [
    | inl hit ↦ rw hit (omega arith, c.1)
    | inr miss ↦ rw miss (go (take_named functions name mods) (take_named-Taken name mods c.1))
  ]
    where
      go :
          (o : Option (LoadedModule State × List (LoadedModule State)))
          → Taken mods o
          → Taken (m ∷ mods) (elim o [ none ↦ none | some (found, kept) ↦ some (found, m ∷ kept) ])
      go none t = tt
      go (some (found, kept)) t = (omega (arith, t.0), (c.0, t.1))

  unload_module-IsValid :
      (name : Text) (loader : ModuleLoader State)
      → IsValid loader
      → IsValid (unload_module functions name loader)
  unfolding unload_module
  unload_module-IsValid name loader v =
      go (take_named functions name loader.modules) refl
        (take_named-Taken name loader.modules v.versions)
    where
      go :
          (o : Option (LoadedModule State × List (LoadedModule State)))
          → take_named functions name loader.modules ≡ o
          → Taken loader.modules o
          → IsValid (unload_module functions name loader)
      go none e t = rw (e, unload_module) v
      go (some (found, kept)) e t =
          rw (e, unload_module) (record { handles = omega (arith, t.0, v.handles); versions = t.1 })

  close_each-count :
      (mods : List (LoadedModule State)) (loader : ModuleLoader State)
      → ((close_each functions mods loader).open_handles ≡ loader.open_handles - length mods)
        × ((close_each functions mods loader).unloaded
            ≡ reverse (map (λ (m : LoadedModule State). on_unload m.instance_) mods)
              ++ loader.unloaded)
  unfolding close_each
  close_each-count [] loader = (omega arith, refl)
  close_each-count (m ∷ mods) loader =
      let last = on_unload m.instance_ in
      let rest = close_each-count mods (record loader {
        open_handles = loader.open_handles - 1;
        unloaded = last ∷ loader.unloaded;
      }) in
      let ends = map (λ (m : LoadedModule State). on_unload m.instance_) mods in
      (
        omega (arith, rest.0),
        rest.1
            ∙ sym (
                ap (λ (l : List State). l ++ loader.unloaded) (reverse-cons last ends)
                ∙ append_assoc (reverse ends) (last ∷ []) loader.unloaded),
      )

  -- Unloading all modules closes every library, empties the list, and has called OnUnload once for
  -- each module, in the order in which they were loaded.
  unload_all_lem :
      (loader : ModuleLoader State)
      → IsValid loader
      → ((unload_all functions loader).open_handles ≡ 0)
        × ((unload_all functions loader).modules ≡ [])
        × ((unload_all functions loader).unloaded
            ≡ reverse (map (λ (m : LoadedModule State). on_unload m.instance_) loader.modules)
              ++ loader.unloaded)
  unfolding unload_all
  unload_all_lem loader v =
      let all = close_each-count loader.modules loader in
      (omega (arith, all.0, v.handles), refl, all.1)

  -- An event changes no module but its state, so the same modules stay loaded, whichever of them
  -- throw.
  abbrev infos : List (LoadedModule State) → List ModuleInfo
  infos mods = map (λ (m : LoadedModule State). m.info) mods

  dispatch_each-infos :
      (event : Event) (mods : List (LoadedModule State)) (actions : List Action)
      → infos (dispatch_each functions event mods actions).0 ≡ infos mods
  unfolding dispatch_each
  dispatch_each-infos event [] actions = refl
  dispatch_each-infos event (m ∷ mods) actions = ap (◌∷◌ m.info) (dispatch_each-infos event mods _)

  -- The actions of a module come behind those that it was given.
  abbrev pub Appends : Type 0
  Appends =
      (event : Event) (state : State) (actions : List Action)
      → (more : List Action) × ((on_event event state actions).1 ≡ actions ++ more)

  dispatch_each-appends :
      Appends
      → (event : Event) (mods : List (LoadedModule State)) (actions : List Action)
      → (more : List Action) × ((dispatch_each functions event mods actions).1 ≡ actions ++ more)
  unfolding dispatch_each
  dispatch_each-appends h event [] actions = ([], sym (append_nil actions))
  dispatch_each-appends h event (m ∷ mods) actions =
      let one = h event m.instance_ actions in
      let rest = dispatch_each-appends h event mods (on_event event m.instance_ actions).1 in
      (
        one.0 ++ rest.0,
        rest.1 ∙ ap (λ (l : List Action). l ++ rest.0) one.1 ∙ append_assoc actions one.0 rest.0,
      )

  -- Where each module only adds actions, an event only adds actions to those of the script runtime,
  -- and the loaded modules stay the same, also where modules throw.
  dispatch_event-appends :
      Appends
      → (event : Event) (loader : ModuleLoader State) (actions : List Action)
      → ((more : List Action) × ((dispatch_event functions event loader actions).1
            ≡ actions ++ more))
        × (get_loaded_modules functions (dispatch_event functions event loader actions).0
            ≡ get_loaded_modules functions loader)
  unfolding dispatch_event get_loaded_modules
  dispatch_event-appends h event loader actions = (
    dispatch_each-appends h event loader.modules actions,
    dispatch_each-infos event loader.modules actions,
  )
