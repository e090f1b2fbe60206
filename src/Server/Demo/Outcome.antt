-- ===== src/Server/Demo/Outcome.antt =====
-- What the loop of the demo in src/main.cpp leaves behind.
use mcx.Prelude.{
  ℕ, ◌+◌, ◌%◌, ◌^◌, ◌<◌, ◌≡◌, refl, ap, ◌∙◌, Bool, false, Option, none, some, List, [], ◌∷◌, ◌++◌,
  arith, length, length-append, nat_eq, text_key,
}
use mathlib.Core.Path.{ap₂}
use mcx.Prelude.Text.{Text}
use mcx.Events.{
  Double, PlayerJoinEvent, PlayerQuitEvent, EventType, Event, Action, send_message, broadcast,
  send_title, teleport, set_spawn, load_scene,
}
use mcx.Server.Scenes.Transitions.{last_scene, apply-last_scene}
use mcx.Server.Loader.{ModuleFunctions, ModuleLoader, dispatch_event, dispatch_each}
use mcx.Server.Tasks.{update}
use mcx.Server.Core.{
  ScriptRuntime, Server, on_join, on_quit, track, track_by, count_event, handle_event,
}
use mcx.Server.Loop.{update_server}
use mcx.Server.Demo.{demo_turn, demo_loop}

-- The answers of a runtime to events, in order.
abbrev pub answers : ScriptRuntime → List Event → List Action
answers runtime [] = []
answers runtime (event ∷ events) = runtime event ++ answers runtime events

last_scene-append :
    (name : Text) (a b : List Action) → last_scene (last_scene name a) b ≡ last_scene name (a ++ b)
last_scene-append name [] b = refl
last_scene-append name (load_scene scene ∷ a) b = last_scene-append scene a b
last_scene-append name (send_message p t ∷ a) b = last_scene-append name a b
last_scene-append name (broadcast t ∷ a) b = last_scene-append name a b
last_scene-append name (send_title p t s ∷ a) b = last_scene-append name a b
last_scene-append name (teleport p v ∷ a) b = last_scene-append name a b
last_scene-append name (set_spawn p v ∷ a) b = last_scene-append name a b

mod_small : (n : ℕ) → n < 2 ^ 64 → n ≡ (n + 0) % 2 ^ 64
mod_small n h = omega arith

-- The parts of the server that the count of players and the registry leave alone.
record Keeps {State Task : Type 0} (s t : Server State Task) : Type 0 where
  runtime : t.script_runtime ≡ s.script_runtime
  loader : t.module_loader ≡ s.module_loader
  tasks : t.scheduler ≡ s.scheduler
  scene : t.scene_manager ≡ s.scene_manager
  processed : t.metrics.events_processed ≡ s.metrics.events_processed
  executed : t.metrics.actions_executed ≡ s.metrics.actions_executed

module _ {State Task : Type 0} where
  Keeps-self : (s : Server State Task) → Keeps s s
  Keeps-self s = record {
    runtime = refl;
    loader = refl;
    tasks = refl;
    scene = refl;
    processed = refl;
    executed = refl;
  }

  on_join-Keeps : (join : PlayerJoinEvent) (s : Server State Task) → Keeps s (on_join join s).0
  unfolding on_join
  on_join-Keeps join s = record {
    runtime = refl;
    loader = refl;
    tasks = refl;
    scene = refl;
    processed = refl;
    executed = refl;
  }

  on_quit-Keeps : (quit : PlayerQuitEvent) (s : Server State Task) → Keeps s (on_quit quit s).0
  unfolding on_quit
  on_quit-Keeps quit s = record {
    runtime = refl;
    loader = refl;
    tasks = refl;
    scene = refl;
    processed = refl;
    executed = refl;
  }

  track_by-Keeps :
      (type : EventType) (join : Option PlayerJoinEvent) (quit : Option PlayerQuitEvent)
      (s : Server State Task)
      → Keeps s (track_by type join quit s).0
  unfolding track_by
  track_by-Keeps EventType.player_join none quit s = Keeps-self s
  track_by-Keeps EventType.player_join (some join) quit s = on_join-Keeps join s
  track_by-Keeps EventType.player_quit join none s = Keeps-self s
  track_by-Keeps EventType.player_quit join (some quit) s = on_quit-Keeps quit s
  track_by-Keeps EventType.chat join quit s = Keeps-self s
  track_by-Keeps EventType.command join quit s = Keeps-self s
  track_by-Keeps EventType.scene_loaded join quit s = Keeps-self s

-- A server without modules and tasks, with that runtime, in that scene, with those two counts.
pub record IsAt {State Task : Type 0} (runtime : ScriptRuntime) (name : Text) (m n : ℕ)
    (s : Server State Task) : Type 0 where
  pub script_runtime : s.script_runtime ≡ runtime
  pub modules : s.module_loader.modules ≡ []
  pub tasks : s.scheduler ≡ []
  pub scene : s.scene_manager.current_scene ≡ name
  pub processed : s.metrics.events_processed ≡ m
  pub executed : s.metrics.actions_executed ≡ n

module _ {State Task World : Type 0} (functions : ModuleFunctions State)
    (run_task : Task → World → World × Bool) (double_text : Double → Text) where
  no_modules :
      (event : Event) (loader : ModuleLoader State) (actions : List Action)
      → loader.modules ≡ []
      → ((dispatch_event functions event loader actions).0.modules ≡ [])
        × ((dispatch_event functions event loader actions).1 ≡ actions)
  unfolding dispatch_event dispatch_each
  no_modules event loader actions h = rw (dispatch_event, h) (refl, refl)

  handle_event-IsAt :
      (runtime : ScriptRuntime) (name : Text) (m n : ℕ) (event : Event) (s : Server State Task)
      → IsAt runtime name m n s
      → ((handle_event functions event s).0 ≡ runtime event)
        × IsAt runtime name
            ((m + 1) % 2 ^ 64)
            ((n + length (runtime event)) % 2 ^ 64)
            (handle_event functions event s).1
  unfolding handle_event track
  handle_event-IsAt runtime name m n event s h =
      let k = track_by-Keeps event.type event.player_join event.player_quit (count_event s) in
      let d =
        no_modules event (track event (count_event s)).0.module_loader
          ((track event (count_event s)).0.script_runtime event)
          (ap (λ l. l.modules) k.loader ∙ h.modules) in
      let actions : (handle_event functions event s).0 ≡ runtime event =
        d.1 ∙ ap (λ r. r event) (k.runtime ∙ h.script_runtime) in
      (
        actions,
        record {
          script_runtime = k.runtime ∙ h.script_runtime;
          modules = d.0;
          tasks = k.tasks ∙ h.tasks;
          scene = ap (λ c. c.current_scene) k.scene ∙ h.scene;
          processed = k.processed ∙ ap (λ c. (c + 1) % 2 ^ 64) h.processed;
          executed = ap₂ (λ c l. (c + length l) % 2 ^ 64) (k.executed ∙ h.executed) actions;
        },
      )

  turn-IsAt :
      (now : ℕ) (runtime : ScriptRuntime) (name : Text) (m n : ℕ) (event : Event)
      (s : Server State Task) (w : World)
      → IsAt runtime name m n s
      → ((demo_turn functions run_task double_text now event s w).1 ≡ w)
        × ((demo_turn functions run_task double_text now event s w).3 ≡ false)
        × IsAt runtime
            (last_scene name (runtime event))
            ((m + 1) % 2 ^ 64)
            ((n + length (runtime event)) % 2 ^ 64)
            (demo_turn functions run_task double_text now event s w).0
  unfolding demo_turn update_server update
  turn-IsAt now runtime name m n event s w h =
      let (actions, k) = handle_event-IsAt runtime name m n event s h in
      let handled = (handle_event functions event s).1 in
      let scene =
        (apply-last_scene double_text (handle_event functions event s).0 handled.scene_manager).0 in
      let u : update run_task now handled.scheduler w ≡ ([], w, false) =
        ap (λ l. update run_task now l w) k.tasks in
      (
        ap (λ r. r.1) u,
        ap (λ r. r.2) u,
        record {
          script_runtime = k.script_runtime;
          modules = k.modules;
          tasks = ap (λ r. r.0) u;
          scene = scene ∙ ap₂ last_scene k.scene actions;
          processed = k.processed;
          executed = k.executed;
        },
      )

  IsAt-eq :
      (runtime : ScriptRuntime) {name name' : Text} {m m' n n' : ℕ}
      → name ≡ name'
      → m ≡ m'
      → n ≡ n'
      → (s : Server State Task) → IsAt runtime name m n s
      → IsAt runtime name' m' n' s
  IsAt-eq runtime e p q s h = record {
    script_runtime = h.script_runtime;
    modules = h.modules;
    tasks = h.tasks;
    scene = h.scene ∙ e;
    processed = h.processed ∙ p;
    executed = h.executed ∙ q;
  }

  -- The demo over any events, on a server without modules and tasks whose two counts are below
  -- 2^64: no Update throws, the server ends in the scene that the answers to the events ask for
  -- last, or in the one it was in, and has counted each event and each action that it answered
  -- with, modulo 2^64.
  demo_loop_lem :
      (now : ℕ) (runtime : ScriptRuntime) (name : Text) (m n : ℕ) (events : List Event)
      (s : Server State Task) (w : World)
      → m < 2 ^ 64
      → n < 2 ^ 64
      → IsAt runtime name m n s
      → ((demo_loop functions run_task double_text now events s w).3 ≡ false)
        × IsAt runtime
            (last_scene name (answers runtime events))
            ((m + length events) % 2 ^ 64)
            ((n + length (answers runtime events)) % 2 ^ 64)
            (demo_loop functions run_task double_text now events s w).0
  unfolding demo_loop
  demo_loop_lem now runtime name m n [] s w hm hn h =
      (refl, IsAt-eq runtime refl (mod_small m hm) (mod_small n hn) s h)
  demo_loop_lem now runtime name m n (event ∷ events) s w hm hn h =
      let (same, returned, k) = turn-IsAt now runtime name m n event s w h in
      let (s', w', lines, threw) = demo_turn functions run_task double_text now event s w in
      let a = runtime event in
      let b = answers runtime events in
      let (quiet, k') =
        demo_loop_lem now runtime (last_scene name a) ((m + 1) % 2 ^ 64) ((n + length a) % 2 ^ 64)
          events s' w' (omega arith) (omega arith) k in
      let executed : ((n + length a) % 2 ^ 64 + length b) % 2 ^ 64
          ≡ (n + length (a ++ b)) % 2 ^ 64 =
        omega (arith, length-append a b) in
      rw (demo_loop, returned)
        (quiet, IsAt-eq runtime (last_scene-append name a b) (omega arith) executed _ k')
