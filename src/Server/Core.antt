-- ===== src/Server/Core.antt =====
-- src/core/server.cpp, the script runtimes and src/core/config_validator.cpp: what an event does to
-- the server. The runtime is a function from events to actions, as the two that the demo chooses from are; the one
-- of Lua, which keeps a state, is in Server/Lua.
pub mod Arrivals
pub mod Counters
use mcx.Prelude.Int.{ℤ, pos, ltb_ℤ}
use mcx.Prelude.{
  ℕ, ◌+◌, ◌-◌, ◌%◌, ◌^◌, Bool, false, Option, none, some, List, [], ◌∷◌, ◌++◌, if◌then◌else◌,
  length, is_empty, Eq, nat_eq, text_eq, text_key,
}
use mcx.Prelude.Text.{Text, codes}
use mcx.Log.{Line}
use mcx.Events.{
  Player, EventType, PlayerJoinEvent, PlayerQuitEvent, ChatEvent, Event, Action, broadcast,
  load_scene, same_type,
}
use mcx.Server.Scenes.{SceneManager, Logged}
use mcx.Server.Players.{PlayerRegistry, add_player, remove_player, PermissionRegistry}
use mcx.Server.Loader.{ModuleFunctions, ModuleLoader, dispatch_event}
use mcx.Server.Tasks.{Scheduler}

abbrev pub ScriptRuntime : Type 0
ScriptRuntime = Event → List Action

-- What the demo answers to a chat message.
unfoldable pub reply : ChatEvent → List Action
reply chat =
    if text_eq chat.message (codes "!hello")
    then broadcast
        (codes "[MCX] Hello from the hardcoded runtime, " ++ (chat.player.name ++ codes "!"))
      ∷ []
    else if text_eq chat.message (codes "!scene test")
    then broadcast (codes "[MCX] Loading test scene (hardcoded).") ∷ load_scene (codes "test") ∷ []
    else []

-- HardcodedScriptRuntime::HandleEvent
unfoldable pub hardcoded_runtime : ScriptRuntime
unfolding reply
hardcoded_runtime event =
    if same_type event.type EventType.chat
    then elim event.chat [ none ↦ [] | some chat ↦ reply chat ]
    else []

-- DummyScriptRuntime::HandleEvent
unfoldable pub dummy_runtime : ScriptRuntime
dummy_runtime event = []

pub record Config : Type 0 where
  pub backend_endpoint : Text
  pub script_root : Text
  pub modules_path : Text
  pub max_players : ℤ
  pub demo_mode : Bool

-- The counters are of type size_t.
-- ValidateConfig of src/core/config_validator.cpp: the complaint, or `none`.
unfoldable pub validate_config : Config → Option Text
validate_config config =
    if ltb_ℤ config.max_players (pos 0)
    then some (codes "maxPlayers cannot be negative")
    else if is_empty config.script_root
    then some (codes "scriptRoot cannot be empty")
    else none

pub record Metrics : Type 0 where
  pub events_processed : ℕ
  pub actions_executed : ℕ
  pub players_connected : ℕ
  pub scenes_switched : ℕ

abbrev pub size_mod : ℕ
size_mod = 2 ^ 64

abbrev pub plus : ℕ → ℕ → ℕ
plus counter n = (counter + n) % size_mod

-- `--` on a size_t wraps at zero.
abbrev pub minus_one : ℕ → ℕ
minus_one counter = (counter + size_mod - 1) % size_mod

pub record Server (State Task : Type 0) : Type 0 where
  pub config : Config
  pub running : Bool
  pub script_runtime : ScriptRuntime
  pub scene_manager : SceneManager
  pub player_registry : PlayerRegistry
  pub scheduler : Scheduler Task
  pub metrics : Metrics
  pub permissions : PermissionRegistry
  pub module_loader : ModuleLoader State

module _ {State Task : Type 0} where
  -- The constructor, in a build without Lua.
  unfoldable pub make_server : Config → Server State Task
  make_server config = record {
    config = config;
    running = false;
    script_runtime = if config.demo_mode then hardcoded_runtime else dummy_runtime;
    scene_manager = record { current_scene = [] };
    player_registry = [];
    scheduler = [];
    metrics = record {
      events_processed = 0;
      actions_executed = 0;
      players_connected = 0;
      scenes_switched = 0;
    };
    permissions = [];
    module_loader = record { modules = []; open_handles = 0; unloaded = [] };
  }

  unfoldable pub stop : Server State Task → Server State Task
  stop server = record server { running = false }

  -- The player that a join registers: without a position, in the scene of the server.
  abbrev pub newcomer : PlayerJoinEvent → Server State Task → Player
  newcomer join server = record {
    id = join.player.id;
    name = join.player.name;
    position = none;
    scene = server.scene_manager.current_scene;
  }

  unfoldable pub on_join : PlayerJoinEvent → Server State Task → Logged (Server State Task)
  on_join join server =
      let (players, lines) = add_player (newcomer join server) server.player_registry in
      let m = server.metrics in
      (
        record server {
          player_registry = players;
          metrics = record m { players_connected = plus m.players_connected 1 };
        },
        lines,
      )

  unfoldable pub on_quit : PlayerQuitEvent → Server State Task → Logged (Server State Task)
  on_quit quit server =
      let (players, lines) = remove_player quit.player.id server.player_registry in
      let m = server.metrics in
      (
        record server {
          player_registry = players;
          metrics = record m { players_connected = minus_one m.players_connected };
        },
        lines,
      )

  -- The two branches of HandleEvent, on the type of the event and the two parts that they look at.
  unfoldable pub track_by :
      EventType
      → Option PlayerJoinEvent
      → Option PlayerQuitEvent
      → Server State Task
      → Logged (Server State Task)
  unfolding on_join on_quit
  track_by EventType.player_join (some join) quit server = on_join join server
  track_by EventType.player_quit join (some quit) server = on_quit quit server
  track_by type join quit server = (server, [])

  unfoldable pub track : Event → Server State Task → Logged (Server State Task)
  unfolding track_by
  track event server = track_by event.type event.player_join event.player_quit server

  abbrev pub count_event : Server State Task → Server State Task
  count_event server =
      let m = server.metrics in
      record server { metrics = record m { events_processed = plus m.events_processed 1 } }

  unfoldable pub handle_event :
      ModuleFunctions State
      → Event
      → Server State Task
      → List Action × Server State Task × List Line
  unfolding track
  handle_event functions event server =
      let (tracked, lines) = track event (count_event server) in
      let (loader, actions) =
        dispatch_event functions event tracked.module_loader (tracked.script_runtime event) in
      let m = tracked.metrics in
      (
        actions,
        record tracked {
          module_loader = loader;
          metrics = record m { actions_executed = plus m.actions_executed (length actions) };
        },
        lines,
      )
