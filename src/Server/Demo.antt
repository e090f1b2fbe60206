-- ===== src/Server/Demo.antt =====
-- The demo: BuildFakeEvents of src/integration/fake_event_source.cpp and RunDemo of src/main.cpp, in which
-- the applier works on the scene of the server; and the configuration that RunSetup starts the server with.
pub mod Outcome
use mcx.Prelude.{
  ℕ, Bool, true, false, none, some, List, [], ◌∷◌, ◌++◌, if◌then◌else◌, nat_eq, text_key,
}
use mcx.Prelude.Text.{Text, codes}
use mcx.Prelude.Int.{pos}
use mcx.Prelude.Decimal.{to_string}
use mcx.Log.{Line}
use mcx.Events.{Double, Player, EventType, Event, empty_event}
use mcx.Setup.Wizard.{ServerConfig}
use mcx.Setup.Config.{empty_config}
use mcx.Server.Scenes.{apply}
use mcx.Server.Loader.{ModuleFunctions}
use mcx.Server.Core.{Config, Server, make_server, handle_event}
use mcx.Server.Loop.{update_server}

abbrev pub test_player : Player
test_player = record {
  id = codes "uuid-1234";
  name = codes "TestPlayer";
  position = none;
  scene = [];
}

unfoldable pub build_fake_events : List Event
build_fake_events =
    record empty_event { player_join = some (record { player = test_player }) }
    ∷ record empty_event {
      type = EventType.chat;
      chat = some (record { player = test_player; message = codes "!hello" });
    }
    ∷ record empty_event {
      type = EventType.chat;
      chat = some (record { player = test_player; message = codes "!scene test" });
    }
    ∷ record empty_event {
      type = EventType.command;
      command = some (record {
        player = some test_player;
        command = codes "mcx:test";
        args = codes "arg1" ∷ codes "arg2" ∷ [];
      });
    }
    ∷ []

abbrev pub demo_config : Config
demo_config = record empty_config { demo_mode = true; max_players = pos 2 }

-- What RunSetup makes of the wizard's configuration.
unfoldable pub setup_config : ServerConfig → Config
setup_config config = record empty_config {
  max_players = pos config.max_players;
  backend_endpoint = config.bind_ip ++ (codes ":" ++ to_string config.port);
}

module _ {State Task World : Type 0} (functions : ModuleFunctions State)
    (run_task : Task → World → World × Bool) (double_text : Double → Text) where
  -- One turn of the loop, at the time of its Update; `true` tells that the Update threw.
  unfoldable pub demo_turn :
      ℕ → Event → Server State Task → World → Server State Task × World × List Line × Bool
  unfolding update_server
  demo_turn now event server w =
      let (actions, handled, lines) = handle_event functions event server in
      let (scene, lines') = apply double_text actions handled.scene_manager in
      let (updated, w', threw) =
        update_server run_task now (record handled { scene_manager = scene }) w in
      (updated, w', lines ++ lines', threw)

  -- The loop; an exception ends it, and the program.
  unfoldable pub demo_loop :
      ℕ → List Event → Server State Task → World → Server State Task × World × List Line × Bool
  unfolding demo_turn
  demo_loop now [] server w = (server, w, [], false)
  demo_loop now (event ∷ events) server w =
      let (server', w', lines, threw) = demo_turn now event server w in
      let rest = demo_loop now events server' w' in
      if threw then (server', w', lines, true) else (rest.0, rest.1, lines ++ rest.2, rest.3)

  unfoldable pub run_demo : ℕ → World → Server State Task × World × List Line × Bool
  unfolding demo_loop
  run_demo now w = demo_loop now build_fake_events (make_server demo_config) w
