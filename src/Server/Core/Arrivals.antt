-- ===== src/Server/Core/Arrivals.antt =====
-- What HandleEvent does to the registry of players, for each kind of event.
use mcx.Prelude.{
  ◌≡◌, inl, inr, Option, none, some, arith, if◌then◌else◌, Option-cases, nat_eq, text_eq,
  text_eq_iff, text_key,
}
use mcx.Prelude.Text.{Text}
use mcx.Maps.{lookup-insert, lookup-erase}
use mcx.Events.{Player, EventType, PlayerJoinEvent, PlayerQuitEvent, Event}
use mcx.Server.Players.{add_player, remove_player, get_player}
use mcx.Server.Loader.{ModuleFunctions}
use mcx.Server.Core.{Server, newcomer, track, handle_event, count_event}

-- The player that an event makes join, and the id that it makes leave: the type and the part of the
-- event must agree.
abbrev pub joining : Event → Option PlayerJoinEvent
joining event = elim event.type [ EventType.player_join ↦ event.player_join | _ ↦ none ]

abbrev pub quitting : Event → Option PlayerQuitEvent
quitting event = elim event.type [ EventType.player_quit ↦ event.player_quit | _ ↦ none ]

module _ {State Task : Type 0} where
  -- Who should be registered under an id after an event: the player who joined, in the scene of the
  -- server, nobody where one left, and as before under every other id and for every other event.
  abbrev pub expected : Text → Event → Server State Task → Option Player
  expected id event server = elim (joining event) [
    | some join ↦
        if text_eq join.player.id id
        then some (record {
          id = join.player.id;
          name = join.player.name;
          position = none;
          scene = server.scene_manager.current_scene;
        })
        else get_player id server.player_registry
    | none ↦ elim (quitting event) [
      | some quit ↦ if text_eq quit.player.id id then none else get_player id server.player_registry
      | none ↦ get_player id server.player_registry
    ]
  ]

module _ {State Task : Type 0} (functions : ModuleFunctions State) where
  track-get_player :
      (id : Text) (event : Event) (server : Server State Task)
      → get_player id (track event server).0.player_registry ≡ expected id event server
  unfolding track get_player add_player remove_player
  track-get_player id event server = elim (Option-cases event.player_join) [
    | inl nojoin ↦ elim (Option-cases event.player_quit) [
      | inl noquit ↦ ground (arith, nojoin, noquit)
      | inr (quit, q) ↦ ground (
        arith,
        nojoin,
        q,
        lookup-erase quit.player.id id server.player_registry,
        text_eq_iff quit.player.id id,
      )
    ]
    | inr (join, j) ↦ elim (Option-cases event.player_quit) [
      | inl noquit ↦ ground (
        arith,
        j,
        noquit,
        lookup-insert join.player.id id (newcomer join server) server.player_registry,
      )
      | inr (quit, q) ↦ ground (
        arith,
        j,
        q,
        lookup-insert join.player.id id (newcomer join server) server.player_registry,
        lookup-erase quit.player.id id server.player_registry,
        text_eq_iff quit.player.id id,
      )
    ]
  ]

  -- After an event the player found under an id is the newcomer in the current scene where the event
  -- is the join of that id, nobody where it is its quit, and as before otherwise, whatever the runtime
  -- and the modules answer.
  pub handle_event-get_player :
      (id : Text) (event : Event) (server : Server State Task)
      → get_player id (handle_event functions event server).1.player_registry
        ≡ expected id event server
  unfolding handle_event
  handle_event-get_player id event server = track-get_player id event (count_event server)
