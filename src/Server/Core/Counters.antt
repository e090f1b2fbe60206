-- ===== src/Server/Core/Counters.antt =====
-- The counters of the server: src/core/server.cpp and include/mcx/metrics.hpp.
use mcx.Prelude.{
  ℕ, ◌+◌, ◌%◌, ◌^◌, ◌≡◌, subst, ◌≢◌, inl, inr, ◌↔◌, Bool-cases, Bool, true, false, Option, none,
  some, arith, Option-cases, length, nat_eq, text_key,
}
use mcx.Maps.{lookup, IsUnique, insert-IsUnique, erase-IsUnique, size-insert, size-erase}
use mcx.Events.{EventType, PlayerJoinEvent, PlayerQuitEvent, Event}
use mcx.Server.Players.{PlayerRegistry, add_player, remove_player, get_player, get_online_count}
use mcx.Server.Loader.{ModuleFunctions}
use mcx.Server.Core.{Server, newcomer, on_join, on_quit, track, track_by, handle_event, count_event}

-- The gauge of players shows the size of the registry, up to the wrap of size_t; and no id is
-- registered twice.
pub record IsSynced {State Task : Type 0} (server : Server State Task) : Type 0 where
  pub gauge : server.metrics.players_connected ≡ get_online_count server.player_registry % 2 ^ 64
  pub unique : IsUnique server.player_registry

-- A join of an id that is not registered, a quit of one that is, or another event.
abbrev pub orderly_by :
    EventType → Option PlayerJoinEvent → Option PlayerQuitEvent → PlayerRegistry → Bool
orderly_by EventType.player_join (some join) quit players =
    elim (get_player join.player.id players) [ none ↦ true | some p ↦ false ]
orderly_by EventType.player_quit join (some quit) players =
    elim (get_player quit.player.id players) [ none ↦ false | some p ↦ true ]
orderly_by type join quit players = true

abbrev pub is_orderly : {State Task : Type 0} → Event → Server State Task → Bool
is_orderly event server =
    orderly_by event.type event.player_join event.player_quit server.player_registry

abbrev Agree : Bool → ℕ → ℕ → Type 0
Agree true gauge count = gauge ≡ count % 2 ^ 64
Agree false gauge count = gauge ≢ count % 2 ^ 64

abbrev Gauged : {State Task : Type 0} → Bool → Server State Task → Type 0
Gauged b server = Agree b server.metrics.players_connected (get_online_count server.player_registry)

module _ {State Task : Type 0} where
  on_join-gauge :
      (join : PlayerJoinEvent) (server : Server State Task)
      → IsSynced server
      → Gauged
          (elim (get_player join.player.id server.player_registry) [ none ↦ true | some p ↦ false ])
          (on_join join server).0
  unfolding on_join add_player get_player get_online_count
  on_join-gauge join server s = elim (Option-cases (lookup join.player.id server.player_registry)) [
    | inl new ↦ ground (
      arith,
      new,
      s.gauge,
      size-insert join.player.id (newcomer join server) server.player_registry,
    )
    | inr (p, old) ↦ ground (
      arith,
      old,
      s.gauge,
      size-insert join.player.id (newcomer join server) server.player_registry,
    )
  ]

  on_quit-gauge :
      (quit : PlayerQuitEvent) (server : Server State Task)
      → IsSynced server
      → Gauged
          (elim (get_player quit.player.id server.player_registry) [ none ↦ false | some p ↦ true ])
          (on_quit quit server).0
  unfolding on_quit remove_player get_player get_online_count
  on_quit-gauge quit server s = elim (Option-cases (lookup quit.player.id server.player_registry)) [
    | inl unknown ↦ ground (arith, unknown, s.gauge)
    | inr (p, known) ↦
        ground (arith, known, s.gauge, size-erase quit.player.id server.player_registry s.unique)
  ]

  on_join-IsUnique :
      (join : PlayerJoinEvent) (server : Server State Task)
      → IsUnique server.player_registry
      → IsUnique (on_join join server).0.player_registry
  unfolding on_join add_player
  on_join-IsUnique join server u =
      insert-IsUnique join.player.id (newcomer join server) server.player_registry u

  on_quit-IsUnique :
      (quit : PlayerQuitEvent) (server : Server State Task)
      → IsUnique server.player_registry
      → IsUnique (on_quit quit server).0.player_registry
  unfolding on_quit remove_player
  on_quit-IsUnique quit server u =
      elim (Option-cases (lookup quit.player.id server.player_registry)) [
        | inl unknown ↦ ground (arith, unknown, u)
        | inr (p, known) ↦
            ground (arith, known, erase-IsUnique quit.player.id server.player_registry u)
      ]

  track_by-gauge :
      (type : EventType) (join : Option PlayerJoinEvent) (quit : Option PlayerQuitEvent)
      (server : Server State Task)
      → IsSynced server
      → Gauged (orderly_by type join quit server.player_registry) (track_by type join quit server).0
        × IsUnique (track_by type join quit server).0.player_registry
  unfolding track_by
  track_by-gauge EventType.player_join (some join) quit server s =
      (on_join-gauge join server s, on_join-IsUnique join server s.unique)
  track_by-gauge EventType.player_quit join (some quit) server s =
      (on_quit-gauge quit server s, on_quit-IsUnique quit server s.unique)
  track_by-gauge type join quit server s = (s.gauge, s.unique)

module _ {State Task : Type 0} (functions : ModuleFunctions State) where
  handle_event-gauge :
      (event : Event) (server : Server State Task)
      → IsSynced server
      → Gauged (is_orderly event server) (handle_event functions event server).1
        × IsUnique (handle_event functions event server).1.player_registry
  unfolding handle_event track
  handle_event-gauge event server s =
      track_by-gauge event.type event.player_join event.player_quit (count_event server)
        (record { gauge = s.gauge; unique = s.unique })

  -- An orderly event (no join of a player who is registered already, and no quit of one who is not)
  -- keeps the gauge of players equal to the number of players registered, modulo 2^64, and no id is
  -- registered twice.
  handle_event_keeps :
      (event : Event) (server : Server State Task)
      → IsSynced server
      → is_orderly event server ≡ true
      → IsSynced (handle_event functions event server).1
  handle_event_keeps event server s o =
      let after = handle_event-gauge event server s in
      record {
        gauge = subst (λ b. Gauged b (handle_event functions event server).1) o after.0;
        unique = after.1;
      }

  -- An event that is not orderly (a join of a player who is registered already, or a quit of one who
  -- is not) always makes a gauge wrong that was right before.
  handle_event_drifts :
      (event : Event) (server : Server State Task)
      → IsSynced server
      → is_orderly event server ≡ false
      → ¬ IsSynced (handle_event functions event server).1
  handle_event_drifts event server s o after =
      subst (λ b. Gauged b (handle_event functions event server).1) o
        (handle_event-gauge event server s).0 after.gauge

  -- Where the gauge of players equals the number of players registered, modulo 2^64, and no id is registered
  -- twice, this still holds after an event exactly where the event is orderly: no join of a player who
  -- is registered already, and no quit of one who is not.
  pub handle_event-IsSynced :
      (event : Event) (server : Server State Task)
      → IsSynced server
      → IsSynced (handle_event functions event server).1 ↔ (is_orderly event server ≡ true)
  handle_event-IsSynced event server s = (
    (λ after. elim (Bool-cases (is_orderly event server)) [
      | inl o ↦ o
      | inr o ↦ absurd (handle_event_drifts event server s o after)
    ]),
    handle_event_keeps event server s,
  )

  -- Each event is counted once, with the actions that it led to, up to the wrap of size_t.
  handle_event_counts :
      (event : Event) (server : Server State Task)
      → let (actions, server', lines) = handle_event functions event server in
        (server'.metrics.events_processed ≡ (server.metrics.events_processed + 1) % 2 ^ 64)
        × (server'.metrics.actions_executed
            ≡ (server.metrics.actions_executed + length actions) % 2 ^ 64)
        × (server'.metrics.scenes_switched ≡ server.metrics.scenes_switched)
        × (server'.scene_manager ≡ server.scene_manager)
  unfolding handle_event track track_by on_join on_quit
  handle_event_counts event server = (ground arith, ground arith, ground arith, ground arith)
