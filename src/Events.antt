-- ===== src/Events.antt =====
-- include/mcx/events.hpp and include/mcx/actions.hpp. A double is its 64-bit pattern, which nothing
-- here computes with.
use mcx.Prelude.{ℕ, Bool, true, false, Option, none, List, nat_eq, text_key}
use mcx.Prelude.Text.{Text, codes}

abbrev pub Double : Type 0
Double = ℕ

pub record Vec3 : Type 0 where
  pub x : Double
  pub y : Double
  pub z : Double

pub record Player : Type 0 where
  pub id : Text
  pub name : Text
  pub position : Option Vec3
  pub scene : Text

pub data EventType : Type 0 where
  player_join player_quit chat command scene_loaded : EventType

pub record PlayerJoinEvent : Type 0 where
  pub player : Player

pub record PlayerQuitEvent : Type 0 where
  pub player : Player

pub record ChatEvent : Type 0 where
  pub player : Player
  pub message : Text

pub record CommandEvent : Type 0 where
  pub player : Option Player
  pub command : Text
  pub args : List Text

pub record SceneLoadedEvent : Type 0 where
  pub scene : Text

-- The type and the parts are independent: nothing makes the part of the type be there.
pub record Event : Type 0 where
  pub type : EventType
  pub player_join : Option PlayerJoinEvent
  pub player_quit : Option PlayerQuitEvent
  pub chat : Option ChatEvent
  pub command : Option CommandEvent
  pub scene_loaded : Option SceneLoadedEvent

-- `Event{}`
abbrev pub empty_event : Event
empty_event = record {
  type = EventType.player_join;
  player_join = none;
  player_quit = none;
  chat = none;
  command = none;
  scene_loaded = none;
}

-- The variant of the six action structures; the `kind` of each repeats its constructor.
pub data Action : Type 0 where
  send_message : Text → Text → Action
  broadcast : Text → Action
  send_title : Text → Text → Text → Action
  teleport : Text → Vec3 → Action
  set_spawn : Text → Vec3 → Action
  load_scene : Text → Action

-- `==` of the enumeration.
abbrev pub same_type : EventType → EventType → Bool
same_type EventType.player_join EventType.player_join = true
same_type EventType.player_quit EventType.player_quit = true
same_type EventType.chat EventType.chat = true
same_type EventType.command EventType.command = true
same_type EventType.scene_loaded EventType.scene_loaded = true
same_type a b = false

-- PrintEvent in src/core/event_utils.cpp: the line that goes to the console.
unfoldable pub print_event : Event → Text
print_event event = elim event.type [
  | EventType.player_join ↦ codes "[MCX] Event: player_join\n"
  | EventType.player_quit ↦ codes "[MCX] Event: player_quit\n"
  | EventType.chat ↦ codes "[MCX] Event: chat\n"
  | EventType.command ↦ codes "[MCX] Event: command\n"
  | EventType.scene_loaded ↦ codes "[MCX] Event: scene_loaded\n"
]
