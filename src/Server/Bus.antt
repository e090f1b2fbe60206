-- ===== src/Server/Bus.antt =====
-- EventBus: src/core/event_bus.cpp. A handler is a function on a state of the caller's.
pub mod Delivery
use mcx.Prelude.{List, [], ◌∷◌, ◌++◌, Eq, if◌then◌else◌}
use mcx.Events.{EventType, Event, same_type}

abbrev pub Handler : Type 0 → Type 0
Handler S = Event → S → S

-- `handlers_`: a type without an entry has no handlers.
abbrev pub EventBus : Type 0 → Type 0
EventBus S = EventType → List (Handler S)

module _ {S : Type 0} where
  unfoldable pub subscribe : EventType → Handler S → EventBus S → EventBus S
  subscribe type handler bus t =
      let handlers = bus t in if same_type type t then handlers ++ (handler ∷ []) else handlers

  unfoldable pub call_handlers : List (Handler S) → Event → S → S
  call_handlers [] event s = s
  call_handlers (handler ∷ handlers) event s = call_handlers handlers event (handler event s)

  unfoldable pub publish : EventBus S → Event → S → S
  publish bus event s = call_handlers (bus event.type) event s

  unfoldable pub clear : EventBus S → EventBus S
  clear bus t = []
