-- ===== src/Server/Bus/Delivery.antt =====
-- Which handlers an event reaches, and in which order.
use mcx.Prelude.{◌≡◌, refl, ap, ◌∙◌, List, [], ◌∷◌, ◌++◌, if◌then◌else◌, Bool-cases, inl, inr}
use mcx.Events.{EventType, Event, same_type}
use mcx.Server.Bus.{Handler, EventBus, subscribe, call_handlers, publish, clear}

-- A series of subscriptions, the first one first.
abbrev pub Subscriptions : Type 0 → Type 0
Subscriptions S = List (EventType × Handler S)

module _ {S : Type 0} where
  abbrev pub subscribe_all : Subscriptions S → EventBus S → EventBus S
  subscribe_all [] bus = bus
  subscribe_all ((type, handler) ∷ rest) bus = subscribe_all rest (subscribe type handler bus)

  -- The handlers of one type alone, in their order.
  abbrev pub deliver : Subscriptions S → Event → S → S
  deliver [] event s = s
  deliver ((type, handler) ∷ rest) event s =
      deliver rest event (if same_type type event.type then handler event s else s)

  call_handlers-append :
      (handlers : List (Handler S)) (h : Handler S) (event : Event) (s : S)
      → call_handlers (handlers ++ (h ∷ [])) event s ≡ h event (call_handlers handlers event s)
  unfolding call_handlers
  call_handlers-append [] h event s = refl
  call_handlers-append (g ∷ handlers) h event s = call_handlers-append handlers h event (g event s)

  publish-subscribe :
      (type : EventType) (h : Handler S) (bus : EventBus S) (event : Event) (s : S)
      → publish (subscribe type h bus) event s
        ≡ (if same_type type event.type then h event (publish bus event s) else publish bus event s)
  unfolding publish subscribe
  publish-subscribe type h bus event s = elim (Bool-cases (same_type type event.type)) [
    | inl same ↦ rw same (call_handlers-append (bus event.type) h event s)
    | inr other ↦ rw other refl
  ]

  all_of :
      (subscriptions : Subscriptions S) (bus : EventBus S) (event : Event) (s : S)
      → publish (subscribe_all subscriptions bus) event s
        ≡ deliver subscriptions event (publish bus event s)
  all_of [] bus event s = refl
  all_of ((type, h) ∷ rest) bus event s =
      all_of rest (subscribe type h bus) event s
      ∙ ap (deliver rest event) (publish-subscribe type h bus event s)

  publish-clear : (bus : EventBus S) (event : Event) (s : S) → publish (clear bus) event s ≡ s
  unfolding publish clear call_handlers
  publish-clear bus event s = refl

  -- Publish calls the handlers that were subscribed for the type of the event and no others, in the
  -- order of their subscriptions, after those that the bus had before; behind Clear, only those.
  publish-subscribe_all :
      (subscriptions : Subscriptions S) (bus : EventBus S) (event : Event) (s : S)
      → (publish (subscribe_all subscriptions bus) event s
          ≡ deliver subscriptions event (publish bus event s))
        × (publish (subscribe_all subscriptions (clear bus)) event s
            ≡ deliver subscriptions event s)
  publish-subscribe_all subscriptions bus event s = (
    all_of subscriptions bus event s,
    all_of subscriptions (clear bus) event s
        ∙ ap (deliver subscriptions event) (publish-clear bus event s),
  )
