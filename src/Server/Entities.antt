-- ===== src/Server/Entities.antt =====
-- EntityManager: src/core/entity_manager.cpp and include/mcx/entity_manager.hpp. A Component* is a
-- value of a parameter type; GetType of the component is a function on it.
pub mod Components
pub mod Typed
use mcx.Prelude.{ℕ, ◌+◌, ◌%◌, ◌^◌, Option, none, some, [], Eq, nat_eq}
use mcx.Maps.{Map, lookup, insert, erase, lookup_or, size}

pub record EntityManager (C : Type 0) : Type 0 where
  pub entities : Map ℕ (Map ℕ C)
  pub next_id : ℕ

module _ {C : Type 0} where
  unfoldable pub initial : EntityManager C
  initial = record { entities = []; next_id = 1 }

  -- `return nextId_++`, on a uint64_t.
  unfoldable pub create_entity : EntityManager C → ℕ × EntityManager C
  create_entity m = (m.next_id, record m { next_id = (m.next_id + 1) % 2 ^ 64 })

  unfoldable pub destroy_entity : ℕ → EntityManager C → EntityManager C
  destroy_entity id m = record m { entities = erase id m.entities }

  -- `entities_[entity][component->GetType()] = component`
  unfoldable pub add_component : (C → ℕ) → ℕ → C → EntityManager C → EntityManager C
  add_component get_type entity c m = record m {
    entities = insert entity (insert (get_type c) c (lookup_or [] entity m.entities)) m.entities;
  }

  unfoldable pub remove_component : ℕ → ℕ → EntityManager C → EntityManager C
  remove_component entity type m = elim (lookup entity m.entities) [
    | none ↦ m
    | some components ↦ record m { entities = insert entity (erase type components) m.entities }
  ]

  unfoldable pub get_component_raw : ℕ → ℕ → EntityManager C → Option C
  get_component_raw entity type m = elim (lookup entity m.entities) [
    | none ↦ none
    | some components ↦ lookup type components
  ]

  -- GetComponent<T>, where `number` is T::Type: what is cast to `T*`.
  unfoldable pub get_component : {T : Type 0} → (T → ℕ) → T → ℕ → EntityManager C → Option C
  unfolding get_component_raw
  get_component number T entity m = get_component_raw entity (number T) m

  unfoldable pub get_entity_count : EntityManager C → ℕ
  get_entity_count m = size m.entities
