-- ===== src/Server/Entities/Components.antt =====
-- Which component is found after each operation of the EntityManager.
use mcx.Prelude.{
  ℕ, ◌≡◌, refl, ◌&&◌, Option, none, some, [], arith, ◌==◌, if◌then◌else◌, Option-cases, nat_eq,
}
use mcx.Maps.{Map, lookup, insert, erase, lookup_or, lookup-insert, lookup-erase}
use mcx.Server.Entities.{
  EntityManager, create_entity, destroy_entity, add_component, remove_component, get_component_raw,
}

-- The calls that change the manager.
pub data Call (C : Type 0) : Type 0 where
  create : Call C
  destroy : ℕ → Call C
  add : ℕ → C → Call C
  remove : ℕ → ℕ → Call C

module _ {C : Type 0} where
  unfoldable pub call : (C → ℕ) → Call C → EntityManager C → EntityManager C
  call get_type create m = (create_entity m).1
  call get_type (destroy id) m = destroy_entity id m
  call get_type (add entity c) m = add_component get_type entity c m
  call get_type (remove entity type) m = remove_component entity type m

  -- What a call makes of the component of one entity and one type.
  unfoldable pub expected : (C → ℕ) → Call C → ℕ → ℕ → Option C → Option C
  expected get_type create entity type old = old
  expected get_type (destroy id) entity type old = if id == entity then none else old
  expected get_type (add id c) entity type old =
      if (id == entity) && (get_type c == type) then some c else old
  expected get_type (remove id t) entity type old =
      if (id == entity) && (t == type) then none else old

  same_lookup : (id entity : ℕ) (m : Map ℕ (Map ℕ C)) → id ≡ entity → lookup id m ≡ lookup entity m
  same_lookup id entity m h = rw h refl

  lookup_nothing : (type : ℕ) → lookup {V = C} type [] ≡ none
  unfolding lookup
  lookup_nothing type = refl

  -- Every call changes the components it names and no others: a component that is added is found
  -- under its own type, a removed one and those of a destroyed entity are not.
  pub get_component_raw-call :
      (get_type : C → ℕ) (c : Call C) (m : EntityManager C) (entity type : ℕ)
      → get_component_raw entity type (call get_type c m)
        ≡ expected get_type c entity type (get_component_raw entity type m)
  unfolding get_component_raw call expected create_entity destroy_entity add_component
      remove_component lookup_or
  get_component_raw-call get_type create m entity type = refl
  get_component_raw-call get_type (destroy id) m entity type =
      let e = lookup-erase id entity m.entities in ground (arith, e)
  get_component_raw-call get_type (add id c) m entity type =
      let inner = lookup_or [] id m.entities in
      let e = lookup-insert id entity (insert (get_type c) c inner) m.entities in
      let e' = lookup-insert (get_type c) type c inner in
      let e'' = lookup_nothing type in
      ground (
        arith,
        e,
        e',
        e'',
        Option-cases (lookup entity m.entities),
        same_lookup id entity m.entities,
      )
  get_component_raw-call get_type (remove id t) m entity type =
      let old = lookup_or [] id m.entities in
      let e = lookup-insert id entity (erase t old) m.entities in
      let e' = lookup-erase t type old in ground (arith, e, e', same_lookup id entity m.entities)
