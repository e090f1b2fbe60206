-- ===== src/Server/Entities/Typed.antt =====
-- The static_cast of GetComponent: the type number of the component that it gets.
use mcx.Prelude.{
  ℕ, ◌≡◌, sym, ◌∙◌, subst, ◌&&◌, Option, none, some, List, [], ◌∷◌, arith, ◌==◌, if_either,
  if_split, nat_eq,
}
use mcx.Maps.{lookup}
use mcx.Server.Entities.{EntityManager, initial, get_component_raw, get_component}
use mcx.Server.Entities.Components.{
  Call, create, destroy, add, remove, call, expected, get_component_raw-call,
}

module _ {C : Type 0} (get_type : C → ℕ) where
  -- What is found under a type number has that number.
  abbrev FitsType : ℕ → Option C → Type 0
  FitsType type none = Unit
  FitsType type (some c) = get_type c ≡ type

  expected-FitsType :
      (x : Call C) (entity type : ℕ) (old : Option C)
      → FitsType type old
      → FitsType type (expected get_type x entity type old)
  unfolding expected
  expected-FitsType create entity type old h = h
  expected-FitsType (destroy id) entity type old h = if_either (FitsType type) (id == entity) tt h
  expected-FitsType (add id c) entity type old h =
      if_split (FitsType type) ((id == entity) && (get_type c == type)) (λ e. ground (arith, e))
        (λ _. h)
  expected-FitsType (remove id t) entity type old h =
      if_either (FitsType type) ((id == entity) && (t == type)) tt h

  unfoldable pub calls : List (Call C) → EntityManager C → EntityManager C
  calls [] m = m
  calls (x ∷ xs) m = calls xs (call get_type x m)

  calls-FitsType :
      (xs : List (Call C)) (m : EntityManager C) (entity type : ℕ)
      → FitsType type (get_component_raw entity type m)
      → FitsType type (get_component_raw entity type (calls xs m))
  unfolding calls
  calls-FitsType [] m entity type h = h
  calls-FitsType (x ∷ xs) m entity type h = calls-FitsType xs (call get_type x m) entity type (
      subst (FitsType type) (sym (get_component_raw-call get_type x m entity type))
        (expected-FitsType x entity type (get_component_raw entity type m) h))

  -- Behind any calls on a new manager, the component that is found for an entity under a type number
  -- is one whose GetType is that number.
  get_component_raw_typed :
      (xs : List (Call C)) (entity type : ℕ) {c : C}
      → get_component_raw entity type (calls xs initial) ≡ some c
      → get_type c ≡ type
  unfolding get_component_raw initial lookup
  get_component_raw_typed xs entity type h =
      subst (FitsType type) h (calls-FitsType xs initial entity type tt)

-- `class_of` is the class of the object that a pointer leads to.
module _ {C Class : Type 0} (number : Class → ℕ) (class_of : C → Class) where
  -- The cast of GetComponent<T> is sound: where GetType of every component is the number of its class,
  -- and no two classes have one number, what is found behind any calls on a new manager, those of
  -- CreateEntity among them, is an object of the class T.
  pub get_component_typed :
      (get_type : C → ℕ) (xs : List (Call C)) (entity : ℕ) (T : Class) {c : C}
      → ((d : C) → get_type d ≡ number (class_of d))
      → ((A B : Class) → number A ≡ number B → A ≡ B)
      → get_component number T entity (calls get_type xs initial) ≡ some c
      → class_of c ≡ T
  unfolding get_component
  get_component_typed get_type xs entity T {c} own distinct h =
      distinct (class_of c) T
        (sym (own c) ∙ get_component_raw_typed get_type xs entity (number T) h)
