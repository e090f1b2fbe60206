-- ===== src/Maps.antt =====
-- std::map and std::unordered_map as association lists: the operations that the managers use.
-- The order of the list stands for the order in which an iteration meets the entries.
pub mod Sum
pub mod Keyed
use mcx.Prelude.{
  ℕ, ◌+◌, ◌-◌, ◌≡◌, refl, subst, ◌≢◌, inl, inr, Option, none, some, List, [], ◌∷◌, arith, Eq,
  if◌then◌else◌, length, Bool-cases, beq_self,
}

abbrev pub Map {ℓ κ} : Type ℓ → Type κ → Type (ℓ ⊔ κ)
Map K V = List (K × V)

module _ {ℓ κ} {K : Type ℓ} {V : Type κ} ⦃e : Eq K⦄ where
  -- `find(k)`; `none` is `end()`.
  unfoldable pub lookup : K → Map K V → Option V
  lookup k [] = none
  lookup k ((j, v) ∷ m) = if e.beq j k then some v else lookup k m

  -- `m[k] = v`
  unfoldable pub insert : K → V → Map K V → Map K V
  insert k v [] = (k, v) ∷ []
  insert k v ((j, w) ∷ m) = if e.beq j k then (k, v) ∷ m else (j, w) ∷ insert k v m

  -- `erase(k)`
  unfoldable pub erase : K → Map K V → Map K V
  erase k [] = []
  erase k ((j, w) ∷ m) = let rest = erase k m in if e.beq j k then rest else (j, w) ∷ rest

  -- `m[k]` as an rvalue: the entry, or the value that `operator[]` makes for a missing key.
  unfoldable pub lookup_or : V → K → Map K V → V
  lookup_or d k m = elim (lookup k m) [ none ↦ d | some v ↦ v ]

  pub lookup-insert :
      (k j : K) (v : V) (m : Map K V)
      → lookup j (insert k v m) ≡ (if e.beq k j then some v else lookup j m)
  unfolding lookup insert
  lookup-insert k j v [] = refl
  lookup-insert k j v ((i, w) ∷ m) =
      ground (arith, e.beq_iff k j, e.beq_iff i k, e.beq_iff i j, lookup-insert k j v m)

  pub lookup-erase :
      (k j : K) (m : Map K V) → lookup j (erase k m) ≡ (if e.beq k j then none else lookup j m)
  unfolding lookup erase
  lookup-erase k j [] = ground arith
  lookup-erase k j ((i, w) ∷ m) =
      ground (arith, e.beq_iff k j, e.beq_iff i k, e.beq_iff i j, lookup-erase k j m)

  pub lookup-insert_self : (k : K) (v : V) (m : Map K V) → lookup k (insert k v m) ≡ some v
  lookup-insert_self k v m = rw (lookup-insert, beq_self k)

  pub lookup-erase_self : (k : K) (m : Map K V) → lookup k (erase k m) ≡ none
  lookup-erase_self k m = rw (lookup-erase, beq_self k)

  pub lookup-insert_ne :
      (k j : K) (v : V) (m : Map K V) → k ≢ j → lookup j (insert k v m) ≡ lookup j m
  lookup-insert_ne k j v m h = ground (arith, lookup-insert k j v m, e.beq_iff k j)

  pub lookup-erase_ne : (k j : K) (m : Map K V) → k ≢ j → lookup j (erase k m) ≡ lookup j m
  lookup-erase_ne k j m h = ground (arith, lookup-erase k j m, e.beq_iff k j)

  -- No key is listed twice: what the containers keep by themselves.
  abbrev pub IsUnique : Map K V → Type κ
  IsUnique [] = Unit
  IsUnique ((k, v) ∷ m) = (lookup k m ≡ none) × IsUnique m

  pub insert-IsUnique : (k : K) (v : V) (m : Map K V) → IsUnique m → IsUnique (insert k v m)
  unfolding insert lookup
  insert-IsUnique k v [] u = (refl, tt)
  insert-IsUnique k v ((j, w) ∷ m) u =
      ground (arith, insert-IsUnique k v m u.1, lookup-insert k j v m, e.beq_iff j k, e.beq_iff k j)

  pub erase-IsUnique : (k : K) (m : Map K V) → IsUnique m → IsUnique (erase k m)
  unfolding erase lookup
  erase-IsUnique k [] u = tt
  erase-IsUnique k ((j, w) ∷ m) u =
      ground (arith, erase-IsUnique k m u.1, lookup-erase k j m, e.beq_iff j k, e.beq_iff k j)

  -- `size()`
  abbrev pub size : Map K V → ℕ
  size m = length m

  pub size-insert :
      (k : K) (v : V) (m : Map K V)
      → size (insert k v m) ≡ elim (lookup k m) [ none ↦ size m + 1 | some w ↦ size m ]
  unfolding insert lookup
  size-insert k v [] = omega arith
  size-insert k v ((j, w) ∷ m) = ground (arith, size-insert k v m)

  erase_absent : (k : K) (m : Map K V) → lookup k m ≡ none → erase k m ≡ m
  unfolding erase lookup
  erase_absent k [] h = refl
  erase_absent k ((j, w) ∷ m) h = ground (arith, erase_absent k m)

  pub size-erase :
      (k : K) (m : Map K V)
      → IsUnique m
      → size m ≡ elim (lookup k m) [ none ↦ size (erase k m) | some w ↦ size (erase k m) + 1 ]
  unfolding erase lookup
  size-erase k [] u = refl
  size-erase k ((j, w) ∷ m) u = ground (arith, size-erase k m u.1, erase_absent k m, e.beq_iff j k)

module _ {ℓ κ μ} {K : Type ℓ} {V : Type κ} ⦃e : Eq K⦄ where
  -- A property of every value that is stored.
  abbrev pub AllValues : (V → Type μ) → Map K V → Type μ
  AllValues P [] = Unit
  AllValues P ((k, v) ∷ m) = P v × AllValues P m

  pub AllValues-insert :
      (P : V → Type μ) (k : K) (v : V) (m : Map K V)
      → P v
      → AllValues P m
      → AllValues P (insert k v m)
  unfolding insert
  AllValues-insert P k v [] p h = (p, tt)
  AllValues-insert P k v ((j, w) ∷ m) p h = elim (Bool-cases (e.beq j k)) [
    | inl same ↦ rw same (p, h.1)
    | inr other ↦ rw other (h.0, AllValues-insert P k v m p h.1)
  ]

  pub AllValues-erase :
      (P : V → Type μ) (k : K) (m : Map K V) → AllValues P m → AllValues P (erase k m)
  unfolding erase
  AllValues-erase P k [] h = tt
  AllValues-erase P k ((j, w) ∷ m) h = elim (Bool-cases (e.beq j k)) [
    | inl same ↦ rw same (AllValues-erase P k m h.1)
    | inr other ↦ rw other (h.0, AllValues-erase P k m h.1)
  ]

  pub AllValues-lookup :
      (P : V → Type μ) (k : K) (v : V) (m : Map K V) → AllValues P m → lookup k m ≡ some v → P v
  unfolding lookup
  AllValues-lookup P k v [] h e' = cc
  AllValues-lookup P k v ((j, w) ∷ m) h e' = elim (Bool-cases (e.beq j k)) [
    | inl same ↦ subst P (ground arith) h.0
    | inr other ↦ AllValues-lookup P k v m h.1 (ground arith)
  ]
