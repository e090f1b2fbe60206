-- ===== src/Maps/Keyed.antt =====
-- Maps whose values name their own key, each key once.
use mcx.Prelude.{
  ◌≡◌, refl, subst, inl, inr, none, some, [], ◌∷◌, arith, Bool-cases, Eq, nat_eq, text_key,
}
use mcx.Maps.{Map, lookup, insert, erase, lookup-insert, lookup-erase}

module _ {ℓ κ} {K : Type ℓ} {V : Type κ} ⦃e : Eq K⦄ (key : V → K) where
  abbrev pub IsKeyed : Map K V → Type (ℓ ⊔ κ)
  IsKeyed [] = Unit
  IsKeyed ((k, v) ∷ m) = (k ≡ key v) × (lookup k m ≡ none) × IsKeyed m

  pub insert-IsKeyed :
      (k : K) (v : V) (m : Map K V) → k ≡ key v → IsKeyed m → IsKeyed (insert k v m)
  unfolding insert lookup
  insert-IsKeyed k v [] h u = (h, refl, tt)
  insert-IsKeyed k v ((j, w) ∷ m) h u = elim (Bool-cases (e.beq j k)) [
    | inl same ↦ rw same (h, subst (λ (i : K). lookup i m ≡ none) ((e.beq_iff j k).0 same) u.1, u.2)
    | inr other ↦ rw other (
      u.0,
      ground (arith, u.1, other, lookup-insert k j v m, e.beq_iff j k, e.beq_iff k j),
      insert-IsKeyed k v m h u.2,
    )
  ]

  pub erase-IsKeyed : (k : K) (m : Map K V) → IsKeyed m → IsKeyed (erase k m)
  unfolding erase lookup
  erase-IsKeyed k [] u = tt
  erase-IsKeyed k ((j, w) ∷ m) u = elim (Bool-cases (e.beq j k)) [
    | inl same ↦ rw same (erase-IsKeyed k m u.2)
    | inr other ↦ rw other (
      u.0,
      ground (arith, u.1, other, lookup-erase k j m, e.beq_iff j k, e.beq_iff k j),
      erase-IsKeyed k m u.2,
    )
  ]

  pub lookup-IsKeyed : (k : K) (v : V) (m : Map K V) → IsKeyed m → lookup k m ≡ some v → k ≡ key v
  unfolding lookup
  lookup-IsKeyed k v [] u h = cc
  lookup-IsKeyed k v ((j, w) ∷ m) u h = elim (Bool-cases (e.beq j k)) [
    | inl same ↦ let q : some w ≡ some v = rw same at h in cc (u.0, q, (e.beq_iff j k).0 same)
    | inr other ↦ lookup-IsKeyed k v m u.2 (rw other at h)
  ]
