-- ===== src/Maps/Sum.antt =====
-- The sum of a number over the values of a map.
use mcx.Prelude.{◌≡◌, ap, inl, inr, none, some, [], ◌∷◌, arith, Bool-cases, Eq, nat_eq, text_key}
use mcx.Prelude.Int.{ℤ, pos, pos_part, neg_part, ◌+ℤ◌, ◌≤ℤ◌, int_laws}
use mcx.Maps.{Map, lookup, insert, AllValues}

module _ {ℓ κ} {K : Type ℓ} {V : Type κ} ⦃e : Eq K⦄ (f : V → ℤ) where
  abbrev pub sum_by : Map K V → ℤ
  sum_by [] = pos 0
  sum_by ((k, v) ∷ m) = f v +ℤ sum_by m

  pub sum_by-insert :
      (k : K) (v old : V) (m : Map K V)
      → lookup k m ≡ some old
      → sum_by (insert k v m) +ℤ f old ≡ sum_by m +ℤ f v
  unfolding lookup insert
  sum_by-insert k v old [] h = cc
  sum_by-insert k v old ((j, w) ∷ m) h = grind (int_laws, sum_by-insert k v old m)

  pub sum_by-insert_new :
      (k : K) (v : V) (m : Map K V) → lookup k m ≡ none → sum_by (insert k v m) ≡ sum_by m +ℤ f v
  unfolding lookup insert
  sum_by-insert_new k v [] h = omega int_laws
  sum_by-insert_new k v ((j, w) ∷ m) h = grind (int_laws, sum_by-insert_new k v m)

  pub sum_by_nonneg : (m : Map K V) → AllValues (λ v. pos 0 ≤ℤ f v) m → pos 0 ≤ℤ sum_by m
  sum_by_nonneg [] h = omega arith
  sum_by_nonneg ((k, v) ∷ m) h = omega (int_laws, sum_by_nonneg m h.1)

  -- Where no value counts below zero, one value is at most the sum.
  pub le-sum_by :
      (k : K) (v : V) (m : Map K V)
      → AllValues (λ v. pos 0 ≤ℤ f v) m
      → lookup k m ≡ some v
      → f v ≤ℤ sum_by m
  unfolding lookup
  le-sum_by k v [] h e' = cc
  le-sum_by k v ((j, w) ∷ m) h e' = elim (Bool-cases (e.beq j k)) [
    | inl same ↦
        let q : w ≡ v = ground arith in
        omega (
          int_laws,
          sum_by_nonneg m h.1,
          ap (λ (u : V). pos_part (f u)) q,
          ap (λ (u : V). neg_part (f u)) q,
        )
    | inr other ↦ omega (int_laws, le-sum_by k v m h.1 (ground arith))
  ]
