-- ===== src/Backups/Retention.antt =====
-- Which backups CleanupOldBackups of src/core/backup_manager.cpp keeps.
use mcx.Prelude.{
  ℕ, zero, suc, ◌+◌, ◌-◌, min, ◌≡◌, refl, sym, ap, ◌∙◌, true, false, none, some, List, [], ◌∷◌,
  ◌++◌, arith, leb, Bool-cases, inl, inr, subst, length, take, drop, take-append-drop, All, text_eq,
  text_eq_iff, text_key,
}
use mathlib.Core.List.{Mem, Perm, mem_of_ne_of_mem, mem-cons, not-mem-nil}
use mathlib.Core.List.Perm
use mcx.Prelude.Text.{Text}
use mcx.Maps.{Map, lookup, erase, IsUnique, erase-IsUnique, size-erase}
use mcx.Backups.{names, delete, cleanup_old_backups}

-- Each name of the first list precedes each of the second.
abbrev pub Precedes : (Text → Text → Type 0) → List Text → List Text → Type 0
Precedes R xs ys = All (λ x. All (R x) ys) xs

-- Each name precedes those behind it: what std::sort achieves.
abbrev pub IsSorted : (Text → Text → Type 0) → List Text → Type 0
IsSorted R [] = Unit
IsSorted R (x ∷ xs) = All (R x) xs × IsSorted R xs

All-drop : (P : Text → Type 0) (n : ℕ) (xs : List Text) → All P xs → All P (drop n xs)
All-drop P zero xs h = h
All-drop P (suc n) [] h = h
All-drop P (suc n) (x ∷ xs) h = All-drop P n xs h.1

take-Precedes :
    (R : Text → Text → Type 0) (n : ℕ) (xs : List Text)
    → IsSorted R xs
    → Precedes R (take n xs) (drop n xs)
take-Precedes R zero xs h = tt
take-Precedes R (suc n) [] h = tt
take-Precedes R (suc n) (x ∷ xs) h = (All-drop (R x) n xs h.0, take-Precedes R n xs h.1)

mem_other :
    (name j : Text) (xs : List Text) → text_eq j name ≡ false → Mem name (j ∷ xs) → Mem name xs
mem_other name j xs h m =
    mem_of_ne_of_mem (λ e. true-ne (sym ((text_eq_iff j name).1 (sym e)) ∙ h)) m
  where
    true-ne : true ≡ false → ⊥
    true-ne e = cc

module _ {Tree : Type 0} where
  erase_missing :
      (name : Text) (dir : Map Text Tree) → lookup name dir ≡ none → erase name dir ≡ dir
  unfolding erase lookup
  erase_missing name [] h = refl
  erase_missing name ((j, tree) ∷ dir) h = ground (arith, erase_missing name dir)

  erase_same :
      (name j : Text) (tree : Tree) (dir : Map Text Tree)
      → text_eq j name ≡ true
      → erase name ((j, tree) ∷ dir) ≡ erase name dir
  unfolding erase
  erase_same name j tree dir h = rw (erase, h) refl

  erase_other :
      (name j : Text) (tree : Tree) (dir : Map Text Tree)
      → text_eq j name ≡ false
      → erase name ((j, tree) ∷ dir) ≡ (j, tree) ∷ erase name dir
  unfolding erase
  erase_other name j tree dir h = rw (erase, h) refl

  -- The names, with one that is there put in front.
  names-erase :
      (name : Text) (dir : Map Text Tree)
      → IsUnique dir
      → Mem name (names dir)
      → Perm (names dir) (name ∷ names (erase name dir))
  names-erase name [] u m = absurd (not-mem-nil m)
  names-erase name ((j, tree) ∷ dir) u m = elim (Bool-cases (text_eq j name)) [
    | inl same ↦
        let e = (text_eq_iff j name).0 same in
        let d : erase name ((j, tree) ∷ dir) ≡ dir =
          erase_same name j tree dir same
          ∙ erase_missing name dir (subst (λ k. lookup k dir ≡ none) e u.0) in
        subst (λ k. Perm (j ∷ names dir) (k ∷ names (erase name ((j, tree) ∷ dir)))) e
          (subst (λ d. Perm (j ∷ names dir) (j ∷ names d)) (sym d) (Perm.refl (j ∷ names dir)))
    | inr other ↦
        let rest = names-erase name dir u.1 (mem_other name j (names dir) other m) in
        subst (λ d. Perm (j ∷ names dir) (name ∷ names d)) (sym (erase_other name j tree dir other))
          (Perm.trans (Perm.cons j rest) (Perm.swap name j (names (erase name dir))))
  ]

  lookup-Mem :
      (name : Text) (dir : Map Text Tree)
      → Mem name (names dir)
      → (tree : Tree) × (lookup name dir ≡ some tree)
  unfolding lookup
  lookup-Mem name [] m = absurd (not-mem-nil m)
  lookup-Mem name ((j, tree) ∷ dir) m = elim (Bool-cases (text_eq j name)) [
    | inl same ↦ (tree, rw (lookup, same) refl)
    | inr other ↦
        let (t, e) = lookup-Mem name dir (mem_other name j (names dir) other m) in
        (t, rw (lookup, other) e)
  ]

  -- Deleting the front of the sorted names leaves the rest of them.
  delete_front :
      (n : ℕ) (sorted : List Text) (dir : Map Text Tree)
      → IsUnique dir
      → Perm sorted (names dir)
      → Perm (drop n sorted) (names (delete (take n sorted) dir))
        × (length (delete (take n sorted) dir) ≡ length dir - n)
  unfolding delete
  delete_front zero sorted dir u p = (p, omega arith)
  delete_front (suc n) [] [] u p = (p, omega arith)
  delete_front (suc n) [] (e ∷ dir) u p = absurd (cons-ne (Perm.nil-eq p))
    where
      cons-ne : {x : Text} {xs : List Text} → [] ≡ x ∷ xs → ⊥
      cons-ne e = cc
  delete_front (suc n) (name ∷ sorted) dir u p =
      let m : Mem name (names dir) = (Perm.mem_iff p).0 (mem-cons.1 (∣ inl refl ∣₁)) in
      let (tree, found) = lookup-Mem name dir m in
      let size = size-erase name dir u in
      let rest = Perm.cons_inv (Perm.trans p (names-erase name dir u m)) in
      let (kept, count) = delete_front n sorted (erase name dir) (erase-IsUnique name dir u) rest in
      let one_less : length dir ≡ length (erase name dir) + 1 = size ∙ rw found refl in
      (kept, omega arith)

  cleanup_old_backups-delete :
      (sort : List Text → List Text) (max_backups : ℕ) (dir : Map Text Tree)
      → cleanup_old_backups sort max_backups dir
        ≡ delete (take (length dir - max_backups) (sort (names dir))) dir
  unfolding cleanup_old_backups delete
  cleanup_old_backups-delete sort max_backups dir =
      elim (Bool-cases (leb (length dir) max_backups)) [
        | inl few ↦
            let nothing : length dir - max_backups ≡ 0 = ground (arith, few) in
            rw (few, nothing) refl
        | inr many ↦ rw many refl
      ]

  -- What CleanupOldBackups leaves of a directory, which has no name twice. Where std::sort permutes
  -- the names into an order, the backups that are left are as many as there were, but at most
  -- `max_backups`; together with those that are deleted they are all that there were; and each one
  -- that is deleted precedes, by its name, each one that is left.
  cleanup_old_backups-Precedes :
      (sort : List Text → List Text) (R : Text → Text → Type 0) (max_backups : ℕ)
      (dir : Map Text Tree)
      → IsUnique dir
      → Perm (sort (names dir)) (names dir)
      → IsSorted R (sort (names dir))
      → (length (cleanup_old_backups sort max_backups dir) ≡ min max_backups (length dir))
        × (deleted : List Text) × (kept : List Text) × Perm kept
            (names (cleanup_old_backups sort max_backups dir))
        × Perm (deleted ++ kept) (names dir)
        × Precedes R deleted kept
  cleanup_old_backups-Precedes sort R max_backups dir u p s =
      let n = length dir - max_backups in
      let sorted = sort (names dir) in
      let e = cleanup_old_backups-delete sort max_backups dir in
      let (kept, count) = delete_front n sorted dir u p in
      (
        ap (λ d. length d) e ∙ count ∙ omega arith,
        take n sorted,
        drop n sorted,
        subst (λ d. Perm (drop n sorted) (names d)) (sym e) kept,
        subst (λ l. Perm l (names dir)) (sym (take-append-drop n sorted)) p,
        take-Precedes R n sorted s,
      )
