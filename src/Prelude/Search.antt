-- ===== src/Prelude/Search.antt =====
-- std::string::find of a text, with what stands before the first match and behind it; and
-- std::string::c_str read as far as its end.
use mcx.Prelude.{
  ℕ, ◌≡◌, refl, false, Option, none, some, [], ◌∷◌, ◌++◌, arith, ◌==◌, if◌then◌else◌, All,
}
use mcx.Prelude.Text.{Text}

-- The text behind a prefix.
unfoldable pub behind : Text → Text → Option Text
behind [] s = some s
behind (k ∷ key) [] = none
behind (k ∷ key) (c ∷ s) = let rest = behind key s in if k == c then rest else none

-- What stands before the first match of `key`, and behind it.
unfoldable pub cut_at : Text → Text → Option (Text × Text)
unfolding behind
cut_at key [] = elim (behind key []) [ none ↦ none | some rest ↦ some ([], rest) ]
cut_at key (c ∷ s) =
    let later = cut_at key s in
    elim (behind key (c ∷ s)) [
      | none ↦ elim later [ none ↦ none | some (before, rest) ↦ some (c ∷ before, rest) ]
      | some rest ↦ some ([], rest)
    ]

-- The bytes before the first zero.
unfoldable pub c_str : Text → Text
c_str [] = []
c_str (c ∷ s) = let rest = c_str s in if c == 0 then [] else c ∷ rest

-- No byte is that one.
abbrev pub Without : ℕ → Text → Type 0
Without b = All (λ c. (c == b) ≡ false)

pub behind-append : (key s : Text) → behind key (key ++ s) ≡ some s
unfolding behind
behind-append [] s = refl
behind-append (k ∷ key) s = ground (arith, behind-append key s)

pub c_str-Without : (s : Text) → Without 0 s → c_str s ≡ s
unfolding c_str
c_str-Without [] h = refl
c_str-Without (c ∷ s) h = ground (arith, h.0, c_str-Without s h.1)

-- A match at the head.
pub cut_at-head : (k : ℕ) (key s : Text) → cut_at (k ∷ key) ((k ∷ key) ++ s) ≡ some ([], s)
unfolding cut_at
cut_at-head k key s = rw (cut_at, behind-append (k ∷ key) s) refl

behind_other : (k c : ℕ) (key s : Text) → (c == k) ≡ false → behind (k ∷ key) (c ∷ s) ≡ none
unfolding behind
behind_other k c key s h = ground (arith, h)

pub cut_at_step :
    (key : Text) (c : ℕ) (s : Text) {a b : Text}
    → behind key (c ∷ s) ≡ none
    → cut_at key s ≡ some (a, b)
    → cut_at key (c ∷ s) ≡ some (c ∷ a, b)
unfolding cut_at
cut_at_step key c s h e = rw (cut_at, h, e) refl

cut_at_step_none :
    (key : Text) (c : ℕ) (s : Text)
    → behind key (c ∷ s) ≡ none
    → cut_at key s ≡ none
    → cut_at key (c ∷ s) ≡ none
unfolding cut_at
cut_at_step_none key c s h e = rw (cut_at, h, e) refl

-- The search goes past a text that does not have the first byte of the key.
pub cut_at-Without :
    (k : ℕ) (key before s : Text) {a b : Text}
    → Without k before
    → cut_at (k ∷ key) s ≡ some (a, b)
    → cut_at (k ∷ key) (before ++ s) ≡ some (before ++ a, b)
cut_at-Without k key [] s h e = e
cut_at-Without k key (c ∷ before) s h e =
    cut_at_step (k ∷ key) c (before ++ s) (behind_other k c key (before ++ s) h.0)
      (cut_at-Without k key before s h.1 e)

pub cut_at-none : (k : ℕ) (key s : Text) → Without k s → cut_at (k ∷ key) s ≡ none
unfolding cut_at behind
cut_at-none k key [] h = refl
cut_at-none k key (c ∷ s) h =
    cut_at_step_none (k ∷ key) c s (behind_other k c key s h.0) (cut_at-none k key s h.1)
