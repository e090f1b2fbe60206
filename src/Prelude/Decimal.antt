-- ===== src/Prelude/Decimal.antt =====
-- Numbers in texts: std::isspace, std::stoi (white space, a sign, then digits; `none` is what it
-- throws), and std::to_string of a number that is not negative.
use mcx.Prelude.{
  ℕ, zero, suc, ◌+◌, ◌-◌, ◌*◌, ◌/◌, ◌%◌, ◌^◌, ◌<◌, ◌≡◌, ◌≢◌, refl, sym, ◌∙◌, ap, Bool, true, false,
  ◌&&◌, ◌||◌, Option, none, some, [], ◌∷◌, ltb, leb, ◌==◌, if◌then◌else◌, arith, inl, inr,
  Bool-cases, ◌++◌, subst, append_nil, All, length, ◌≤◌,
}
use native.Mathlib.Nat.{pow-suc}
use mcx.Prelude.Text.{Text}
use mcx.Prelude.Int.{ℤ, pos, negsuc, ltb_ℤ, sub_ℕ}

-- std::isspace in the classic locale.
unfoldable pub is_space : ℕ → Bool
is_space c = c == 32 || (leb 9 c && leb c 13)

unfoldable pub skip_spaces : Text → Text
skip_spaces [] = []
skip_spaces (c ∷ cs) = let rest = skip_spaces cs in if is_space c then rest else c ∷ cs

unfoldable pub is_digit : ℕ → Bool
is_digit c = leb 48 c && leb c 57

-- The value of the digits at the head, behind what was read so far.
unfoldable pub digits_behind : ℕ → Text → ℕ
digits_behind n [] = n
digits_behind n (c ∷ cs) =
    let rest = digits_behind (n * 10 + (c - 48)) cs in if is_digit c then rest else n

unfoldable pub digits : Text → Option ℕ
digits [] = none
digits (c ∷ cs) = if is_digit c then some (digits_behind 0 (c ∷ cs)) else none

-- An int, or `none` where stoi throws out_of_range.
unfoldable pub in_range : ℤ → Option ℤ
in_range n = if ltb_ℤ n (negsuc (2 ^ 31 - 1)) || ltb_ℤ (pos (2 ^ 31 - 1)) n then none else some n

unfoldable pub stoi_unsigned : Bool → Text → Option ℤ
stoi_unsigned minus s = elim (digits s) [
  | none ↦ none
  | some n ↦ in_range (if minus then sub_ℕ 0 n else pos n)
]

unfoldable pub stoi_signed : Text → Option ℤ
stoi_signed [] = none
stoi_signed (c ∷ cs) =
    if c == 45
    then stoi_unsigned true cs
    else if c == 43
    then stoi_unsigned false cs
    else stoi_unsigned false (c ∷ cs)

unfoldable pub stoi : Text → Option ℤ
stoi s = stoi_signed (skip_spaces s)

-- The digits of a number, before the text that follows; on fuel.
unfoldable pub digits_of : ℕ → ℕ → Text → Text
digits_of zero n behind = behind
digits_of (suc fuel) n behind =
    let more = digits_of fuel (n / 10) ((48 + n % 10) ∷ behind) in
    if ltb n 10 then (48 + n) ∷ behind else more

unfoldable pub to_string : ℕ → Text
to_string n = digits_of (suc n) n []

-- The text of an int.
unfoldable pub int_text : ℤ → Text
int_text (pos n) = to_string n
int_text (negsuc n) = 45 ∷ to_string (suc n)

digits_behind_digit :
    (m d : ℕ) (behind : Text)
    → d < 10
    → digits_behind m ((48 + d) ∷ behind) ≡ digits_behind (m * 10 + d) behind
unfolding digits_behind is_digit
digits_behind_digit m d behind h = let e : 48 + d - 48 ≡ d = omega arith in rw e (ground arith)

-- Reading the digits of a number, and going on behind them.
digits_behind-digits_of :
    (fuel n : ℕ) (behind : Text)
    → n < fuel
    → digits_behind 0 (digits_of fuel n behind) ≡ digits_behind n behind
unfolding digits_of
digits_behind-digits_of zero n behind h = absurd (omega arith)
digits_behind-digits_of (suc fuel) n behind h = elim (Bool-cases (ltb n 10)) [
  | inl last ↦
      let e : 0 * 10 + n ≡ n = omega arith in
      rw last
        (digits_behind_digit 0 n behind (ground (arith, last)) ∙ ap (λ m. digits_behind m behind) e)
  | inr more ↦
      let e : n / 10 * 10 + n % 10 ≡ n = omega arith in
      rw more (
        digits_behind-digits_of fuel (n / 10) ((48 + n % 10) ∷ behind) (ground (arith, more))
        ∙ digits_behind_digit (n / 10) (n % 10) behind (omega arith)
        ∙ ap (λ m. digits_behind m behind) e)
]

-- The first digit.
abbrev pub StartsDigit : Text → Type 0
StartsDigit s = (d : ℕ) × (rest : Text) × (d < 10) × (s ≡ (48 + d) ∷ rest)

digits_of-StartsDigit :
    (fuel n : ℕ) (behind : Text) → n < fuel → StartsDigit (digits_of fuel n behind)
unfolding digits_of
digits_of-StartsDigit zero n behind h = absurd (omega arith)
digits_of-StartsDigit (suc fuel) n behind h = elim (Bool-cases (ltb n 10)) [
  | inl last ↦ rw last (n, behind, ground (arith, last), refl)
  | inr more ↦
      rw more (digits_of-StartsDigit fuel (n / 10) ((48 + n % 10) ∷ behind) (ground (arith, more)))
]

stoi_digit :
    (d : ℕ) (rest : Text)
    → d < 10
    → stoi ((48 + d) ∷ rest) ≡ in_range (pos (digits_behind 0 ((48 + d) ∷ rest)))
unfolding stoi skip_spaces is_space stoi_signed stoi_unsigned digits is_digit
stoi_digit d rest h = ground arith

in_range_lem : (n : ℕ) → n < 2 ^ 31 → in_range (pos n) ≡ some (pos n)
unfolding in_range
in_range_lem n h = ground arith

digits_of-append :
    (fuel n : ℕ) (behind tail : Text)
    → digits_of fuel n behind ++ tail ≡ digits_of fuel n (behind ++ tail)
unfolding digits_of
digits_of-append zero n behind tail = refl
digits_of-append (suc fuel) n behind tail =
    let more = digits_of-append fuel (n / 10) ((48 + n % 10) ∷ behind) tail in
    elim (Bool-cases (ltb n 10)) [ inl last ↦ rw last refl | inr others ↦ rw others more ]

-- What may follow a number: no further digit.
abbrev pub Ends : Text → Type 0
Ends tail = (m : ℕ) → digits_behind m tail ≡ m

pub to_string-StartsDigit : (n : ℕ) (tail : Text) → StartsDigit (to_string n ++ tail)
unfolding to_string
to_string-StartsDigit n tail =
    subst StartsDigit (sym (digits_of-append (suc n) n [] tail))
      (digits_of-StartsDigit (suc n) n tail (omega arith))

-- A number that fits an int is read back from its text, also before a text with no further digit.
pub stoi-append :
    (n : ℕ) (tail : Text) → n < 2 ^ 31 → Ends tail → stoi (to_string n ++ tail) ≡ some (pos n)
unfolding to_string
stoi-append n tail h ends =
    let (d, rest, small, e) = digits_of-StartsDigit (suc n) n tail (omega arith) in
    ap stoi (digits_of-append (suc n) n [] tail ∙ e)
    ∙ stoi_digit d rest small
    ∙ ap (λ s. in_range (pos (digits_behind 0 s))) (sym e)
    ∙ ap (λ m. in_range (pos m)) (digits_behind-digits_of (suc n) n tail (omega arith) ∙ ends n)
    ∙ in_range_lem n h

pub stoi-to_string : (n : ℕ) → n < 2 ^ 31 → stoi (to_string n) ≡ some (pos n)
unfolding digits_behind
stoi-to_string n h = ap stoi (sym (append_nil (to_string n))) ∙ stoi-append n [] h (λ m. refl)

-- The text of a number is not empty.
pub to_string-ne-nil : (n : ℕ) → to_string n ≢ []
unfolding to_string
to_string-ne-nil n h = let s = digits_of-StartsDigit (suc n) n [] (omega arith) in cc

digits_of-Below :
    (b fuel n : ℕ) (behind : Text)
    → b < 48
    → All (λ c. (c == b) ≡ false) behind
    → All (λ c. (c == b) ≡ false) (digits_of fuel n behind)
unfolding digits_of
digits_of-Below b zero n behind h rest = rest
digits_of-Below b (suc fuel) n behind h rest =
    let further =
      digits_of-Below b fuel (n / 10) ((48 + n % 10) ∷ behind) h (other (n % 10), rest) in
    elim (Bool-cases (ltb n 10)) [ inl last ↦ rw last (other n, rest) | inr more ↦ rw more further ]
  where
    other : (d : ℕ) → (48 + d == b) ≡ false
    other d = ground arith

-- A number's text has none of the bytes below the digits.
pub to_string-Without : (b n : ℕ) → b < 48 → All (λ c. (c == b) ≡ false) (to_string n)
unfolding to_string
to_string-Without b n h = digits_of-Below b (suc n) n [] h tt

pub digits_behind-to_string : (n : ℕ) → digits_behind 0 (to_string n) ≡ n
unfolding to_string digits_behind
digits_behind-to_string n = digits_behind-digits_of (suc n) n [] (omega arith)

digits_of-AllDigits :
    (fuel n : ℕ) (behind : Text)
    → All (λ c. is_digit c ≡ true) behind
    → All (λ c. is_digit c ≡ true) (digits_of fuel n behind)
unfolding digits_of is_digit
digits_of-AllDigits zero n behind rest = rest
digits_of-AllDigits (suc fuel) n behind rest =
    let further =
      digits_of-AllDigits fuel (n / 10) ((48 + n % 10) ∷ behind)
        (digit (n % 10) (omega arith), rest) in
    elim (Bool-cases (ltb n 10)) [
      | inl last ↦ rw last (digit n (ground (arith, last)), rest)
      | inr more ↦ rw more further
    ]
  where
    digit : (d : ℕ) → d < 10 → is_digit (48 + d) ≡ true
    digit d h = ground arith

pub to_string-AllDigits : (n : ℕ) → All (λ c. is_digit c ≡ true) (to_string n)
unfolding to_string
to_string-AllDigits n = digits_of-AllDigits (suc n) n [] tt

length-digits_of-le :
    (k fuel n : ℕ) (behind : Text)
    → n < 10 ^ suc k
    → length (digits_of fuel n behind) ≤ suc k + length behind
unfolding digits_of
length-digits_of-le k zero n behind h = omega arith
length-digits_of-le zero (suc fuel) n behind h =
    let last : ltb n 10 ≡ true = ground (arith, h) in rw last (omega arith)
length-digits_of-le (suc k) (suc fuel) n behind h =
    let small : n / 10 < 10 ^ suc k = grind (arith, pow-suc 10 (suc k)) in
    let further = length-digits_of-le k fuel (n / 10) ((48 + n % 10) ∷ behind) small in
    elim (Bool-cases (ltb n 10)) [
      | inl last ↦ rw last (omega arith)
      | inr more ↦ rw more (omega arith)
    ]

pub length-to_string-le : (k n : ℕ) → n < 10 ^ suc k → length (to_string n) ≤ suc k
unfolding to_string
length-to_string-le k n h = omega (arith, length-digits_of-le k (suc n) n [] h)
