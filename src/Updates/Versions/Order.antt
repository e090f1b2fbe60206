-- ===== src/Updates/Versions/Order.antt =====
-- IsVersionNewer is the lexicographic order of the parts, with 0 for a missing part.
use mcx.Prelude.{
  ℕ, zero, suc, ◌≤◌, ◌<◌, max, ◌≡◌, refl, sym, ap, ◌∙◌, none, some, ◌++◌, map, append_nil, ◌==◌,
  subst, ◌↔◌, inl, inr, Bool, true, false, List, [], ◌∷◌, arith, ltb, if◌then◌else◌, length,
  Bool-cases,
}
use mathlib.Core.List.{append_assoc}
use mcx.Prelude.Text.{Text}
use mcx.Prelude.Int.{ℤ, pos, ltb_ℤ, eq_of_parts}
use mcx.Prelude.Decimal.{stoi, stoi_signed, stoi_unsigned, digits, skip_spaces}
use mcx.Updates.Versions.{
  part_of, split_dots, drop_v, parse_version_parts, resize, first_greater, newer_parts,
  is_version_newer,
}

-- The part at an index; a version goes on with parts that are 0.
unfoldable pub part : List ℤ → ℕ → ℤ
part [] i = pos 0
part (a ∷ parts) zero = a
part (a ∷ parts) (suc i) = part parts i

-- At the first index where they differ, the part of `a` is the greater one.
abbrev pub IsAhead : List ℤ → List ℤ → Type 0
IsAhead a b =
    (i : ℕ) × ((j : ℕ) → j < i → part a j ≡ part b j) × (ltb_ℤ (part b i) (part a i) ≡ true)

abbrev rest_of : List ℤ → List ℤ
rest_of [] = []
rest_of (a ∷ parts) = parts

part_later : (a : List ℤ) (i : ℕ) → part a (suc i) ≡ part (rest_of a) i
unfolding part
part_later [] i = refl
part_later (x ∷ a) i = refl

resize-head : (n : ℕ) (a : List ℤ) → resize (suc n) a ≡ part a 0 ∷ resize n (rest_of a)
unfolding resize part
resize-head n [] = refl
resize-head n (x ∷ a) = refl

length-rest_of : (a : List ℤ) (n : ℕ) → length a ≤ suc n → length (rest_of a) ≤ n
length-rest_of [] n l = omega arith
length-rest_of (x ∷ a) n l = omega arith

agree_cons :
    (a b : List ℤ) (i : ℕ)
    → part a 0 ≡ part b 0
    → ((j : ℕ) → j < i → part (rest_of a) j ≡ part (rest_of b) j)
    → (j : ℕ) → j < suc i
    → part a j ≡ part b j
agree_cons a b i e h zero l = e
agree_cons a b i e h (suc j) l = part_later a j ∙ h j (omega arith) ∙ sym (part_later b j)

IsAhead-cons : (a b : List ℤ) → part a 0 ≡ part b 0 → IsAhead (rest_of a) (rest_of b) → IsAhead a b
IsAhead-cons a b e (i, before, at) =
    (suc i, agree_cons a b i e before, rw (part_later a i, part_later b i) at)

-- One turn of the loop.
first_greater-cons :
    (x y : ℤ) (a b : List ℤ)
    → first_greater (x ∷ a) (y ∷ b)
      ≡ (if ltb_ℤ y x then true else if ltb_ℤ x y then false else first_greater a b)
unfolding first_greater
first_greater-cons x y a b = refl

first_greater-resize :
    (n : ℕ) (a b : List ℤ)
    → first_greater (resize (suc n) a) (resize (suc n) b) ≡ (
        if ltb_ℤ (part b 0) (part a 0)
        then true
        else if ltb_ℤ (part a 0) (part b 0)
        then false
        else first_greater (resize n (rest_of a)) (resize n (rest_of b)))
first_greater-resize n a b =
    rw (resize-head n a, resize-head n b)
      (first_greater-cons (part a 0) (part b 0) (resize n (rest_of a)) (resize n (rest_of b)))

-- One turn, by the order of the two parts.
abbrev turn : ℤ → ℤ → Bool → Bool
turn x y rest = if ltb_ℤ y x then true else if ltb_ℤ x y then false else rest

turn_lost : (x y : ℤ) (rest : Bool) → ltb_ℤ x y ≡ true → turn x y rest ≡ true → ⊥
turn_lost x y rest less h = ground (arith, less, h)

turn_self : (y : ℤ) (rest : Bool) → turn y y rest ≡ rest
turn_self y rest = ground arith

turn_even : (x y : ℤ) (rest : Bool) → x ≡ y → turn x y rest ≡ rest
turn_even x y rest e = rw e (turn_self y rest)

same_part : (x y : ℤ) → ltb_ℤ y x ≡ false → ltb_ℤ x y ≡ false → x ≡ y
same_part x y no_more no_less = eq_of_parts x y (ground arith)

none_below : {j : ℕ} → j < 0 → ⊥
none_below l = omega arith

first_greater-IsAhead :
    (n : ℕ) (a b : List ℤ) → first_greater (resize n a) (resize n b) ≡ true → IsAhead a b
unfolding first_greater resize
first_greater-IsAhead zero a b h = cc
first_greater-IsAhead (suc n) a b h =
    let e = first_greater-resize n a b in
    elim (Bool-cases (ltb_ℤ (part b 0) (part a 0))) [
      | inl more ↦ (0, (λ j l. absurd (none_below l)), more)
      | inr no_more ↦ elim (Bool-cases (ltb_ℤ (part a 0) (part b 0))) [
        | inl less ↦ absurd (
            turn_lost (part a 0) (part b 0)
              (first_greater (resize n (rest_of a)) (resize n (rest_of b))) less (sym e ∙ h))
        | inr no_less ↦
            let same = same_part (part a 0) (part b 0) no_more no_less in
            let even =
              turn_even (part a 0) (part b 0)
                (first_greater (resize n (rest_of a)) (resize n (rest_of b))) same in
            IsAhead-cons a b same
              (first_greater-IsAhead n (rest_of a) (rest_of b) (sym even ∙ sym e ∙ h))
      ]
    ]

none_left : {n : ℕ} → suc n ≤ 0 → ⊥
none_left f = omega arith

IsAhead-first_greater :
    (n : ℕ) (a b : List ℤ)
    → length a ≤ n
    → length b ≤ n
    → IsAhead a b
    → first_greater (resize n a) (resize n b) ≡ true
unfolding part
IsAhead-first_greater zero [] [] la lb (i, before, at) = cc
IsAhead-first_greater zero (x ∷ a) b la lb h = absurd (none_left la)
IsAhead-first_greater zero [] (y ∷ b) la lb h = absurd (none_left lb)
IsAhead-first_greater (suc n) a b la lb (zero, before, at) = first_greater-resize n a b ∙ rw at refl
IsAhead-first_greater (suc n) a b la lb (suc i, before, at) =
    let later : IsAhead (rest_of a) (rest_of b) = (
      i,
      (λ j l. sym (part_later a j) ∙ before (suc j) (omega arith) ∙ part_later b j),
      rw (sym (part_later a i), sym (part_later b i)) at,
    ) in
    first_greater-resize n a b
    ∙ turn_even (part a 0) (part b 0) (first_greater (resize n (rest_of a)) (resize n (rest_of b)))
        (before 0 (omega arith))
    ∙ IsAhead-first_greater n (rest_of a) (rest_of b) (length-rest_of a n la)
        (length-rest_of b n lb) later

is_version_newer-parts :
    (candidate current : Text)
    → (is_version_newer candidate current ≡ true)
      ↔ IsAhead (parse_version_parts candidate) (parse_version_parts current)
unfolding is_version_newer newer_parts
is_version_newer-parts candidate current =
    let a = parse_version_parts candidate in
    let b = parse_version_parts current in
    let n = max (length a) (length b) in
    (first_greater-IsAhead n a b, IsAhead-first_greater n a b (omega arith) (omega arith))

-- What stands between two dots, counted from 0; nothing behind the last of them.
abbrev pub between : ℕ → Text → Text
between zero [] = []
between zero (c ∷ cs) = if c == 46 then [] else c ∷ between zero cs
between (suc i) [] = []
between (suc i) (c ∷ cs) = if c == 46 then between i cs else between (suc i) cs

-- The number that std::stoi reads, and 0 where it throws.
abbrev pub number : Text → ℤ
number token = elim (stoi token) [ none ↦ pos 0 | some n ↦ n ]

-- The numbers of a version, where a `v` or `V` in front does not belong to the first one.
abbrev pub number_at : ℕ → Text → ℤ
number_at i [] = pos 0
number_at i (c ∷ cs) =
    if c == 118
    then number (between i cs)
    else if c == 86
    then number (between i cs)
    else number (between i (c ∷ cs))

-- At the first index where they differ, the number of `a` is the greater one.
abbrev pub IsNewer : Text → Text → Type 0
IsNewer a b =
    (i : ℕ) × ((j : ℕ) → j < i → number_at j a ≡ number_at j b)
    × (ltb_ℤ (number_at i b) (number_at i a) ≡ true)

-- The fields behind a token that is being read.
abbrev behind_dots : Text → ℕ → Text → Text
behind_dots token zero cs = token ++ between zero cs
behind_dots token (suc i) cs = between (suc i) cs

number_empty : number [] ≡ pos 0
unfolding stoi stoi_signed stoi_unsigned digits skip_spaces
number_empty = refl

between_none : (i : ℕ) (cs : Text) → behind_dots [] i cs ≡ between i cs
between_none zero cs = refl
between_none (suc i) cs = refl

part_split :
    (cs token : Text) (i : ℕ)
    → part (map part_of (split_dots token cs)) i ≡ number (behind_dots token i cs)
unfolding part split_dots part_of
part_split [] [] zero = sym number_empty
part_split [] [] (suc i) = sym number_empty
part_split [] (t ∷ token) zero = ap number (sym (append_nil (t ∷ token)))
part_split [] (t ∷ token) (suc i) = sym number_empty
part_split (c ∷ cs) token zero = elim (Bool-cases (c == 46)) [
  | inl dot ↦ rw dot (ap number (sym (append_nil token)))
  | inr more ↦ rw more (
      part_split cs (token ++ (c ∷ [])) zero
      ∙ ap number (append_assoc token (c ∷ []) (between zero cs)))
]
part_split (c ∷ cs) token (suc i) = elim (Bool-cases (c == 46)) [
  | inl dot ↦ rw dot (part_split cs [] i ∙ ap number (between_none i cs))
  | inr more ↦ rw more (part_split cs (token ++ (c ∷ [])) (suc i))
]

number_of_split :
    (cs : Text) (i : ℕ) → part (map part_of (split_dots [] cs)) i ≡ number (between i cs)
number_of_split cs i = part_split cs [] i ∙ ap number (between_none i cs)

move : {x x' y y' : ℤ} → x ≡ x' → y ≡ y' → ltb_ℤ x y ≡ true → ltb_ℤ x' y' ≡ true
move e f h = cc

parse_version_parts_lem :
    (version : Text) (i : ℕ) → part (parse_version_parts version) i ≡ number_at i version
unfolding parse_version_parts drop_v part split_dots
parse_version_parts_lem [] i = refl
parse_version_parts_lem (c ∷ cs) i = elim (Bool-cases (c == 118)) [
  | inl small ↦ rw small (number_of_split cs i)
  | inr other ↦ elim (Bool-cases (c == 86)) [
    | inl capital ↦ rw (other, capital) (number_of_split cs i)
    | inr none_there ↦ rw (other, none_there) (number_of_split (c ∷ cs) i)
  ]
]

-- A version is reported as newer exactly when, at the first number where the two differ, its number
-- is the greater one. The numbers are what std::stoi reads between the dots, behind a `v` or `V` in
-- front; one that is missing counts as 0, and one that std::stoi refuses as well.
pub is_version_newer-IsNewer :
    (candidate current : Text)
    → (is_version_newer candidate current ≡ true) ↔ IsNewer candidate current
is_version_newer-IsNewer candidate current =
    let (to, from) = is_version_newer-parts candidate current in
    let a = parse_version_parts_lem candidate in
    let b = parse_version_parts_lem current in
    (
      (λ h.
          let (i, before, at) = to h in
          (i, (λ j l. sym (a j) ∙ before j l ∙ b j), move (b i) (a i) at)),
      (λ h.
          let (i, before, at) = h in
          from (i, (λ j l. a j ∙ before j l ∙ sym (b j)), move (sym (b i)) (sym (a i)) at)),
    )

never_below : (x : ℤ) → ltb_ℤ x x ≡ true → ⊥
never_below x h = ground (arith, h)

never_ahead : (a : List ℤ) → IsAhead a a → ⊥
never_ahead a h = never_below (part a h.0) h.2

trans_ltb : (x y z : ℤ) → ltb_ℤ y x ≡ true → ltb_ℤ z y ≡ true → ltb_ℤ z x ≡ true
trans_ltb x y z h h' = ground (arith, h, h')

level_eq : {i k : ℕ} → ltb i k ≡ false → ltb k i ≡ false → k ≡ i
level_eq h h' = ground (arith, h, h')

IsAhead-trans : (a b c : List ℤ) → IsAhead a b → IsAhead b c → IsAhead a c
IsAhead-trans a b c (i, before, at) (k, before', at') = elim (Bool-cases (ltb i k)) [
  | inl first ↦ (
    i,
    (λ j l. before j l ∙ before' j (ground (arith, first, l))),
    subst (λ x. ltb_ℤ x (part a i) ≡ true) (before' i (ground (arith, first))) at,
  )
  | inr behind ↦ elim (Bool-cases (ltb k i)) [
    | inl second ↦ (
      k,
      (λ j l. before j (ground (arith, second, l)) ∙ before' j l),
      subst (λ x. ltb_ℤ (part c k) x ≡ true) (sym (before k (ground (arith, second)))) at',
    )
    | inr level ↦
        let same = level_eq behind level in
        (
          i,
          (λ j l. before j l ∙ before' j (rw same l)),
          trans_ltb (part a i) (part b i) (part c i) at
              (subst (λ m. ltb_ℤ (part c m) (part b m) ≡ true) same at'),
        )
  ]
]

-- Versions are ordered: what is newer than a newer version is newer, and no two versions are newer
-- than each other.
is_version_newer_trans :
    (a b c : Text)
    → is_version_newer a b ≡ true
    → is_version_newer b c ≡ true
    → (is_version_newer a c ≡ true) × (is_version_newer b a ≡ false)
is_version_newer_trans a b c h h' =
    let x = (is_version_newer-parts a b).0 h in
    let y = (is_version_newer-parts b c).0 h' in
    let pa = parse_version_parts a in
    let pb = parse_version_parts b in
    let pc = parse_version_parts c in
    (
      (is_version_newer-parts a c).1 (IsAhead-trans pa pb pc x y),
      elim (Bool-cases (is_version_newer b a)) [
        | inl both ↦
            absurd (never_ahead pa (IsAhead-trans pa pb pa x ((is_version_newer-parts b a).0 both)))
        | inr only ↦ only
      ],
    )
