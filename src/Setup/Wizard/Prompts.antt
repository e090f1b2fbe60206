-- ===== src/Setup/Wizard/Prompts.antt =====
-- The questions of the wizard of src/core/setup_wizard.cpp come to an end, with an answer in range.
use mcx.Prelude.{
  ℕ, zero, suc, ◌+◌, ◌^◌, ◌≤◌, ◌<◌, ◌≡◌, refl, inl, inr, true, false, Option, none, some, [], ◌∷◌,
  arith, Bool-cases, Option-cases, length,
}
use mcx.Prelude.Text.{Text, codes}
use mcx.Prelude.Decimal.{to_string, stoi-to_string}
use mcx.Prelude.Decimal.{is_digit, digits_behind}
use mcx.Setup.Address.{validate_ip, match_quad, octet, dotted, dot, span_digits, all_octets}
use mcx.Setup.Wizard.{Input, prompt_string, in_bounds, prompt_int, prompt_ip}

pub prompt_string-le :
    (default : Text) (input : Input) → length (prompt_string default input).1 ≤ length input
unfolding prompt_string
prompt_string-le default [] = omega arith
prompt_string-le default (line ∷ input) = omega arith

in_bounds_lem :
    (min max : ℕ) (response : Text) {n : ℕ}
    → in_bounds min max response ≡ some n
    → (min ≤ n) × (n ≤ max)
unfolding in_bounds
in_bounds_lem min max response e = ground arith

in_bounds-to_string :
    (min max n : ℕ) → n < 2 ^ 31 → min ≤ n → n ≤ max → in_bounds min max (to_string n) ≡ some n
unfolding in_bounds
in_bounds-to_string min max n h lo hi = rw (in_bounds, stoi-to_string n h) (ground arith)

-- An answer of a loop, with what is left of the input.
abbrev pub Answers : {A : Type 0} → (A → Type 0) → Input → Option (A × Input) → Type 0
Answers P input none = ⊥
Answers P input (some (a, rest)) = P a × (length rest ≤ length input)

Answers-longer :
    {A : Type 0} (P : A → Type 0) (input : Input) (r : Option (A × Input)) (line : Text)
    → Answers P input r
    → Answers P (line ∷ input) r
Answers-longer P input none line h = elim h [ ]
Answers-longer P input (some (a, rest)) line h = (h.0, omega arith)

prompt_int_answered :
    (fuel min max default n : ℕ) (input : Input)
    → in_bounds min max (prompt_string (to_string default) input).0 ≡ some n
    → prompt_int (suc fuel) min max default input
      ≡ some (n, (prompt_string (to_string default) input).1)
unfolding prompt_int
prompt_int_answered fuel min max default n input e = rw (prompt_int, e)

prompt_int_again :
    (fuel min max default : ℕ) (input : Input)
    → in_bounds min max (prompt_string (to_string default) input).0 ≡ none
    → prompt_int (suc fuel) min max default input
      ≡ prompt_int fuel min max default (prompt_string (to_string default) input).1
unfolding prompt_int
prompt_int_again fuel min max default input e = rw (prompt_int, e)

pub prompt_int-Answers :
    (fuel min max default : ℕ) (input : Input)
    → length input < fuel
    → default < 2 ^ 31
    → min ≤ default
    → default ≤ max
    → Answers (λ n. (min ≤ n) × (n ≤ max)) input (prompt_int fuel min max default input)
unfolding prompt_string
prompt_int-Answers zero min max default input h small lo hi = absurd (omega arith)
prompt_int-Answers (suc fuel) min max default [] h small lo hi =
    let e = in_bounds-to_string min max default small lo hi in
    rw (prompt_int_answered fuel min max default default [] e) ((lo, hi), omega arith)
prompt_int-Answers (suc fuel) min max default (line ∷ input) h small lo hi =
    let response = (prompt_string (to_string default) (line ∷ input)).0 in
    elim (Option-cases (in_bounds min max response)) [
      | inl e ↦ rw (prompt_int_again fuel min max default (line ∷ input) e) (
          Answers-longer (λ n. (min ≤ n) × (n ≤ max)) input (prompt_int fuel min max default input)
            line (prompt_int-Answers fuel min max default input (omega arith) small lo hi))
      | inr (n, e) ↦
          rw (prompt_int_answered fuel min max default n (line ∷ input) e)
            (in_bounds_lem min max response e, omega arith)
    ]

zeros-validate_ip : validate_ip (codes "0.0.0.0") ≡ true
unfolding validate_ip match_quad octet dotted dot span_digits all_octets is_digit digits_behind
    codes
zeros-validate_ip = refl

prompt_ip_valid :
    (fuel : ℕ) (ip : Text) (input : Input)
    → validate_ip ip ≡ true
    → prompt_ip (suc fuel) ip input ≡ some (ip, input)
unfolding prompt_ip
prompt_ip_valid fuel ip input e = rw (prompt_ip, e)

prompt_ip_again :
    (fuel : ℕ) (ip : Text) (input : Input)
    → validate_ip ip ≡ false
    → prompt_ip (suc fuel) ip input
      ≡ prompt_ip fuel
          (prompt_string (codes "0.0.0.0") input).0
          (prompt_string (codes "0.0.0.0") input).1
unfolding prompt_ip
prompt_ip_again fuel ip input e = rw (prompt_ip, e)

abbrev pub IsAddress : Text → Type 0
IsAddress ip = validate_ip ip ≡ true

-- One turn for each line, one for the end of the input, and one for the address that stands there.
pub prompt_ip-Answers :
    (fuel : ℕ) (ip : Text) (input : Input)
    → length input + 1 < fuel
    → Answers IsAddress input (prompt_ip fuel ip input)
unfolding prompt_string
prompt_ip-Answers zero ip input h = absurd (omega arith)
prompt_ip-Answers (suc zero) ip input h = absurd (omega arith)
prompt_ip-Answers (suc (suc fuel)) ip [] h = elim (Bool-cases (validate_ip ip)) [
  | inl e ↦ rw (prompt_ip_valid (suc fuel) ip [] e) (e, omega arith)
  | inr e ↦
      rw
        (
          prompt_ip_again (suc fuel) ip [] e,
          prompt_ip_valid fuel (codes "0.0.0.0") [] zeros-validate_ip,
        )
        (zeros-validate_ip, omega arith)
]
prompt_ip-Answers (suc (suc fuel)) ip (line ∷ input) h = elim (Bool-cases (validate_ip ip)) [
  | inl e ↦ rw (prompt_ip_valid (suc fuel) ip (line ∷ input) e) (e, omega arith)
  | inr e ↦
      let next = (prompt_string (codes "0.0.0.0") (line ∷ input)).0 in
      rw (prompt_ip_again (suc fuel) ip (line ∷ input) e) (
        Answers-longer IsAddress input (prompt_ip (suc fuel) next input) line
          (prompt_ip-Answers (suc fuel) next input (omega arith)))
]
