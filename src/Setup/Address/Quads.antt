-- ===== src/Setup/Address/Quads.antt =====
-- Which addresses ValidateIp of src/core/setup_wizard.cpp accepts.
use mcx.Prelude.{
  ℕ, ◌≤◌, ◌<◌, ◌≡◌, ◌≢◌, refl, true, false, ◌&&◌, some, List, [], ◌∷◌, ◌++◌, arith, leb, length,
  All,
}
use mcx.Prelude.Text.{Text}
use mcx.Prelude.Decimal.{
  is_digit, to_string, to_string-ne-nil, digits_behind-to_string, to_string-AllDigits,
  length-to_string-le,
}
use mcx.Setup.Address.{span_digits, octet, dot, dotted, match_quad, all_octets, validate_ip}

-- What does not go on with a digit.
abbrev pub StartsOther : Text → Type 0
StartsOther [] = Unit
StartsOther (c ∷ cs) = is_digit c ≡ false

span_digits-append :
    (ds tail : Text)
    → All (λ c. is_digit c ≡ true) ds
    → StartsOther tail
    → span_digits (ds ++ tail) ≡ (ds, tail)
unfolding span_digits
span_digits-append [] [] h e = refl
span_digits-append [] (c ∷ cs) h e = rw (span_digits, e) refl
span_digits-append (d ∷ ds) tail h e = rw (span_digits, span_digits-append ds tail h.1 e, h.0) refl

octet-to_string :
    (n : ℕ) (tail : Text)
    → n < 1000
    → StartsOther tail
    → octet (to_string n ++ tail) ≡ some (n, tail)
unfolding octet
octet-to_string n tail h e =
    let s = span_digits-append (to_string n) tail (to_string-AllDigits n) e in
    let short = length-to_string-le 2 n h in
    let long = one_at_least (to_string n) (to_string-ne-nil n) in
    let low : leb 1 (length (to_string n)) ≡ true = ground (arith, long) in
    let high : leb (length (to_string n)) 3 ≡ true = ground (arith, short) in
    rw (octet, s, low, high, digits_behind-to_string n) refl
  where
    one_at_least : (s : Text) → s ≢ [] → 1 ≤ length s
    one_at_least [] h = absurd (h refl)
    one_at_least (c ∷ s) h = omega arith

-- Numbers with a dot before each.
abbrev pub dots_text : List ℕ → Text
dots_text [] = []
dots_text (a ∷ octets) = 46 ∷ (to_string a ++ dots_text octets)

dots_text-StartsOther : (octets : List ℕ) → StartsOther (dots_text octets)
unfolding is_digit
dots_text-StartsOther [] = tt
dots_text-StartsOther (a ∷ octets) = refl

dotted-dots_text :
    (octets : List ℕ)
    → All (λ a. a < 1000) octets
    → dotted (length octets) (dots_text octets) ≡ some octets
unfolding dotted dot
dotted-dots_text [] h = refl
dotted-dots_text (a ∷ octets) h =
    let here = octet-to_string a (dots_text octets) h.0 (dots_text-StartsOther octets) in
    rw (dotted, here, dotted-dots_text octets h.1) refl

-- ValidateIp accepts four numbers below 1000 with dots between them exactly where none is above 255.
validate_ip_quad :
    (a b c d : ℕ)
    → a < 1000
    → b < 1000
    → c < 1000
    → d < 1000
    → validate_ip (to_string a ++ dots_text (b ∷ c ∷ d ∷ []))
      ≡ leb a 255 && (leb b 255 && (leb c 255 && (leb d 255 && true)))
unfolding validate_ip match_quad all_octets is_digit
validate_ip_quad a b c d ha hb hc hd =
    let rest = dotted-dots_text (b ∷ c ∷ d ∷ []) (hb, (hc, (hd, tt))) in
    let here = octet-to_string a (dots_text (b ∷ c ∷ d ∷ [])) ha refl in
    rw (validate_ip, here, rest) refl
