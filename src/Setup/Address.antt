-- ===== src/Setup/Address.antt =====
-- SetupWizard::ValidateIp of src/core/setup_wizard.cpp. What the regular expression accepts is
-- written out: four groups of one to three digits with dots between them, and nothing else.
pub mod Quads
use mcx.Prelude.{
  ℕ, zero, suc, Bool, true, ◌&&◌, ◌||◌, Option, none, some, List, [], ◌∷◌, leb, ◌==◌, if◌then◌else◌,
  length, text_eq,
}
use mcx.Prelude.Text.{Text, codes}
use mcx.Prelude.Decimal.{is_digit, digits_behind}

-- The digits at the head, and what follows them.
unfoldable pub span_digits : Text → Text × Text
span_digits [] = ([], [])
span_digits (c ∷ cs) =
    let (ds, rest) = span_digits cs in if is_digit c then (c ∷ ds, rest) else ([], c ∷ cs)

-- `(\d{1,3})` and the value of std::stoi on it.
unfoldable pub octet : Text → Option (ℕ × Text)
unfolding span_digits
octet s =
    let (ds, rest) = span_digits s in
    if leb 1 (length ds) && leb (length ds) 3 then some (digits_behind 0 ds, rest) else none

-- `\.`
unfoldable pub dot : Text → Option Text
dot [] = none
dot (c ∷ cs) = if c == 46 then some cs else none

-- The groups that are still to come, with their dots in front, and the end of the text.
unfoldable pub dotted : ℕ → Text → Option (List ℕ)
dotted zero [] = some []
dotted zero (c ∷ cs) = none
dotted (suc n) s = elim (dot s) [
  | none ↦ none
  | some s' ↦ elim (octet s') [
    | none ↦ none
    | some (a, s'') ↦ elim (dotted n s'') [ none ↦ none | some octets ↦ some (a ∷ octets) ]
  ]
]

-- `std::regex_match(ip, match, pattern)`: the four numbers.
unfoldable pub match_quad : Text → Option (List ℕ)
match_quad s = elim (octet s) [
  | none ↦ none
  | some (a, s') ↦ elim (dotted 3 s') [ none ↦ none | some octets ↦ some (a ∷ octets) ]
]

unfoldable pub all_octets : List ℕ → Bool
all_octets [] = true
all_octets (a ∷ octets) = leb a 255 && all_octets octets

unfoldable pub validate_ip : Text → Bool
validate_ip ip = elim (match_quad ip) [
  | none ↦ text_eq ip (codes "localhost") || text_eq ip (codes "*")
  | some octets ↦ all_octets octets
]
