-- ===== src/Updates/Versions.antt =====
-- ParseVersionParts and IsVersionNewer of src/core/update_checker.cpp. What std::stoi throws on
-- becomes 0.
pub mod Order
use mcx.Prelude.{
  ℕ, zero, suc, ◌+◌, max, Bool, true, false, ◌||◌, none, some, List, [], ◌∷◌, ◌++◌, map, ◌==◌,
  if◌then◌else◌, length,
}
use mcx.Prelude.Text.{Text}
use mcx.Prelude.Int.{ℤ, pos, ltb_ℤ}
use mcx.Prelude.Decimal.{stoi}

-- `push_back(std::stoi(token))`, with 0 for a token that is refused.
unfoldable pub part_of : Text → ℤ
part_of token = elim (stoi token) [ none ↦ pos 0 | some n ↦ n ]

-- What std::getline takes at the head of a stream, a list of its tokens at a time: the token that
-- is being read, and no token behind a last dot.
unfoldable pub split_dots : Text → Text → List Text
split_dots [] [] = []
split_dots (t ∷ token) [] = (t ∷ token) ∷ []
split_dots token (c ∷ cs) =
    let go_on = split_dots (token ++ (c ∷ [])) cs in
    let next = split_dots [] cs in if c == 46 then token ∷ next else go_on

-- The `v` in front.
unfoldable pub drop_v : Text → Text
drop_v [] = []
drop_v (c ∷ cs) = if c == 118 || c == 86 then cs else c ∷ cs

unfoldable pub parse_version_parts : Text → List ℤ
parse_version_parts version = map part_of (split_dots [] (drop_v version))

-- `parts.resize(n, 0)`
unfoldable pub resize : ℕ → List ℤ → List ℤ
resize zero parts = []
resize (suc n) [] = pos 0 ∷ resize n []
resize (suc n) (a ∷ parts) = a ∷ resize n parts

-- The loop over two vectors of one length.
unfoldable pub first_greater : List ℤ → List ℤ → Bool
first_greater [] b = false
first_greater (x ∷ a) [] = false
first_greater (x ∷ a) (y ∷ b) =
    let rest = first_greater a b in if ltb_ℤ y x then true else if ltb_ℤ x y then false else rest

unfoldable pub newer_parts : List ℤ → List ℤ → Bool
newer_parts a b = let n = max (length a) (length b) in first_greater (resize n a) (resize n b)

unfoldable pub is_version_newer : Text → Text → Bool
is_version_newer candidate current =
    newer_parts (parse_version_parts candidate) (parse_version_parts current)
