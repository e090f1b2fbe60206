-- ===== src/Commands/Parser.antt =====
-- src/core/command_parser.cpp. `stream >> token` skips white space and takes what stands before the
-- next white space; the loop runs on fuel, one unit for each token.
pub mod Spacing
use mcx.Prelude.{
  ℕ, zero, suc, Bool, ◌&&◌, ◌||◌, Option, none, some, List, [], ◌∷◌, leb, ◌==◌, if◌then◌else◌,
  length,
}
use mcx.Prelude.Text.{Text}
use mcx.Prelude.Decimal.{is_space, skip_spaces}

pub record ParsedCommand : Type 0 where
  pub name : Text
  pub args : List Text

unfoldable pub take_word : Text → Text
take_word [] = []
take_word (c ∷ cs) = let rest = take_word cs in if is_space c then [] else c ∷ rest

unfoldable pub drop_word : Text → Text
drop_word [] = []
drop_word (c ∷ cs) = let rest = drop_word cs in if is_space c then c ∷ cs else rest

-- `stream >> token`; `none` where only white space is left.
unfoldable pub next_token : Text → Option (Text × Text)
unfolding skip_spaces take_word drop_word
next_token s = elim (skip_spaces s) [
  | [] ↦ none
  | c ∷ cs ↦ some (take_word (c ∷ cs), drop_word (c ∷ cs))
]

-- The inner loop.
unfoldable pub tokens : ℕ → Text → List Text
unfolding next_token
tokens zero s = []
tokens (suc fuel) s = elim (next_token s) [
  | none ↦ []
  | some (token, rest) ↦ token ∷ tokens fuel rest
]

-- Each token takes at least one byte of the input.
unfoldable pub parse_command : Text → ParsedCommand
unfolding tokens
parse_command input = elim (next_token input) [
  | none ↦ record { name = []; args = [] }
  | some (token, rest) ↦ record { name = token; args = tokens (length rest) rest }
]
