-- ===== src/Tests/Commands.antt =====
-- Command lines and the update check at concrete inputs.
use mcx.Prelude.{ℕ, ◌+◌, ◌≡◌, refl, ◌↔◌, true, [], ◌∷◌, ◌++◌, arith, length}
use mcx.Prelude.Text.{Text, codes}
use mcx.Prelude.Decimal.{is_space}
use mcx.Commands.Parser.{parse_command}
use mcx.Commands.Parser.Spacing.{IsBlank, IsWord, Rest, render, IsSpaced, parse_command-render}
use mcx.Commands.Registry.{finished, Entry, CommandRegistry}
use mcx.Updates.Versions.{is_version_newer}
use mcx.Updates.Versions.Order.{IsNewer, is_version_newer-IsNewer}
use mcx.Updates.Release.Assets.{Asset}
use mcx.Tests.Samples.{alice, bob}

-- "  al", a tab, "b", and a line end.
abbrev blanks : Text
blanks = 32 ∷ 32 ∷ []

abbrev spaced : Rest
spaced = (9, [], bob) ∷ []

abbrev line_end : Text
line_end = 10 ∷ []

blanks-IsBlank : IsBlank blanks
unfolding is_space
blanks-IsBlank = (refl, (refl, tt))

alice-IsWord : IsWord alice
unfolding is_space
alice-IsWord = (ground arith, (refl, (refl, tt)))

bob-IsWord : IsWord bob
unfolding is_space
bob-IsWord = (ground arith, (refl, tt))

tab-is_space : is_space 9 ≡ true
unfolding is_space
tab-is_space = refl

spaced-IsSpaced : IsSpaced spaced
spaced-IsSpaced = ((tab-is_space, tt, bob-IsWord), tt)

line_end-IsBlank : IsBlank line_end
unfolding is_space
line_end-IsBlank = (refl, tt)

parse_command-render_example :
    parse_command (blanks ++ (alice ++ render spaced line_end))
    ≡ record { name = alice; args = bob ∷ [] }
parse_command-render_example =
    parse_command-render blanks alice spaced line_end blanks-IsBlank alice-IsWord spaced-IsSpaced
      line_end-IsBlank

-- A command that adds up how many arguments it was given.
abbrev count_args : Entry ℕ
count_args = record {
  info = record { name = alice; description = []; permission = [] };
  handler = (λ args n. finished (n + length args));
}

abbrev commands : CommandRegistry ℕ
commands = (alice, count_args) ∷ []

-- "v1.10" and "1.9.5"
abbrev v1_10 : Text
v1_10 = 118 ∷ 49 ∷ 46 ∷ 49 ∷ 48 ∷ []

abbrev v1_9_5 : Text
v1_9_5 = 49 ∷ 46 ∷ 57 ∷ 46 ∷ 53 ∷ []

is_version_newer-IsNewer_example : (is_version_newer v1_10 v1_9_5 ≡ true) ↔ IsNewer v1_10 v1_9_5
is_version_newer-IsNewer_example = is_version_newer-IsNewer v1_10 v1_9_5

abbrev zip : Asset
zip = ([], codes "a/windows.zip")
