-- ===== src/Prelude/Text.antt =====
-- std::string as the list of its bytes.
use Prim.Native.Char.{code}
use Prim.Native.String.{String}
use mcx.Prelude.{ℕ, List, [], ◌∷◌}

abbrev pub Text : Type 0
Text = List ℕ

-- The bytes of a literal, which is ASCII.
unfoldable pub codes : String → Text
codes String.[] = []
codes (String.◌∷◌ c s) = code c ∷ codes s
