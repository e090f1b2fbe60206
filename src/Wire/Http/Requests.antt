-- ===== src/Wire/Http/Requests.antt =====
-- The parts of a URL, as PerformRequest of src/core/http_client.cpp takes them apart.
use mcx.Prelude.{ℕ, ◌%◌, ◌^◌, ◌<◌, Option, none, some, [], ◌∷◌, ◌++◌}
use mcx.Prelude.Text.{Text}
use mcx.Prelude.Decimal.{to_string}

abbrev pub port_text : Option ℕ → Text
port_text none = []
port_text (some port) = 58 ∷ to_string port

abbrev pub path_text : Option Text → Text
path_text none = []
path_text (some path) = 47 ∷ path

abbrev pub url_text : Text → Text → Option ℕ → Option Text → Text
url_text scheme host port path =
    scheme ++ ((58 ∷ 47 ∷ 47 ∷ []) ++ ((host ++ port_text port) ++ path_text path))

-- The port of a URL, and 80 where it has none, whatever the scheme is.
abbrev pub port_of : Option ℕ → ℕ
port_of none = 80
port_of (some port) = port % 2 ^ 16

abbrev pub path_of : Option Text → Text
path_of none = 47 ∷ []
path_of (some path) = 47 ∷ path

abbrev pub FitsInt : Option ℕ → Type 0
FitsInt none = Unit
FitsInt (some port) = port < 2 ^ 31
