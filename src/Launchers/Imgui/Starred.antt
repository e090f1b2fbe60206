-- ===== src/Launchers/Imgui/Starred.antt =====
-- The lines that the formats of LoadConfig fit: a star stands in front of the key.
use mcx.Prelude.{◌≡◌, ◌≢◌, refl, ap, ◌∙◌, none, some, [], ◌∷◌, ◌++◌, ltb, if◌then◌else◌, length}
use mcx.Prelude.Text.{Text, codes}
use mcx.Prelude.Decimal.{is_space, skip_spaces}
use mcx.Prelude.Search.{behind, cut_at, Without}
use mcx.Launchers.Imgui.Config.{
  Config, until_quote, some_chars, store_name, has_text, load_line, behind_star,
}

until_quote-append : (t rest : Text) → Without 34 t → until_quote (t ++ (34 ∷ rest)) ≡ t
unfolding until_quote
until_quote-append [] rest h = refl
until_quote-append (c ∷ t) rest h = rw (h.0, until_quote-append t rest h.1) refl

some_chars_lem : (t : Text) → t ≢ [] → some_chars t ≡ some t
unfolding some_chars
some_chars_lem [] h = absurd (h refl)
some_chars_lem (c ∷ t) h = refl

abbrev starred_name : Text → Text
starred_name t = codes " * \"serverName\": \"" ++ (t ++ codes "\"")

-- A starred line with a name: the name is stored if it fits the 128 bytes of `server_name` with the
-- zero behind it, and is written past their end if it does not. The name is not empty and has no
-- quote.
pub load_line-starred_name :
    (t : Text) (c : Config)
    → t ≢ []
    → Without 34 t
    → load_line (starred_name t) c
      ≡ (if ltb (length t) 128 then some (record c { server_name = t }) else none)
unfolding load_line codes has_text cut_at behind behind_star skip_spaces is_space
load_line-starred_name t c h q =
    ap (λ u. store_name (some_chars u) c) (until_quote-append t [] q)
    ∙ ap (λ o. store_name o c) (some_chars_lem t h)
    ∙ unfold store_name in refl
