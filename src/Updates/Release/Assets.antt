-- ===== src/Updates/Release/Assets.antt =====
-- The URLs that are found in an answer, and the one that is chosen.
use mcx.Prelude.{
  ℕ, zero, suc, ◌≤◌, ◌≡◌, refl, ◌∙◌, true, false, none, some, List, [], ◌∷◌, ◌++◌, map, arith, ◌==◌,
  length, length-append, All, head_or,
}
use mcx.Prelude.Text.{Text, codes}
use mcx.Updates.Release.{
  System, behind, find, until_quote, key_of, asset_urls, is_preferred, first_preferred,
  pick_preferred_asset_url,
}

abbrev pub IsUnquoted : Text → Type 0
IsUnquoted = All (λ c. (c == 34) ≡ false)

-- What stands before an asset, and its URL.
abbrev pub Asset : Type 0
Asset = Text × Text

abbrev pub IsAsset : Asset → Type 0
IsAsset a = IsUnquoted a.0 × IsUnquoted a.1

abbrev pub render_assets : List Asset → Text → Text
render_assets [] tail = tail
render_assets ((gap, url) ∷ assets) tail =
    gap ++ (key_of (codes "browser_download_url") ++ (url ++ (34 ∷ render_assets assets tail)))

behind_append : (key s : Text) → behind key (key ++ s) ≡ some s
unfolding behind
behind_append [] s = refl
behind_append (k ∷ key) s = ground (arith, behind_append key s)

find-unquoted :
    (gap name s : Text) → IsUnquoted gap → find (key_of name) (gap ++ s) ≡ find (key_of name) s
unfolding find behind key_of
find-unquoted [] name s h = refl
find-unquoted (c ∷ gap) name s h = ground (arith, h.0, find-unquoted gap name s h.1)

find-key_of : (name s : Text) → find (key_of name) (key_of name ++ s) ≡ some s
unfolding find key_of
find-key_of name s = rw (find, behind_append (key_of name) s)

find_nothing : (gap name : Text) → IsUnquoted gap → find (key_of name) gap ≡ none
unfolding find behind key_of
find_nothing [] name h = refl
find_nothing (c ∷ gap) name h = ground (arith, h.0, find_nothing gap name h.1)

until_quote-append : (v s : Text) → IsUnquoted v → until_quote (v ++ (34 ∷ s)) ≡ some (v, s)
unfolding until_quote
until_quote-append [] s h = refl
until_quote-append (c ∷ v) s h = ground (arith, h.0, until_quote-append v s h.1)

none_left : {n : ℕ} → suc n ≤ 0 → ⊥
none_left f = omega arith

asset_urls-render :
    (fuel : ℕ) (assets : List Asset) (tail : Text)
    → All IsAsset assets
    → IsUnquoted tail
    → length assets ≤ fuel
    → asset_urls fuel (render_assets assets tail) ≡ map (λ a. a.1) assets
unfolding asset_urls
asset_urls-render zero [] tail h t f = refl
asset_urls-render (suc fuel) [] tail h t f =
    rw (asset_urls, find_nothing tail (codes "browser_download_url") t)
asset_urls-render zero ((gap, url) ∷ assets) tail h t f = absurd (none_left f)
asset_urls-render (suc fuel) ((gap, url) ∷ assets) tail h t f =
    let name = codes "browser_download_url" in
    let later = url ++ (34 ∷ render_assets assets tail) in
    let e = find-unquoted gap name (key_of name ++ later) h.0.0 ∙ find-key_of name later in
    let e' = until_quote-append url (render_assets assets tail) h.0.1 in
    let ih = asset_urls-render fuel assets tail h.1 t (omega arith) in rw (asset_urls, e, e', ih)

length-render_assets :
    (assets : List Asset) (tail : Text) → length assets ≤ length (render_assets assets tail)
length-render_assets [] tail = omega arith
length-render_assets ((gap, url) ∷ assets) tail =
    let later = url ++ (34 ∷ render_assets assets tail) in
    let e = length-append gap (key_of (codes "browser_download_url") ++ later) in
    let e' = length-append (key_of (codes "browser_download_url")) later in
    let e'' = length-append url (34 ∷ render_assets assets tail) in
    let ih = length-render_assets assets tail in omega arith

first_preferred-append :
    (system : System) (before : List Asset) (a : Asset) (after : List Asset) (default : Text)
    → All (λ b. is_preferred system b.1 ≡ false) before
    → is_preferred system a.1 ≡ true
    → first_preferred system (map (λ b. b.1) (before ++ (a ∷ after))) default ≡ a.1
unfolding first_preferred
first_preferred-append system [] a after default h p = ground (arith, p)
first_preferred-append system (b ∷ before) a after default h p =
    ground (arith, h.0, first_preferred-append system before a after default h.1 p)

pub pick-render :
    (system : System) (assets : List Asset) (tail : Text)
    → All IsAsset assets
    → IsUnquoted tail
    → pick_preferred_asset_url system (render_assets assets tail)
      ≡ first_preferred system (map (λ a. a.1) assets) (head_or [] (map (λ a. a.1) assets))
unfolding pick_preferred_asset_url
pick-render system assets tail h t =
    let e =
      asset_urls-render (length (render_assets assets tail)) assets tail h t
        (length-render_assets assets tail) in
    rw (pick_preferred_asset_url, e)

-- An answer that is a series of assets, with text without quotes before, between and behind them:
-- the URL chosen is the first one that suits the system. The fuel of the loop is enough.
pick_preferred_asset_url-Suits :
    (system : System) (before : List Asset) (a : Asset) (after : List Asset) (tail : Text)
    → All IsAsset (before ++ (a ∷ after))
    → IsUnquoted tail
    → All (λ b. is_preferred system b.1 ≡ false) before
    → is_preferred system a.1 ≡ true
    → pick_preferred_asset_url system (render_assets (before ++ (a ∷ after)) tail) ≡ a.1
pick_preferred_asset_url-Suits system before a after tail h t skipped suits =
    pick-render system (before ++ (a ∷ after)) tail h t
    ∙ first_preferred-append system before a after
        (head_or [] (map (λ b. b.1) (before ++ (a ∷ after)))) skipped suits
