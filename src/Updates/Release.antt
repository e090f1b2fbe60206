-- ===== src/Updates/Release.antt =====
-- PickPreferredAssetUrl and ParseGitHubResponse of src/core/update_checker.cpp, and what
-- CheckForUpdates does with the answer. `json.find(key)` is the text behind the first match; the
-- system that the code is built for is an argument.
pub mod Assets
use mcx.Prelude.{
  ℕ, zero, suc, Bool, true, false, ◌&&◌, ◌||◌, Option, none, some, List, [], ◌∷◌, ◌++◌, ◌==◌,
  if◌then◌else◌, length, head_or,
}
use mcx.Prelude.Text.{Text, codes}
use mcx.Updates.Versions.{is_version_newer}

-- The text behind a prefix.
unfoldable pub behind : Text → Text → Option Text
behind [] s = some s
behind (k ∷ key) [] = none
behind (k ∷ key) (c ∷ s) = let rest = behind key s in if k == c then rest else none

-- The text behind the first match of `key`.
unfoldable pub find : Text → Text → Option Text
find key [] = behind key []
find key (c ∷ s) =
    let later = find key s in elim (behind key (c ∷ s)) [ none ↦ later | some rest ↦ some rest ]

unfoldable pub contains : Text → Text → Bool
contains key s = elim (find key s) [ none ↦ false | some rest ↦ true ]

-- What stands before the next quote, and behind it.
unfoldable pub until_quote : Text → Option (Text × Text)
until_quote [] = none
until_quote (c ∷ s) =
    let later = until_quote s in
    if c == 34
    then some ([], s)
    else elim later [ none ↦ none | some (v, rest) ↦ some (c ∷ v, rest) ]

-- `"<name>":"`
unfoldable pub key_of : Text → Text
key_of name = 34 ∷ (name ++ (34 ∷ 58 ∷ 34 ∷ []))

-- The value of the first member of that name; the empty text where there is none.
unfoldable pub field : Text → Text → Text
field name json = elim (find (key_of name) json) [
  | none ↦ []
  | some s ↦ elim (until_quote s) [ none ↦ [] | some (v, rest) ↦ v ]
]

-- The loop that collects the URLs, on fuel: one unit for each.
unfoldable pub asset_urls : ℕ → Text → List Text
asset_urls zero json = []
asset_urls (suc fuel) json = elim (find (key_of (codes "browser_download_url")) json) [
  | none ↦ []
  | some s ↦ elim (until_quote s) [ none ↦ [] | some (url, rest) ↦ url ∷ asset_urls fuel rest ]
]

pub data System : Type 0 where
  windows : System
  linux : System
  other : System

unfoldable pub is_preferred : System → Text → Bool
is_preferred windows u = contains (codes "windows") u && contains (codes ".zip") u
is_preferred linux u =
    contains (codes "linux") u && (contains (codes ".tar.gz") u || contains (codes ".tgz") u)
is_preferred other u = false

unfoldable pub first_preferred : System → List Text → Text → Text
first_preferred system [] default = default
first_preferred system (u ∷ urls) default =
    let rest = first_preferred system urls default in if is_preferred system u then u else rest

unfoldable pub pick_preferred_asset_url : System → Text → Text
pick_preferred_asset_url system json =
    let urls = asset_urls (length json) json in first_preferred system urls (head_or [] urls)

pub record ReleaseInfo : Type 0 where
  pub version : Text
  pub download_url : Text
  pub release_notes : Text
  pub update_available : Bool

unfoldable pub parse_github_response : System → Text → ReleaseInfo
parse_github_response system json = record {
  version = field (codes "tag_name") json;
  download_url = pick_preferred_asset_url system json;
  release_notes = field (codes "body") json;
  update_available = false;
}

-- The handler of the answer: what the callback is given; `none` where the request failed.
unfoldable pub on_response : System → Text → Bool → ℕ → Text → Option ReleaseInfo
on_response system current success status body =
    let info = parse_github_response system body in
    if success && (status == 200)
    then some (record info { update_available = is_version_newer info.version current })
    else none
