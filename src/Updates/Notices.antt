-- ===== src/Updates/Notices.antt =====
-- What is shown of an answer of the release server: the lines that CheckForUpdates and DownloadUpdate
-- of src/core/update_checker.cpp log, and the callback of CheckForUpdates in src/main.cpp.
use mcx.Prelude.{
  ℕ, ◌≡◌, ◌↔◌, refl, Bool, true, false, not, ◌||◌, ◌&&◌, is_empty, Bool-cases, ap, sym, ◌∙◌, inl,
  inr, arith, none, some, List, [], ◌∷◌, ◌++◌, ◌==◌, if◌then◌else◌,
}
use mcx.Prelude.Text.{Text, codes}
use mcx.Prelude.Decimal.{to_string}
use mcx.Log.{Line, info, warn, error}
use mcx.Updates.Versions.{is_version_newer}
use mcx.Updates.Versions.Order.{IsNewer, is_version_newer-IsNewer}
use mcx.Updates.Release.{System, ReleaseInfo, parse_github_response, on_response}

unfoldable pub answer_line : Text → ReleaseInfo → Line
answer_line current i =
    if i.update_available
    then (
      info,
      codes "Update available: " ++ (i.version ++ (codes " (current: " ++ (current ++ codes ")"))),
    )
    else (info, codes "MCX is up to date (" ++ (current ++ codes ")"))

-- The line that the handler of CheckForUpdates logs.
unfoldable pub check_line : System → Text → Bool → ℕ → Text → Line
unfolding answer_line
check_line system current success status body =
    elim (on_response system current success status body) [
      | none ↦
          (warn, codes "Could not check for updates (status: " ++ (to_string status ++ codes ")"))
      | some i ↦ answer_line current i
    ]

-- The lines of the handler of DownloadUpdate; nothing is written to the destination.
unfoldable pub download_lines : Bool → ℕ → Text → List Line
download_lines true status destination =
    (info, codes "Download complete! Save to: " ++ destination)
    ∷ (info, codes "Please extract and replace your current mcx executable")
    ∷ []
download_lines false status destination =
    (error, codes "Download failed: " ++ to_string status) ∷ []

-- What `main` shows and does: the box with both versions and the URL, the question, the two lines
-- before the browser, and the command.
pub data Effect : Type 0 where
  box : Text → Text → Text → Effect
  question opening : Effect
  command : Text → Effect

unfoldable pub mcx_version : Text
unfolding codes
mcx_version = codes "v0.2.0"

-- The callback; `response` is the character that is read.
unfoldable pub offer : ℕ → ReleaseInfo → List Effect
offer response i =
    box mcx_version i.version i.download_url
    ∷ question
    ∷ (if response == 121 || response == 89
        then opening ∷ command (codes "xdg-open \"" ++ (i.download_url ++ codes "\"")) ∷ []
        else [])

unfoldable pub check_for_updates : System → ℕ → Bool → ℕ → Text → List Effect
unfolding offer
check_for_updates system response success status body =
    elim (on_response system mcx_version success status body) [
      | none ↦ []
      | some i ↦ offer response i
    ]

-- The line of a check that found a newer version.
abbrev pub available : Text → Line
available version = (
  info,
  codes "Update available: " ++ (version ++ (codes " (current: " ++ (mcx_version ++ codes ")"))),
)

-- How serious a line is, and its first letter.
abbrev mark : Line → ℕ × ℕ
mark line = (elim line.0 [ info ↦ 0 | warn ↦ 1 | error ↦ 2 ], elim line.1 [ [] ↦ 0 | c ∷ cs ↦ c ])

available-mark : (version : Text) (line : Line) → line ≡ available version → mark line ≡ (0, 85)
unfolding codes
available-mark version line e = ap mark e

warned : (rest : Text) (version : Text) → (warn, rest) ≡ available version → ⊥
warned rest version e = omega (arith, ap (λ m. m.0) (available-mark version (warn, rest) e))

up_to_date :
    (version : Text)
    → (info, codes "MCX is up to date (" ++ (mcx_version ++ codes ")")) ≡ available version
    → ⊥
unfolding codes
up_to_date version e = omega (arith, ap (λ m. m.1) (available-mark version _ e))

-- The answer is there, with status 200.
abbrev is_answered : Bool → ℕ → Bool
is_answered success status = success && (status == 200)

module _ (system : System) (success : Bool) (status : ℕ) (body : Text) where
  line_none :
      is_answered success status ≡ false
      → check_line system mcx_version success status body
        ≡ (warn, codes "Could not check for updates (status: " ++ (to_string status ++ codes ")"))
  unfolding check_line on_response
  line_none h = rw (check_line, on_response, h) refl

  line_some :
      is_answered success status ≡ true
      → let release = parse_github_response system body in
        check_line system mcx_version success status body
        ≡ answer_line mcx_version
            (record release { update_available = is_version_newer release.version mcx_version })
  unfolding check_line on_response
  line_some h = rw (check_line, on_response, h) refl

  offered :
      (response : ℕ)
      → is_empty (check_for_updates system response success status body)
        ≡ not (is_answered success status)
  unfolding check_for_updates on_response offer
  offered response = elim (Bool-cases (is_answered success status)) [
    | inl there ↦ rw (check_for_updates, on_response, there) refl
    | inr absent ↦ rw (check_for_updates, on_response, absent) refl
  ]

  line_available :
      let release = parse_github_response system body in
      (check_line system mcx_version success status body ≡ available release.version)
      ↔ ((success ≡ true) × (status ≡ 200) × IsNewer release.version mcx_version)
  unfolding answer_line
  line_available =
      let release = parse_github_response system body in
      let newer = is_version_newer-IsNewer release.version mcx_version in
      elim (Bool-cases (is_answered success status)) [
        | inr absent ↦ (
          (λ e. absurd (warned _ release.version (sym (line_none absent) ∙ e))),
          (λ h. absurd (ground (arith, absent, h.0, h.1))),
        )
        | inl there ↦ elim (Bool-cases (is_version_newer release.version mcx_version)) [
          | inl ahead ↦ (
            (λ e. (ground (arith, there), ground (arith, there), newer.0 ahead)),
            (λ h. line_some there ∙ rw ahead refl),
          )
          | inr behind ↦ (
            (λ e. absurd (up_to_date release.version (sym (line_some there ∙ rw behind refl) ∙ e))),
            (λ h. absurd (differ (sym (newer.1 h.2) ∙ behind))),
          )
        ]
      ]
    where
      differ : true ≡ false → ⊥
      differ e = cc

-- `main` offers a release wherever the answer is there with status 200, whether or not it is newer;
-- the line that is logged tells of an update exactly where the answer is there and the version of
-- the release is newer than that of the program, by their numbers.
pub check_for_updates_offers :
    (system : System) (response : ℕ) (success : Bool) (status : ℕ) (body : Text)
    → let release = parse_github_response system body in
      (is_empty (check_for_updates system response success status body)
        ≡ not (success && (status == 200)))
      × ((check_line system mcx_version success status body ≡ available release.version)
          ↔ ((success ≡ true) × (status ≡ 200) × IsNewer release.version mcx_version))
check_for_updates_offers system response success status body =
    (offered system success status body response, line_available system success status body)
