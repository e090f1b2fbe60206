-- ===== src/Launchers/Qt/Prompts.antt =====
-- The update check of the launcher: when a page is opened.
use mcx.Prelude.{
  ◌≡◌, refl, ap, ◌∙◌, Bool, true, false, not, ◌&&◌, some, [], ◌∷◌, ◌++◌, arith, if◌then◌else◌,
  text_eq, text_eq_iff, text_key, inl, inr, Bool-cases, ℕ,
}
use mcx.Prelude.Text.{Text}
use mcx.Updates.Versions.{is_version_newer}
use mcx.Updates.Release.{ReleaseInfo, System, on_response}
use mcx.Launchers.Qt.Window.{Window, current_version, on_update_available}
use mcx.Launchers.Qt.Events.{on_release}

text_eq_self : (t : Text) → text_eq t t ≡ true
text_eq_self t = (text_eq_iff t t).1 refl

on_response_newer :
    (system : System) (status : ℕ) (body : Text) {info : ReleaseInfo}
    → on_response system current_version true status body ≡ some info
    → info.update_available ≡ is_version_newer info.version current_version
unfolding on_response
on_response_newer system status body h = ground (arith, h)

prompt_opened :
    {Store : Type 0} (newer : Bool) (version url : Text) (reply : Bool) (w : Window Store)
    → (on_update_available (if newer then version else current_version) url reply w).opened ≡ (
        if newer && (not (text_eq version current_version) && reply)
        then w.opened ++ (url ∷ [])
        else w.opened)
unfolding on_update_available
prompt_opened false version url reply w =
    rw (text_eq_self current_version, on_update_available) refl
prompt_opened true version url true w = elim (Bool-cases (text_eq version current_version)) [
  | inl same ↦ rw (same, on_update_available) refl
  | inr other ↦ rw (other, on_update_available) refl
]
prompt_opened true version url false w = elim (Bool-cases (text_eq version current_version)) [
  | inl same ↦ rw (same, on_update_available) refl
  | inr other ↦ rw (other, on_update_available) refl
]

-- A page is opened only for a newer version: where the answer of the release server reaches the
-- launcher, the URL of its release is opened exactly where IsVersionNewer holds of its version
-- against the launcher's, their texts differ, and the question is answered with yes.
pub on_release-on_response :
    {Store : Type 0} (system : System) (status : ℕ) (body : Text) (reply : Bool) (w : Window Store)
    {info : ReleaseInfo}
    → on_response system current_version true status body ≡ some info
    → (on_release info reply w).opened ≡ (
        if is_version_newer info.version current_version
          && (not (text_eq info.version current_version) && reply)
        then w.opened ++ (info.download_url ∷ [])
        else w.opened)
unfolding on_release
on_release-on_response system status body reply w {info} h =
    prompt_opened info.update_available info.version info.download_url reply w
    ∙ ap
        (λ newer.
          if newer && (not (text_eq info.version current_version) && reply)
          then w.opened ++ (info.download_url ∷ [])
          else w.opened)
        (on_response_newer system status body h)
