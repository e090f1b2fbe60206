-- ===== src/Launchers/Qt/Closing.antt =====
-- The end of the launcher: the close of the window, and the destructor behind it.
use mcx.Prelude.{
  ◌≡◌, refl, ap, ◌∙◌, subst, sym, not, Bool, false, Option, none, some, ◌⊎◌, inl, inr, get_elem?,
  if_either, if_split, if◌then◌else◌,
}
use mcx.Prelude.Int.{ℤ}
use mcx.Launchers.Qt.Settings.{QSettings, load_form, save_form}
use mcx.Launchers.Qt.Stored.{IsInRange, load_form-save_form}
use mcx.Launchers.Qt.Window.{
  Window, kill, signal, append_to_console, on_server_finished, end_process, terminate_process,
  on_stop_server, on_save_config, close_event, destroy,
}
use mcx.Launchers.Qt.Agrees.{IsConsistent}

-- The process does not run, or was killed by the last signal.
abbrev IsEnded : {Store : Type 0} → Window Store → Type 0
IsEnded w = (w.process.is_alive ≡ false) ⊎ (get_elem? w.process.signals 0 ≡ some kill)

module _ {Store : Type 0} where
  terminate_process-IsEnded :
      (finish : Option ℤ) (w : Window Store) → IsEnded (terminate_process finish w)
  unfolding terminate_process signal end_process on_server_finished append_to_console
  terminate_process-IsEnded none w = inr refl
  terminate_process-IsEnded (some code) w = inl refl

  terminate_process-form :
      (finish : Option ℤ) (w : Window Store) → (terminate_process finish w).form ≡ w.form
  unfolding terminate_process signal end_process on_server_finished append_to_console
  terminate_process-form none w = refl
  terminate_process-form (some code) w = refl

  on_stop_server-form :
      (finish : Option ℤ) (w : Window Store) → (on_stop_server finish w).form ≡ w.form
  unfolding on_stop_server append_to_console
  on_stop_server-form finish w =
      if_either (λ (x : Window Store). x.form ≡ w.form) w.is_server_running
        (terminate_process-form finish _) refl

module _ (q : QSettings) where
  close_event-form :
      (reply : Bool) (finish : Option ℤ) (w : Window q.Store)
      → (close_event q reply finish w).1.form ≡ w.form
  unfolding close_event
  close_event-form reply finish w =
      if_either (λ (x : Bool × Window q.Store). x.1.form ≡ w.form) w.is_server_running
        (if_either (λ (x : Bool × Window q.Store). x.1.form ≡ w.form) reply
          (on_stop_server-form finish w) refl)
        refl

  close_refused :
      (finish : Option ℤ) (w : Window q.Store)
      → (close_event q false finish w).0 ≡ not w.is_server_running
  unfolding close_event
  close_refused finish w =
      if_split (λ (x : Bool × Window q.Store). x.0 ≡ not w.is_server_running) w.is_server_running
        (λ on. ap not (sym on)) (λ off. ap not (sym off))

  -- The part of the destructor above saveSettings.
  ended_window : Option ℤ → Window q.Store → Window q.Store
  ended_window finish w = if w.process.is_alive then terminate_process finish w else w

  destroy-IsEnded : (finish : Option ℤ) (w : Window q.Store) → IsEnded (destroy q finish w)
  unfolding destroy on_save_config append_to_console
  destroy-IsEnded finish w =
      if_split (λ (x : Window q.Store). IsEnded x) w.process.is_alive
        (λ _. terminate_process-IsEnded finish w) (λ off. inl off)

  destroy-settings :
      (finish : Option ℤ) (w : Window q.Store)
      → (destroy q finish w).settings ≡ save_form q w.form (ended_window finish w).settings
  unfolding destroy on_save_config append_to_console ended_window
  destroy-settings finish w =
      ap (λ f. save_form q f (ended_window finish w).settings)
        (if_either (λ (x : Window q.Store). x.form ≡ w.form) w.process.is_alive
          (terminate_process-form finish w) refl)

-- A close of a consistent window is refused only while the server is marked as running. Where the
-- window goes on to its destructor, the process then has ended or was killed by the last signal, and
-- a load of the settings gives the form that the window had.
pub destroy-close_event :
    (q : QSettings) (reply : Bool) (finish at_end : Option ℤ) (w : Window q.Store)
    → IsConsistent w
    → ((close_event q false finish w).0 ≡ not w.is_server_running)
      × IsEnded (destroy q at_end (close_event q reply finish w).1)
      × (load_form q (destroy q at_end (close_event q reply finish w).1).settings ≡ w.form)
destroy-close_event q reply finish at_end w v =
    let closed = (close_event q reply finish w).1 in
    let same : closed.form ≡ w.form = close_event-form q reply finish w in
    (
      close_refused q finish w,
      destroy-IsEnded q at_end closed,
      ap (load_form q) (destroy-settings q at_end closed)
          ∙ load_form-save_form q closed.form (ended_window q at_end closed).settings
              (subst IsInRange (sym same) v.numbers)
          ∙ same,
    )
