-- ===== src/Launchers/Qt/Starts.antt =====
-- The server that the launcher starts: what `main` does with the argument.
use mcx.Prelude.{
  ℕ, ◌≡◌, refl, ap, ◌∙◌, Bool, true, false, [], ◌∷◌, if◌then◌else◌, if_split, text_eq, text_key,
  nat_eq,
}
use mcx.Prelude.Text.{codes}
use mcx.Server.Main.{print_banner, run_demo, print_usage, dispatch, main}
use mcx.Launchers.Qt.Settings.{QSettings, Form}
use mcx.Launchers.Qt.Window.{
  Window, arguments_of, run_process, start_process, append_to_console, on_save_config,
  on_start_server,
}

main-arguments_of :
    (response : ℕ) (f : Form)
    → main response (arguments_of f) ≡ (
        if f.demo_mode
        then (print_banner ∷ run_demo ∷ [], 0)
        else (print_banner ∷ print_usage ∷ [], 1))
unfolding arguments_of main dispatch text_eq codes
main-arguments_of response f =
    elim f.demo_mode
      as (λ b.
        main response ((if b then codes "--demo" else codes "--server") ∷ [])
        ≡ (if b then (print_banner ∷ run_demo ∷ [], 0) else (print_banner ∷ print_usage ∷ [], 1))) [
          | true ↦ refl
          | false ↦ refl
        ]

start_process_arguments :
    {Store : Type 0} (started : Bool) (w : Window Store)
    → (start_process started w).process.arguments ≡ arguments_of w.form
unfolding start_process run_process append_to_console
start_process_arguments true w = refl
start_process_arguments false w = refl

-- A start, while the server is not marked as running, passes an argument with which the server runs
-- the demo and ends with 0 in demo mode, and else prints its usage and ends with 1.
pub main-on_start_server :
    (q : QSettings) (started : Bool) (response : ℕ) (w : Window q.Store)
    → w.is_server_running ≡ false
    → main response (on_start_server q started w).process.arguments ≡ (
        if w.form.demo_mode
        then (print_banner ∷ run_demo ∷ [], 0)
        else (print_banner ∷ print_usage ∷ [], 1))
unfolding on_start_server on_save_config append_to_console
main-on_start_server q started response w stopped =
    ap (main response) (
      if_split (λ (x : Window q.Store). x.process.arguments ≡ arguments_of w.form)
        w.is_server_running (λ on. cc) (λ _. start_process_arguments started _))
    ∙ main-arguments_of response w.form
