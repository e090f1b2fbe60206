-- ===== src/Server/Main.antt =====
-- `main` of src/main.cpp: what it does, in order, and its exit code. The calls that it makes are the
-- constructors; what they do is in other modules or, for the text of the banner and the usage, left out.
use mcx.Prelude.{ℕ, ◌||◌, List, [], ◌∷◌, ◌==◌, if◌then◌else◌, text_eq, nat_eq, text_key}
use mcx.Prelude.Text.{Text, codes}

pub data Call : Type 0 where
  print_banner ask_for_updates check_for_updates print_usage run_demo run_setup print_version : Call

-- The branches on the first argument.
unfoldable pub dispatch : Text → List Call × ℕ
dispatch arg =
    if text_eq arg (codes "--demo")
    then (run_demo ∷ [], 0)
    else if text_eq arg (codes "--setup")
    then (run_setup ∷ [], 0)
    else if text_eq arg (codes "--version")
    then (print_version ∷ [], 0)
    else if text_eq arg (codes "--update")
    then (check_for_updates ∷ [], 0)
    else (print_usage ∷ [], 1)

-- `args` are those behind the program's name; `response` is the character that answers the question.
unfoldable pub main : ℕ → List Text → List Call × ℕ
unfolding dispatch
main response [] = (
  print_banner
      ∷ ask_for_updates
      ∷ (if response == 121 || response == 89
          then check_for_updates ∷ print_usage ∷ []
          else print_usage ∷ []),
  0,
)
main response (arg ∷ args) = (print_banner ∷ (dispatch arg).0, (dispatch arg).1)
