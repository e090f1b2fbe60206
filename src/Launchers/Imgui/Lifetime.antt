-- ===== src/Launchers/Imgui/Lifetime.antt =====
-- Initialize, Shutdown and RunImGuiLauncher: the calls of the libraries in their order. Whether
-- glfwInit and glfwCreateWindow succeed is an argument.
use mcx.Prelude.{ℕ, Bool, true, false, Option, some, List, [], ◌∷◌, ◌++◌, if◌then◌else◌}
use mcx.Prelude.Do.{◌>>=◌}
use mcx.Prelude.Text.{Text, codes}
use mcx.Launchers.Imgui.Console.{Launcher, version, initial, append_console}
use mcx.Launchers.Imgui.System.{System, load, stop_server, check_for_updates}
use mcx.Launchers.Imgui.Ui.{Frame, run, on_launcher}

pub data Call : Type 0 where
  glfw_init create_window create_context init_for_open_gl open_gl_init draw_frames : Call
  open_gl_shutdown glfw_shutdown destroy_context destroy_window terminate : Call

unfoldable pub greet : Launcher → Launcher
greet l = append_console (codes "Press 'Check Update' to find latest version") (codes "yellow") (
    append_console (codes "MCX Server Launcher " ++ (version ++ codes " started")) (codes "green")
      l)

-- The calls, what Initialize returns, and the members behind it.
unfoldable pub initialize : Bool → Bool → System → List Call × Bool × System
unfolding greet
initialize false window s = (glfw_init ∷ [], false, s)
initialize true false s = (glfw_init ∷ create_window ∷ [], false, s)
initialize true true s = (
  glfw_init ∷ create_window ∷ create_context ∷ init_for_open_gl ∷ open_gl_init ∷ [],
  true,
  (if s.launcher.config.auto_update
      then check_for_updates (on_launcher greet s)
      else on_launcher greet s),
)

unfoldable pub shutdown_calls : List Call
shutdown_calls =
    open_gl_shutdown ∷ glfw_shutdown ∷ destroy_context ∷ destroy_window ∷ terminate ∷ []

unfoldable pub shutdown : System → List Call × System
unfolding shutdown_calls
shutdown s = (shutdown_calls, stop_server s)

-- The constructor.
unfoldable pub make_launcher : Option Text → Bool → Option System
make_launcher file is_writable = load (initial file is_writable) >>= λ l.
    some (record { launcher = l; server_threads = []; update_threads = [] })

-- The end of RunImGuiLauncher: the loop, and the destructor, which also runs after a failure.
unfoldable pub run_initialized : List Frame → List Call × Bool × System → Option (List Call × ℕ)
unfolding shutdown
run_initialized frames (calls, false, s) = some (calls ++ (shutdown s).0, 1)
run_initialized frames (calls, true, s) =
    run frames s >>= λ t. some (calls ++ (draw_frames ∷ (shutdown t).0), 0)

unfoldable pub run_imgui_launcher :
    Bool → Bool → List Frame → Option Text → Bool → Option (List Call × ℕ)
run_imgui_launcher glfw window frames file is_writable =
    make_launcher file is_writable >>= λ s. run_initialized frames (initialize glfw window s)
