-- ===== src/Launchers/Imgui/Backends.antt =====
-- The calls of RunImGuiLauncher: whether each backend that is shut down was set up.
use mcx.Prelude.{ℕ, ◌≡◌, refl, Bool, true, false, ◌&&◌, Option, none, some, List, [], ◌∷◌}
use mcx.Prelude.Do.{◌>>=◌}
use mcx.Prelude.Text.{Text}
use mcx.Launchers.Imgui.System.{System}
use mcx.Launchers.Imgui.Ui.{Frame, run}
use mcx.Launchers.Imgui.Lifetime.{
  Call, glfw_init, create_window, create_context, init_for_open_gl, open_gl_init, draw_frames,
  open_gl_shutdown, glfw_shutdown, initialize, shutdown, make_launcher, run_initialized,
  run_imgui_launcher,
}

-- Each shutdown of the platform's and of the renderer's backend stands behind a call that set it up;
-- the arguments say which are set up before the calls.
pub backends_ready : Bool → Bool → List Call → Bool
backends_ready platform renderer [] = true
backends_ready platform renderer (init_for_open_gl ∷ calls) = backends_ready true renderer calls
backends_ready platform renderer (open_gl_init ∷ calls) = backends_ready platform true calls
backends_ready platform renderer (open_gl_shutdown ∷ calls) =
    renderer && backends_ready platform false calls
backends_ready platform renderer (glfw_shutdown ∷ calls) =
    platform && backends_ready false renderer calls
backends_ready platform renderer (_ ∷ calls) = backends_ready platform renderer calls

-- The destructor shuts down the backends of a launcher whose Initialize failed.
initialize_fails :
    (glfw window : Bool) (frames : List Frame) (s : System)
    → (glfw && window) ≡ false
    → (calls : List Call) × (run_initialized frames (initialize glfw window s) ≡ some (calls, 1))
      × (backends_ready false false calls ≡ false)
unfolding run_initialized initialize shutdown backends_ready
initialize_fails false window frames s h = (_, refl, refl)
initialize_fails true false frames s h = (_, refl, refl)
initialize_fails true true frames s h = cc

-- Where glfwInit or glfwCreateWindow fails, RunImGuiLauncher returns 1 behind calls that shut down the
-- platform's and the renderer's backend, of which none was set up. The constructor's load is defined.
pub run_imgui_launcher_fails :
    (glfw window : Bool) (frames : List Frame) (file : Option Text) (is_writable : Bool)
    → (glfw && window) ≡ false
    → {s : System} → make_launcher file is_writable ≡ some s
    → (calls : List Call) × (run_imgui_launcher glfw window frames file is_writable
        ≡ some (calls, 1))
      × (backends_ready false false calls ≡ false)
unfolding run_imgui_launcher
run_imgui_launcher_fails glfw window frames file is_writable h {s} e =
    rw e (initialize_fails glfw window frames s h)

-- Where both succeed, each backend that is shut down was set up before, and the exit code is 0.
abbrev Fits : Option (List Call × ℕ) → Type 0
Fits none = Unit
Fits (some (calls, code)) = (backends_ready false false calls ≡ true) × (code ≡ 0)

frames-Fits :
    (m : Option System)
    → Fits (
        m >>= λ t. some (
          glfw_init
              ∷ create_window
              ∷ create_context
              ∷ init_for_open_gl
              ∷ open_gl_init
              ∷ draw_frames
              ∷ (shutdown t).0,
          0,
        ))
unfolding shutdown backends_ready
frames-Fits none = tt
frames-Fits (some t) = (refl, refl)

initialized-Fits :
    (frames : List Frame) (s : System) → Fits (run_initialized frames (initialize true true s))
unfolding run_initialized initialize
initialized-Fits frames s = frames-Fits (run frames (initialize true true s).2)
