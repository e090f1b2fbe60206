-- ===== src/Launchers/Imgui/Console.antt =====
-- The members of MCXImGuiLauncher, and AppendConsole. `time` is what ImGui::GetTime gives; the disk's
-- file of the configuration and the commands that `system` ran are members here. The progress is in
-- percent.
use mcx.Prelude.{ℕ, Bool, false, Option, List, [], ◌∷◌, ◌++◌, ltb, if◌then◌else◌, length, drop}
use mcx.Prelude.Text.{Text, codes}
use mcx.Launchers.Imgui.Config.{Config, default_config}

pub record ConsoleLine : Type 0 where
  pub text : Text
  pub color : Text
  pub timestamp : ℕ

pub record Launcher : Type 0 where
  pub show_update_dialog : Bool
  pub should_exit : Bool
  pub console_lines : List ConsoleLine
  pub server_running : Bool
  pub checking_update : Bool
  pub update_progress : ℕ
  pub latest_version : Text
  pub download_url : Text
  pub update_available : Bool
  pub config : Config
  pub file : Option Text
  pub is_writable : Bool
  pub commands : List Text
  pub time : ℕ

unfoldable pub version : Text
unfolding codes
version = codes "v0.3.1"

-- The members before LoadConfig.
unfoldable pub initial : Option Text → Bool → Launcher
initial file is_writable = record {
  show_update_dialog = false;
  should_exit = false;
  console_lines = [];
  server_running = false;
  checking_update = false;
  update_progress = 0;
  latest_version = [];
  download_url = [];
  update_available = false;
  config = default_config;
  file = file;
  is_writable = is_writable;
  commands = [];
  time = 0;
}

-- `push_back`, and `erase(begin())` where there are more than 1000 lines.
unfoldable pub push_line : ConsoleLine → List ConsoleLine → List ConsoleLine
push_line line lines =
    let grown = lines ++ (line ∷ []) in if ltb 1000 (length grown) then drop 1 grown else grown

-- A call that no other thread interrupts; the accesses one by one are in Interleaved.
unfoldable pub append_console : Text → Text → Launcher → Launcher
append_console text color l = record l {
  console_lines =
      push_line (record { text = text; color = color; timestamp = l.time }) l.console_lines;
}
