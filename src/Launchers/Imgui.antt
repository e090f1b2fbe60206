-- ===== src/Launchers/Imgui.antt =====
-- MCXImGuiLauncher of src/launcher_imgui/mcx_imgui_launcher.cpp. ImGui, GLFW and OpenGL are not
-- modelled: what the user does in a frame is a value, and so is the time that they give.
pub mod Config
pub mod Console
pub mod System
pub mod Ui
pub mod Lifetime
pub mod Ensures
pub mod Sound
pub mod Valid
pub mod Interleaved
pub mod Tail
pub mod Lives
pub mod Restart
pub mod Backends
pub mod Unread
pub mod Starred
