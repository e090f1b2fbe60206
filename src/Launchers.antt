-- ===== src/Launchers.antt =====
-- The two launchers with a window: src/launcher_imgui and src/launcher.
pub mod Imgui
pub mod Qt
