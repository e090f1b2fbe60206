-- ===== src/Setup.antt =====
-- The setup of a server: the questions on the console and the configuration file.
pub mod Address
pub mod Wizard
pub mod Config
pub mod Watcher
