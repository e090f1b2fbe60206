-- ===== src/Server.antt =====
-- The server object and the parts that it owns (the scene, the players, the permissions, the module
-- loader, the scheduler, the script runtime), and beside it the entities and the event bus.
pub mod Scenes
pub mod Players
pub mod Loader
pub mod Tasks
pub mod Core
pub mod Entities
pub mod Bus
pub mod Loop
pub mod Demo
pub mod Main
pub mod Lua
pub mod Worlds
pub mod Signals
