-- ===== src/Managers.antt =====
-- The managers of players' affairs: money, bans, kits, teleports, statistics and chat.
pub mod Economy
pub mod Bans
pub mod Kits
pub mod Chat
pub mod Teleports
pub mod Stats
