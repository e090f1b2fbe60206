-- ===== src/Updates.antt =====
-- The update check: versions and the texts it takes out of the answer of the release server.
pub mod Versions
pub mod Release
pub mod Notices
