-- ===== src/Commands.antt =====
-- Commands: the parser of a line, the registry of handlers, and the console that reads lines.
pub mod Parser
pub mod Registry
pub mod Console
