-- ===== src/Wire.antt =====
-- The byte formats: packets of the bridge protocol, primitive fields, RCON packets and
-- WebSocket frames.
pub mod Bytes
pub mod Protocol
pub mod Serializer
pub mod Rcon
pub mod WebSocket
pub mod Http
