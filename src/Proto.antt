-- ===== src/Proto.antt =====
-- proto/: the serial frame protocol. `Defs` has the constants of FrameDefs.h, `Crc` the checksum,
-- `Bytes` the little-endian codec helpers, `Frame` the framing, `Parser` the streaming parser.
pub mod Defs
pub mod Crc
pub mod Bytes
pub mod Frame
pub mod Parser
pub mod Float32
pub mod Telemetry
pub mod Command
pub mod PatternFloats
mod Tests
