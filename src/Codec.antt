-- ===== src/Codec.antt =====
-- The packages of codec and the time scales of format/fmp4/timescale.
pub mod Opus
pub mod Timescale
pub mod Aac
mod Tests
