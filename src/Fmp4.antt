-- ===== src/Fmp4.antt =====
-- format/fmp4/fmp4io: the boxes of fragmented MP4 files.
pub mod Box
pub mod Fragment
pub mod FullAtom
pub mod Index
pub mod Optional
pub mod Tables
mod Tests
