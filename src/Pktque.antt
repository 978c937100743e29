-- ===== src/Pktque.antt =====
-- av/pktque: the packet buffer, the timeline and the packet filters.
pub mod Buf
pub mod Timeline
pub mod Filters
mod Tests
