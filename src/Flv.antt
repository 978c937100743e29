-- ===== src/Flv.antt =====
-- format/flv/flvio: the tags of an FLV file and the AMF0 values of its script tags.
pub mod Amf0
pub mod Tag
mod Tests
