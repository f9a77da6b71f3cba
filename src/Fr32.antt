-- ===== src/Fr32.antt =====
-- fr32/src/padding.rs: the arithmetic that maps byte offsets of raw data to byte offsets of the
-- padded layout, in which every 254 bits of data are followed by 2 bits of padding.
pub mod Float
pub mod PaddingMap
pub mod Offsets
pub mod Convert
mod Tests
