-- ===== src/Text.antt =====
-- The functions of Rust's standard library on text that the crate calls, over byte lists.
pub mod Ascii
pub mod Decimal
pub mod Utf8
