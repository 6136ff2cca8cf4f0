-- ===== src/Text.antt =====
-- Rust's text as the code takes it from the standard library: a `str` is the list of its Unicode
-- scalar values, a byte slice a list of bytes. `Chars` has the character classes, `Split` the cuts,
-- `Utf8` the two conversions, `Decimal` numbers in text.
pub mod Chars
pub mod Split
pub mod Utf8
pub mod Decimal
