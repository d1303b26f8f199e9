-- ===== src/Encoding.antt =====
-- The byte encodings of Go's standard library that internal/crypto and block.go rely on.
pub mod Hex
pub mod BigInt
pub mod Rat
pub mod Decimal
