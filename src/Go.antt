-- ===== src/Go.antt =====
-- What the program uses of Go: byte strings, big-endian integers, signed words, decimal text, maps.
pub mod Bytes
pub mod BigEndian
pub mod Hex
pub mod Base64
pub mod Text
pub mod Int64
pub mod Decimal
pub mod Map
