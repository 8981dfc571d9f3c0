-- ===== src/Unicode.antt =====
-- libuzi/unicode.c: the conversions between UTF-8 and UTF-16.
pub mod Cursor
pub mod Scalar
pub mod Loop
pub mod Utf16
pub mod Utf8
pub mod Encode
pub mod Legal
pub mod Decode
pub mod Sequence
pub mod Safety
pub mod RoundTrip
pub mod Lax
pub mod Api
pub mod Strings
mod Tests
