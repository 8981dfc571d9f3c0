-- ===== src/Common/Bits.antt =====
-- Bitwise operations at variables.
mod Digits
mod Masks
pub use Digits.{bit_and_step, bit_or_step, holds_below_sound}
unfoldable pub use Digits.{holds_below}
pub use Masks.*
