-- ===== src/Word/Bit.antt =====
-- The binary digits of a number: a reading of words that is independent of the word operations.
mod Digits
mod Laws
mod Shifts
unfoldable pub use Digits.*
pub use Laws.*
pub use Shifts.*
