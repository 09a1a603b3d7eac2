-- ===== src/Word.antt =====
-- std::size_t: 64-bit words as native numbers below 2 ^ 64, with the shifts and the complement of
-- C++. A shift by 64 or more is undefined there; here it gives zero.
pub mod Bit
pub mod Shift
pub mod Popcount
use pennylane_lightning.Prelude.{ℕ, ◌-◌, ◌+◌, ◌*◌, ◌/◌, ◌%◌, ◌^◌}

abbrev pub word_bits : ℕ
word_bits = 64

-- a << k
unfoldable pub shl : ℕ → ℕ → ℕ
shl a k = (a * 2 ^ k) % 2 ^ 64

-- a >> k
unfoldable pub shr : ℕ → ℕ → ℕ
shr a k = a / 2 ^ k

-- ~a
unfoldable pub complement : ℕ → ℕ
complement a = 2 ^ 64 - 1 - a

-- a - b, wrapping
unfoldable pub sub : ℕ → ℕ → ℕ
sub a b = (a + 2 ^ 64 - b) % 2 ^ 64
