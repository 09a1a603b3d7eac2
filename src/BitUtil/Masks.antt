-- ===== src/BitUtil/Masks.antt =====
-- What the two fill functions and the parity masks select, digit by digit.
use pennylane_lightning.Prelude.{ℕ, ◌+◌, ◌-◌, ◌≤◌, ◌≡◌, ◌&&◌, arith, ltb, leb}
use pennylane_lightning.Word.{complement}
use pennylane_lightning.Word.Bit.{bit, bit-zero}
use pennylane_lightning.Word.Shift.{bit-shl, bit-shr, bit-complement}
use pennylane_lightning.BitUtil.{fill_trailing_ones, fill_leading_ones}

bit-ones : (i : ℕ) → bit (complement 0) i ≡ ltb i 64
bit-ones i = ground (arith, bit-complement 0 i, bit-zero i)

-- For n up to 64, the digits of the trailing mask are ones exactly below n.
pub bit-fill_trailing_ones : (n i : ℕ) → n ≤ 64 → bit (fill_trailing_ones n) i ≡ ltb i n
unfolding fill_trailing_ones
bit-fill_trailing_ones n i h =
    ground (arith, bit-shr (complement 0) (64 - n) i, bit-ones (i + (64 - n)), bit-zero i)

-- The digits of the leading mask are ones exactly from pos up to the width.
pub bit-fill_leading_ones : (pos i : ℕ) → bit (fill_leading_ones pos) i ≡ (leb pos i && ltb i 64)
unfolding fill_leading_ones
bit-fill_leading_ones pos i = ground (arith, bit-shl (complement 0) pos i, bit-ones (i - pos))
