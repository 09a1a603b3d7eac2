-- ===== src/BitUtil.antt =====
-- utils/BitUtil.hpp: masks, bit tricks, and the parity masks from which the gate kernels compute
-- the addresses of a state vector.
pub mod Sort
pub mod Masks
pub mod Parity
pub mod Swap
pub mod Powers
use pennylane_lightning.Prelude.{
  ℕ, zero, suc, ◌+◌, ◌-◌, ◌/◌, ◌%◌, Bool, List, [], ◌∷◌, bit_and, bit_or, bit_xor, ◌==◌,
  if◌then◌else◌,
}
use pennylane_lightning.Word.{shl, shr, complement}
use Sort.{sort}

-- std::countr_zero: the number of zeros below the lowest one, 64 for zero.
countr_zero_from : ℕ → ℕ → ℕ
countr_zero_from zero x = 0
countr_zero_from (suc fuel) x =
    let rest = suc (countr_zero_from fuel (x / 2)) in if x % 2 == 1 then 0 else rest

unfoldable pub countr_zero : ℕ → ℕ
unfolding countr_zero_from
countr_zero x = countr_zero_from 64 x

-- std::popcount, over the 64 digits of a word.
popcount_from : ℕ → ℕ → ℕ
popcount_from zero x = 0
popcount_from (suc fuel) x = x % 2 + popcount_from fuel (x / 2)

unfoldable pub popcount : ℕ → ℕ
unfolding popcount_from
popcount x = popcount_from 64 x

-- std::has_single_bit
unfoldable pub has_single_bit : ℕ → Bool
unfolding popcount
has_single_bit x = popcount x == 1

unfoldable pub log2_perfect_power : ℕ → ℕ
unfolding countr_zero
log2_perfect_power val = countr_zero val

unfoldable pub is_perfect_power_of2 : ℕ → Bool
unfolding has_single_bit
is_perfect_power_of2 value = has_single_bit value

unfoldable pub fill_trailing_ones : ℕ → ℕ
unfolding shr complement
fill_trailing_ones nbits = if nbits == 0 then 0 else shr (complement 0) (64 - nbits)

-- For pos below 64: a shift by 64 is undefined in C++, so that rev_wire_parity is defined for wires
-- below 63.
unfoldable pub fill_leading_ones : ℕ → ℕ
unfolding shl complement
fill_leading_ones pos = shl (complement 0) pos

unfoldable pub bitswap : ℕ → ℕ → ℕ → ℕ
unfolding shl shr
bitswap bits i j =
    let x = bit_and (bit_xor (shr bits i) (shr bits j)) 1 in
    bit_xor bits (bit_or (shl x i) (shl x j))

-- The masks above the wire `previous`: one below each further wire, and the last.
parity_above : ℕ → List ℕ → List ℕ
parity_above previous [] = fill_leading_ones (previous + 1) ∷ []
parity_above previous (wire ∷ wires) =
    bit_and (fill_leading_ones (previous + 1)) (fill_trailing_ones wire) ∷ parity_above wire wires

-- The masks of wires in ascending order. The source reads out of range if there is no wire.
parity_of_sorted : List ℕ → List ℕ
parity_of_sorted [] = []
parity_of_sorted (wire ∷ wires) = fill_trailing_ones wire ∷ parity_above wire wires

unfoldable pub rev_wire_parity : List ℕ → List ℕ
unfolding parity_of_sorted parity_above fill_trailing_ones fill_leading_ones sort
rev_wire_parity wire_list = parity_of_sorted (sort wire_list)
