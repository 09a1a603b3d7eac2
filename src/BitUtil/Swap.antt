-- ===== src/BitUtil/Swap.antt =====
-- bitswap exchanges two digits and keeps the others.
use pennylane_lightning.Prelude.{
  ℕ, zero, suc, ◌-◌, ◌<◌, ◌≡◌, ◌&&◌, bit_and, bit_or, bit_xor, arith, ◌==◌, xor, if◌then◌else◌,
}
use pennylane_lightning.Word.{shl, shr}
use pennylane_lightning.Word.Bit.{bit, bit_ext, bit-bit_and, bit-bit_or, bit-bit_xor, bit-pow}
use pennylane_lightning.Word.Shift.{bit-shl, bit-shr}
use pennylane_lightning.BitUtil.{bitswap}

differing : ℕ → ℕ → ℕ → ℕ
differing bits i j = bit_and (bit_xor (shr bits i) (shr bits j)) 1

bit-differing :
    (bits i j t : ℕ) → bit (differing bits i j) t ≡ (t == 0 && xor (bit bits i) (bit bits j))
unfolding differing
bit-differing bits i j zero = ground (
  arith,
  bit-bit_and (bit_xor (shr bits i) (shr bits j)) 1 0,
  bit-pow 0 0,
  bit-bit_xor (shr bits i) (shr bits j) 0,
  bit-shr bits i 0,
  bit-shr bits j 0,
)
bit-differing bits i j (suc t) =
    ground (arith, bit-bit_and (bit_xor (shr bits i) (shr bits j)) 1 (suc t), bit-pow 0 (suc t))

-- For positions below 64: digit i of the result is digit j of the argument, digit j is digit i,
-- and every other digit is as it was.
pub bit-bitswap :
    (bits i j q : ℕ)
    → i < 64
    → j < 64
    → bit (bitswap bits i j) q
      ≡ (if q == i then bit bits j else if q == j then bit bits i else bit bits q)
unfolding bitswap differing
bit-bitswap bits i j q hi hj = ground (
  arith,
  bit-bit_xor bits (bit_or (shl (differing bits i j) i) (shl (differing bits i j) j)) q,
  bit-bit_or (shl (differing bits i j) i) (shl (differing bits i j) j) q,
  bit-shl (differing bits i j) i q,
  bit-shl (differing bits i j) j q,
  bit-differing bits i j (q - i),
  bit-differing bits i j (q - j),
)

-- Swapping the same two digits below 64 twice gives the word back.
pub bitswap-bitswap : (bits i j : ℕ) → i < 64 → j < 64 → bitswap (bitswap bits i j) i j ≡ bits
bitswap-bitswap bits i j hi hj = bit_ext _ _ (λ q. ground (
  arith,
  bit-bitswap (bitswap bits i j) i j q,
  bit-bitswap bits i j q,
  bit-bitswap bits i j i,
  bit-bitswap bits i j j,
))
