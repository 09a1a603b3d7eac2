-- ===== src/Tests/Bits.antt =====
-- The kernels and the pool at concrete inputs: the bit tricks.
use pennylane_lightning.Prelude.{
  ◌^◌, ◌<◌, ◌≡◌, refl, true, not, ◌&&◌, [], ◌∷◌, arith, elem, get_or, ltb, ◌==◌, if◌then◌else◌,
}
use pennylane_lightning.Word.Bit.{bit}
use pennylane_lightning.BitUtil.{rev_wire_parity, bitswap, log2_perfect_power, is_perfect_power_of2}
use pennylane_lightning.BitUtil.Sort.{rank}
use pennylane_lightning.BitUtil.Parity.{bit-rev_wire_parity}
use pennylane_lightning.BitUtil.Swap.{bit-bitswap}
use pennylane_lightning.BitUtil.Powers.{pow-log2_perfect_power}

eight : is_perfect_power_of2 8 ≡ true
unfolding is_perfect_power_of2
eight = refl

bit-rev_wire_parity_example :
    bit (get_or (rev_wire_parity (4 ∷ 1 ∷ [])) 1 0) 3
    ≡ (ltb 3 64 && (not (elem 3 (4 ∷ 1 ∷ [])) && (rank (4 ∷ 1 ∷ []) 3 == 1)))
bit-rev_wire_parity_example =
    bit-rev_wire_parity (4 ∷ 1 ∷ []) 1 3 (omega arith) (omega arith, refl, (omega arith, refl, tt))

bit-bitswap_example :
    bit (bitswap 6 0 2) 0 ≡ (if 0 == 0 then bit 6 2 else if 0 == 2 then bit 6 0 else bit 6 0)
bit-bitswap_example = bit-bitswap 6 0 2 0 (omega arith) (omega arith)

pow-log2_perfect_power_example : (2 ^ log2_perfect_power 8 ≡ 8) × (log2_perfect_power 8 < 64)
pow-log2_perfect_power_example = pow-log2_perfect_power 8 (omega arith) eight
