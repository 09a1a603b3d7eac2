-- ===== src/Lm/MultiRz.antt =====
-- MultiRZ of GateImplementationsLM.hpp and its generator: a phase or a sign by the parity of the ones at
-- the wires.
use pennylane_lightning.Prelude.{
  ℕ, ◌+◌, ◌%◌, Bool, List, [], ◌∷◌, length, range, bit_and, bit_or, ◌==◌, if◌then◌else◌, Outcome,
  ok, abort_if_not, ◌>>◌,
}
use pennylane_lightning.Word.{shl, sub}
use pennylane_lightning.Word.Popcount.{popcount}
use pennylane_lightning.Memory.{Arr, write, for_each}
use pennylane_lightning.Complex.{Floats, Complex, complex}
use pennylane_lightning.Lm.Index.{to_word}
use pennylane_lightning.Lm.Apply.{size_mismatch}
use pennylane_lightning.Lm.Many.{CoreN, apply_ncn}
use pennylane_lightning.Lm.OneQubit.{scale_at}
use pennylane_lightning.Lm.Rotations.{first_shift, second_shift}

-- for (wire : wires) wires_parity |= 1U << (num_qubits - wire - 1)
unfoldable pub parity_mask : ℕ → List ℕ → ℕ
unfolding for_each shl sub
parity_mask num_qubits wires =
    for_each wires (λ wire mask. bit_or mask (shl 1 (sub (sub num_qubits wire) 1))) 0

-- ctrls_mask |= controlled_values[i] << (num_qubits - controlled_wires[i] - 1)
unfoldable pub values_mask : ℕ → List ℕ → List Bool → ℕ → ℕ
unfolding shl sub
values_mask num_qubits [] values mask = mask
values_mask num_qubits (wire ∷ wires) [] mask = mask
values_mask num_qubits (wire ∷ wires) (v ∷ values) mask =
    values_mask num_qubits wires values
      (bit_or mask (shl (to_word v) (sub (sub num_qubits wire) 1)))

module _ (F : Floats) where
  -- shifts[std::popcount(k & wires_parity) % 2]
  abbrev pub parity_shift : Complex F → Complex F → ℕ → ℕ → Complex F
  parity_shift shift0 shift1 mask k = if popcount (bit_and k mask) % 2 == 0 then shift0 else shift1

  unfoldable pub apply_multi_rz : ℕ → List ℕ → Bool → F.Real → Arr (Complex F) → Arr (Complex F)
  unfolding for_each shl parity_mask scale_at
  apply_multi_rz num_qubits wires inverse angle arr =
      let wires_parity = parity_mask num_qubits wires in
      for_each (range (shl 1 num_qubits))
        (λ k a. scale_at F a k (
          parity_shift (first_shift F inverse angle) (second_shift F inverse angle) wires_parity k))
        arr

  unfoldable pub multi_rz_core : Complex F → Complex F → ℕ → CoreN (Complex F)
  unfolding for_each scale_at
  multi_rz_core shift0 shift1 wires_parity arr indices offset =
      for_each indices
        (λ k a. scale_at F a (k + offset) (parity_shift shift0 shift1 wires_parity (k + offset)))
        arr

  unfoldable pub apply_nc_multi_rz :
      ℕ → List ℕ → List Bool → List ℕ → Bool → F.Real → Arr (Complex F) → Outcome (Arr (Complex F))
  unfolding apply_ncn multi_rz_core parity_mask
  apply_nc_multi_rz num_qubits controlled_wires controlled_values wires inverse angle arr =
      apply_ncn
        (multi_rz_core (first_shift F inverse angle) (second_shift F inverse angle)
          (parity_mask num_qubits wires))
        num_qubits controlled_wires controlled_values wires arr

  -- arr[k] *= 1 - 2 * int(std::popcount(k & wires_parity) % 2)
  unfoldable pub sign_round : ℕ → ℕ → Arr (Complex F) → Arr (Complex F)
  unfolding write
  sign_round wires_parity k arr =
      let sign = if popcount (bit_and k wires_parity) % 2 == 0 then F.one else F.neg F.one in
      write arr k (complex F (F.mul (arr k).re sign) (F.mul (arr k).im sign))

  unfoldable pub apply_generator_multi_rz :
      ℕ → List ℕ → Bool → Arr (Complex F) → F.Real × Arr (Complex F)
  unfolding for_each shl parity_mask sign_round
  apply_generator_multi_rz num_qubits wires adj arr = (
    F.neg (F.half F.one),
    for_each (range (shl 1 num_qubits)) (sign_round (parity_mask num_qubits wires)) arr,
  )

  -- The round k of the loop with controls.
  unfoldable pub controlled_sign_round : ℕ → ℕ → ℕ → ℕ → Arr (Complex F) → Arr (Complex F)
  unfolding write sign_round
  controlled_sign_round ctrls_mask ctrls_parity wires_parity k arr =
      if ctrls_mask == bit_and ctrls_parity k
      then sign_round wires_parity k arr
      else write arr k (complex F F.zero F.zero)

  unfoldable pub apply_nc_generator_multi_rz :
      ℕ → List ℕ → List Bool → List ℕ → Bool → Arr (Complex F) → Outcome (F.Real × Arr (Complex F))
  unfolding for_each shl parity_mask values_mask controlled_sign_round
  apply_nc_generator_multi_rz num_qubits controlled_wires controlled_values wires adj arr = do
    let ctrls_mask = values_mask num_qubits controlled_wires controlled_values 0
    let ctrls_parity = parity_mask num_qubits controlled_wires
    let wires_parity = parity_mask num_qubits wires
    abort_if_not (length controlled_wires == length controlled_values) size_mismatch
    ok (
      F.neg (F.half F.one),
      for_each (range (shl 1 num_qubits))
          (controlled_sign_round ctrls_mask ctrls_parity wires_parity) arr,
    )
