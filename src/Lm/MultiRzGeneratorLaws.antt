-- ===== src/Lm/MultiRzGeneratorLaws.antt =====
-- What the generator of MultiRZ does to a state vector.
use pennylane_lightning.Prelude.{
  ℕ, ◌%◌, ◌^◌, ◌<◌, ◌≡◌, ap, ◌∙◌, fun_ext, Bool, true, not, ◌&&◌, List, arith, ltb, ◌==◌,
  if◌then◌else◌, length, range, bit_and, Outcome, ok, abort_if_not, ◌>>◌,
}
use pennylane_lightning.Word.{shl}
use pennylane_lightning.Word.Popcount.{popcount}
use pennylane_lightning.BitUtil.Sort.{IsDistinct}
use pennylane_lightning.Memory.{Arr, write, for_each}
use pennylane_lightning.Complex.{Floats, Complex, complex}
use pennylane_lightning.Blocks.{controls_match}
use pennylane_lightning.Gate.{only_active, positions}
use pennylane_lightning.Lm.Apply.{size_mismatch}
use pennylane_lightning.Lm.Parities.{ones_at, popcount-parity_mask, values_mask-controls_match}
use pennylane_lightning.Lm.MultiRz.{
  parity_mask, values_mask, sign_round, apply_generator_multi_rz, controlled_sign_round,
  apply_nc_generator_multi_rz,
}
use pennylane_lightning.Lm.MultiRzLaws.{diagonal_loop}

module _ (F : Floats) where
  -- A number with the sign of a parity.
  abbrev signed : ℕ → Complex F → Complex F
  signed count x =
      complex F (F.mul x.re (if count % 2 == 0 then F.one else F.neg F.one))
        (F.mul x.im (if count % 2 == 0 then F.one else F.neg F.one))

  -- The basis states of n qubits with the sign of the parity of the ones at the wires.
  abbrev pub parity_sign : ℕ → List ℕ → Arr (Complex F) → Arr (Complex F)
  parity_sign n ws arr j =
      if ltb j (2 ^ n)
      then complex F
          (F.mul (arr j).re (if ones_at (positions n ws) j % 2 == 0 then F.one else F.neg F.one))
          (F.mul (arr j).im (if ones_at (positions n ws) j % 2 == 0 then F.one else F.neg F.one))
      else arr j

  -- The generator of MultiRZ on distinct wires below n < 64 returns the factor -1/2 and gives the amplitude
  -- of each basis state the sign of the parity of its ones at the wires.
  pub apply_generator_multi_rz_lem :
      (n : ℕ) (ws : List ℕ) (adj : Bool) (arr : Arr (Complex F))
      → n < 64
      → IsDistinct n ws
      → apply_generator_multi_rz F n ws adj arr ≡ (F.neg (F.half F.one), parity_sign n ws arr)
  unfolding apply_generator_multi_rz sign_round write
  apply_generator_multi_rz_lem n ws adj arr hn d =
      ap (λ a. (F.neg (F.half F.one), a))
        (diagonal_loop n (λ k x. signed (popcount (bit_and k (parity_mask n ws))) x) _ hn
            (record { here = λ i a. ground arith; there = λ i a x ne. ground arith }) arr
          ∙ fun_ext λ j.
            ap (λ c. if ltb j (2 ^ n) then signed c (arr j) else arr j)
              (popcount-parity_mask n ws j hn d))

  -- The generator of MultiRZ with controls, the wires distinct and the controls distinct, all below n < 64,
  -- with a value for each control, returns the factor -1/2 and gives the amplitudes whose controls match
  -- the sign of the parity of the ones at the wires; the other amplitudes become zero.
  pub apply_nc_generator_multi_rz_lem :
      (n : ℕ) (ws cs : List ℕ) (vs : List Bool) (adj : Bool) (arr : Arr (Complex F))
      → n < 64
      → IsDistinct n ws
      → IsDistinct n cs
      → length vs ≡ length cs
      → apply_nc_generator_multi_rz F n cs vs ws adj arr
        ≡ ok (
          F.neg (F.half F.one),
          only_active (complex F F.zero F.zero) n cs vs (parity_sign n ws arr),
        )
  unfolding apply_nc_generator_multi_rz controlled_sign_round sign_round write only_active
  apply_nc_generator_multi_rz_lem n ws cs vs adj arr hn dw dc e =
      let nought = complex F F.zero F.zero in
      let test : ℕ → Bool = λ k. values_mask n cs vs 0 == bit_and (parity_mask n cs) k in
      let rest : Outcome (F.Real × Arr (Complex F)) = ok (
        F.neg (F.half F.one),
        for_each (range (shl 1 n))
            (controlled_sign_round F (values_mask n cs vs 0) (parity_mask n cs) (parity_mask n ws))
            arr,
      ) in
      ap (λ b. abort_if_not b size_mismatch >> rest) {x = length cs == length vs} {y = true}
        (ground arith)
      ∙ ap (λ a. ok (F.neg (F.half F.one), a))
          (diagonal_loop n
              (λ k x. if test k then signed (popcount (bit_and k (parity_mask n ws))) x else nought)
              _ hn (record { here = λ i a. ground arith; there = λ i a x ne. ground arith }) arr
            ∙ fun_ext λ j.
              ap
                (λ c.
                  if ltb j (2 ^ n) then (if test j then signed c (arr j) else nought) else arr j)
                (popcount-parity_mask n ws j hn dw)
              ∙ ap
                  (λ b.
                    if ltb j (2 ^ n)
                    then (if b then signed (ones_at (positions n ws) j) (arr j) else nought)
                    else arr j)
                  (values_mask-controls_match n cs vs j hn dc e)
              ∙ branches (ltb j (2 ^ n)) (controls_match (positions n cs) vs j) _ nought (arr j))
    where
      branches :
          (b c : Bool) (x y z : Complex F)
          → (if b then (if c then x else y) else z) ≡ (if b && not c then y else if b then x else z)
      branches b c x y z = ground arith
