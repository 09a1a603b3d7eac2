-- ===== src/Tests/TwoQubit.antt =====
-- The kernels and the pool at concrete inputs: the two-qubit gates.
use pennylane_lightning.Prelude.{◌≡◌, refl, true, false, [], ◌∷◌, arith, if◌then◌else◌, ok}
use pennylane_lightning.Complex.{times}
use pennylane_lightning.Gate.{gate2}
use pennylane_lightning.Tests.Words.{words, state, identity4}
use pennylane_lightning.Tests.Signs.{numbers, numbers-KeepsSigns, plus_minus}
use pennylane_lightning.Lm.Rotations.{signed_sin}
use pennylane_lightning.Lm.TwoQubit.{
  apply_nc_ising_xx, apply_nc_ising_xy, apply_nc_ising_yy, apply_nc_ising_zz,
  apply_nc_single_excitation, half_phase, apply_nc_single_excitation_minus,
  apply_nc_single_excitation_plus, apply_nc_two_qubit_op,
}
use pennylane_lightning.Lm.TwoQubitLaws.{excitation_update, excitation_gates}
use pennylane_lightning.Lm.IsingLaws.{
  ising_xx_update, ising_xy_update, ising_yy_update, by_angle, zz_rotation, ising_gates,
}
use pennylane_lightning.Lm.TwoQubitOpLaws.{op_update4, apply_nc_two_qubit_op_lem}

ising_gates_example :
    (apply_nc_ising_xx numbers 4 (0 ∷ []) (true ∷ []) (2 ∷ 3 ∷ []) true (false, 5) plus_minus
      ≡ ok (
          gate2 4
            (0 ∷ [])
            (true ∷ [])
            2
            3
            (by_angle numbers (ising_xx_update numbers) (true, 5))
            plus_minus))
    × (apply_nc_ising_xy numbers 4 (0 ∷ []) (true ∷ []) (2 ∷ 3 ∷ []) true (false, 5) plus_minus
        ≡ ok (
            gate2 4
              (0 ∷ [])
              (true ∷ [])
              2
              3
              (by_angle numbers (ising_xy_update numbers) (true, 5))
              plus_minus))
    × (apply_nc_ising_yy numbers 4 (0 ∷ []) (true ∷ []) (2 ∷ 3 ∷ []) true (false, 5) plus_minus
        ≡ ok (
            gate2 4
              (0 ∷ [])
              (true ∷ [])
              2
              3
              (by_angle numbers (ising_yy_update numbers) (true, 5))
              plus_minus))
    × (apply_nc_ising_zz numbers 4 (0 ∷ []) (true ∷ []) (2 ∷ 3 ∷ []) true (false, 5) plus_minus
        ≡ ok (gate2 4 (0 ∷ []) (true ∷ []) 2 3 (zz_rotation numbers (true, 5)) plus_minus))
ising_gates_example =
    ising_gates numbers 4 2 3 (0 ∷ []) (true ∷ []) (omega arith)
      (omega arith, refl, (omega arith, refl, (omega arith, refl, tt))) refl true plus_minus
      numbers-KeepsSigns (false, 5)

excitation_gates_example :
    (apply_nc_single_excitation words 4 (0 ∷ []) (true ∷ []) (2 ∷ 3 ∷ []) true 5 state
      ≡ ok (
          gate2 4
            (0 ∷ [])
            (true ∷ [])
            2
            3
            (excitation_update words (words.cos (words.half 5)) (signed_sin words true 5) (λ x. x))
            state))
    × (apply_nc_single_excitation_minus words 4 (0 ∷ []) (true ∷ []) (2 ∷ 3 ∷ []) true 5 state
        ≡ ok (
            gate2 4
              (0 ∷ [])
              (true ∷ [])
              2
              3
              (excitation_update words
                (words.cos (words.half 5))
                (signed_sin words true 5)
                (λ x. times words x (half_phase words (if true then false else true) 5)))
              state))
    × (apply_nc_single_excitation_plus words 4 (0 ∷ []) (true ∷ []) (2 ∷ 3 ∷ []) true 5 state
        ≡ ok (
            gate2 4
              (0 ∷ [])
              (true ∷ [])
              2
              3
              (excitation_update words
                (words.cos (words.half 5))
                (signed_sin words true 5)
                (λ x. times words x (half_phase words true 5)))
              state))
excitation_gates_example =
    excitation_gates words 4 2 3 (0 ∷ []) (true ∷ []) (omega arith)
      (omega arith, refl, (omega arith, refl, (omega arith, refl, tt))) refl true state 5

apply_nc_two_qubit_op_lem_example :
    apply_nc_two_qubit_op words 4 (0 ∷ []) (true ∷ []) (2 ∷ 3 ∷ []) true identity4 state
    ≡ ok (gate2 4 (0 ∷ []) (true ∷ []) 2 3 (op_update4 words true identity4) state)
apply_nc_two_qubit_op_lem_example =
    apply_nc_two_qubit_op_lem words 4 2 3 (0 ∷ []) (true ∷ []) true identity4 state (omega arith)
      (omega arith, refl, (omega arith, refl, (omega arith, refl, tt))) refl
