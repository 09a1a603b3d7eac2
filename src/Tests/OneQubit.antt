-- ===== src/Tests/OneQubit.antt =====
-- The kernels and the pool at concrete inputs: the one-qubit gates.
use pennylane_lightning.Prelude.{◌≡◌, refl, true, false, [], ◌∷◌, arith, ok}
use pennylane_lightning.Gate.{gate1}
use pennylane_lightning.Tests.Words.{words, state}
use pennylane_lightning.Tests.Signs.{numbers, numbers-KeepsSigns, plus_minus, triangular}
use pennylane_lightning.Lm.OneQubit.{
  apply_nc_pauli_y, apply_nc_pauli_z, apply_nc_hadamard, apply_nc_s, apply_nc_t,
  apply_nc_phase_shift,
}
use pennylane_lightning.Lm.Rotations.{
  apply_nc_rx, apply_nc_ry, apply_nc_rz, apply_nc_single_qubit_op, apply_nc_rot,
}
use pennylane_lightning.Lm.Angles.{turn, euler_matrix}
use pennylane_lightning.Lm.OneQubitLaws.{
  pauli_y_update, pauli_z_update, hadamard_update, shift_update, quarter_turn, eighth_turn,
  fixed_gates, phase_gates,
}
use pennylane_lightning.Lm.RotationLaws.{
  x_rotation, y_rotation, z_rotation, op_update, rotation_gates, apply_nc_single_qubit_op_lem,
}

fixed_gates_example :
    (apply_nc_pauli_y words 3 (0 ∷ []) (true ∷ []) (2 ∷ []) true state
      ≡ ok (gate1 3 (0 ∷ []) (true ∷ []) 2 (pauli_y_update words) state))
    × (apply_nc_pauli_z words 3 (0 ∷ []) (true ∷ []) (2 ∷ []) true state
        ≡ ok (gate1 3 (0 ∷ []) (true ∷ []) 2 (pauli_z_update words) state))
    × (apply_nc_hadamard words 3 (0 ∷ []) (true ∷ []) (2 ∷ []) true state
        ≡ ok (gate1 3 (0 ∷ []) (true ∷ []) 2 (hadamard_update words) state))
fixed_gates_example =
    fixed_gates words 3 2 (0 ∷ []) (true ∷ []) (omega arith)
      (omega arith, refl, (omega arith, refl, tt)) refl true state

phase_gates_example :
    (apply_nc_s numbers 3 (0 ∷ []) (true ∷ []) (2 ∷ []) true plus_minus
      ≡ ok (
          gate1 3
            (0 ∷ [])
            (true ∷ [])
            2
            (shift_update numbers (quarter_turn numbers true))
            plus_minus))
    × (apply_nc_t numbers 3 (0 ∷ []) (true ∷ []) (2 ∷ []) true plus_minus
        ≡ ok (
            gate1 3
              (0 ∷ [])
              (true ∷ [])
              2
              (shift_update numbers (eighth_turn numbers true))
              plus_minus))
    × (apply_nc_phase_shift numbers 3 (0 ∷ []) (true ∷ []) (2 ∷ []) true (false, 5) plus_minus
        ≡ ok (
            gate1 3
              (0 ∷ [])
              (true ∷ [])
              2
              (shift_update numbers (turn numbers (true, 5)))
              plus_minus))
phase_gates_example =
    phase_gates numbers 3 2 (0 ∷ []) (true ∷ []) (omega arith)
      (omega arith, refl, (omega arith, refl, tt)) refl true plus_minus numbers-KeepsSigns
      (false, 5)

rotation_gates_example :
    (apply_nc_rx numbers 3 (0 ∷ []) (true ∷ []) (2 ∷ []) true (false, 5) plus_minus
      ≡ ok (gate1 3 (0 ∷ []) (true ∷ []) 2 (x_rotation numbers (true, 5)) plus_minus))
    × (apply_nc_ry numbers 3 (0 ∷ []) (true ∷ []) (2 ∷ []) true (false, 5) plus_minus
        ≡ ok (gate1 3 (0 ∷ []) (true ∷ []) 2 (y_rotation numbers (true, 5)) plus_minus))
    × (apply_nc_rz numbers 3 (0 ∷ []) (true ∷ []) (2 ∷ []) true (false, 5) plus_minus
        ≡ ok (gate1 3 (0 ∷ []) (true ∷ []) 2 (z_rotation numbers (true, 5)) plus_minus))
    × (apply_nc_rot numbers 3
          (0 ∷ [])
          (true ∷ [])
          (2 ∷ [])
          true
          (false, 1)
          (true, 2)
          (false, 3)
          plus_minus
        ≡ ok (
            gate1 3
              (0 ∷ [])
              (true ∷ [])
              2
              (op_update numbers true (euler_matrix numbers (false, 1) (true, 2) (false, 3)))
              plus_minus))
rotation_gates_example =
    rotation_gates numbers 3 2 (0 ∷ []) (true ∷ []) (omega arith)
      (omega arith, refl, (omega arith, refl, tt)) refl true plus_minus numbers-KeepsSigns
      (false, 5) (false, 1) (true, 2) (false, 3)

apply_nc_single_qubit_op_lem_example :
    apply_nc_single_qubit_op numbers 3 (0 ∷ []) (true ∷ []) (2 ∷ []) true triangular plus_minus
    ≡ ok (gate1 3 (0 ∷ []) (true ∷ []) 2 (op_update numbers true triangular) plus_minus)
apply_nc_single_qubit_op_lem_example =
    apply_nc_single_qubit_op_lem numbers 3 2 (0 ∷ []) (true ∷ []) (omega arith)
      (omega arith, refl, (omega arith, refl, tt)) refl true plus_minus triangular
