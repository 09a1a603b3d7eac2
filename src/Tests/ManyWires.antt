-- ===== src/Tests/ManyWires.antt =====
-- The kernels at concrete inputs: gates on any number of wires.
use pennylane_lightning.Prelude.{
  ◌≡◌, refl, true, false, [], ◌∷◌, arith, ap, ◌%◌, ◌==◌, if◌then◌else◌, ok,
}
use pennylane_lightning.Memory.{Arr}
use pennylane_lightning.Complex.{Complex, complex, times}
use pennylane_lightning.Gate.{gate_n, only_active}
use pennylane_lightning.Word.Popcount.{ones}
use pennylane_lightning.Tests.Words.{words, state}
use pennylane_lightning.Lm.Rotations.{signed_sin, first_shift, second_shift}
use pennylane_lightning.Lm.Many.{apply_ncn}
use pennylane_lightning.Lm.Ncn.{apply_ncn-gate_n}
use pennylane_lightning.Lm.MultiQubit.{apply_nc_multi_qubit_op}
use pennylane_lightning.Lm.MultiQubitLaws.{
  matrix_entry, product_update, apply_nc_multi_qubit_op_lem,
}
use pennylane_lightning.Lm.MultiRz.{
  parity_mask, multi_rz_core, apply_multi_rz, apply_nc_multi_rz, apply_nc_generator_multi_rz,
}
use pennylane_lightning.Lm.MultiRzLaws.{
  rz_update, multi_rz_core-IsCoreN, parity_phase, apply_nc_multi_rz_lem,
  apply_nc_multi_rz-apply_multi_rz,
}
use pennylane_lightning.Lm.MultiRzGeneratorLaws.{parity_sign, apply_nc_generator_multi_rz_lem}
use pennylane_lightning.Lm.FourQubit.{
  double_excitation_core, apply_nc_double_excitation, double_phase,
  apply_nc_double_excitation_minus, apply_nc_double_excitation_plus, dispatch_nc4,
}
use pennylane_lightning.Lm.Nc4Loops.{dispatch_nc4-gate_n}
use pennylane_lightning.Lm.FourQubitLaws.{
  double_update, double_update-IsLocal, double_excitation_core-IsCore4, double_excitation_gates,
}

-- The matrix with entry i at place i.
abbrev counting : Arr (Complex words)
counting i = complex words i 1

apply_ncn-gate_n_example :
    apply_ncn
      (multi_rz_core words (complex words 2 0) (complex words 3 0) (parity_mask 4 (2 ∷ 1 ∷ [])))
      4
      (0 ∷ [])
      (true ∷ [])
      (2 ∷ 1 ∷ [])
      state
    ≡ ok (
        gate_n 4
          (0 ∷ [])
          (true ∷ [])
          (2 ∷ 1 ∷ [])
          (rz_update words (complex words 2 0) (complex words 3 0) 2)
          state)
apply_ncn-gate_n_example =
    apply_ncn-gate_n
      (multi_rz_core words (complex words 2 0) (complex words 3 0) (parity_mask 4 (2 ∷ 1 ∷ [])))
      (rz_update words (complex words 2 0) (complex words 3 0) 2) 4 (2 ∷ 1 ∷ [])
      (multi_rz_core-IsCoreN words (complex words 2 0) (complex words 3 0) 4 (2 ∷ 1 ∷ [])
        (omega arith) (omega arith, refl, (omega arith, refl, tt)))
      (λ i f g hi same.
        ap (λ x. times words x (if ones 2 i % 2 == 0 then complex words 2 0 else complex words 3 0))
          (same i hi))
      (omega arith) (omega arith) (0 ∷ []) (true ∷ []) state
      (omega arith, refl, (omega arith, refl, (omega arith, refl, tt))) refl

apply_nc_multi_qubit_op_lem_example :
    apply_nc_multi_qubit_op words 4 (0 ∷ []) (false ∷ []) (3 ∷ 1 ∷ []) true counting state
    ≡ ok (
        gate_n 4
          (0 ∷ [])
          (false ∷ [])
          (3 ∷ 1 ∷ [])
          (product_update words 4 (matrix_entry words true 4 counting))
          state)
apply_nc_multi_qubit_op_lem_example =
    apply_nc_multi_qubit_op_lem words 4 (3 ∷ 1 ∷ []) (0 ∷ []) (false ∷ []) true counting state
      (omega arith) (omega arith) (omega arith, refl, (omega arith, refl, (omega arith, refl, tt)))
      refl

apply_nc_multi_rz_lem_example :
    apply_nc_multi_rz words 4 (0 ∷ []) (true ∷ []) (2 ∷ 1 ∷ []) false 5 state
    ≡ ok (
        parity_phase words
          (first_shift words false 5)
          (second_shift words false 5)
          4
          (0 ∷ [])
          (true ∷ [])
          (2 ∷ 1 ∷ [])
          state)
apply_nc_multi_rz_lem_example =
    apply_nc_multi_rz_lem words 4 (2 ∷ 1 ∷ []) (0 ∷ []) (true ∷ []) false 5 state (omega arith)
      (omega arith) (omega arith, refl, (omega arith, refl, (omega arith, refl, tt))) refl

apply_nc_multi_rz-apply_multi_rz_example :
    apply_nc_multi_rz words 4 [] [] (2 ∷ 1 ∷ []) false 5 state
    ≡ ok (apply_multi_rz words 4 (2 ∷ 1 ∷ []) false 5 state)
apply_nc_multi_rz-apply_multi_rz_example =
    apply_nc_multi_rz-apply_multi_rz words 4 (2 ∷ 1 ∷ []) false 5 state (omega arith) (omega arith)
      (omega arith, refl, (omega arith, refl, tt))

apply_nc_generator_multi_rz_lem_example :
    apply_nc_generator_multi_rz words 4 (0 ∷ []) (true ∷ []) (2 ∷ 1 ∷ []) false state
    ≡ ok (
      words.neg (words.half words.one),
      only_active
          (complex words words.zero words.zero)
          4
          (0 ∷ [])
          (true ∷ [])
          (parity_sign words 4 (2 ∷ 1 ∷ []) state),
    )
apply_nc_generator_multi_rz_lem_example =
    apply_nc_generator_multi_rz_lem words 4 (2 ∷ 1 ∷ []) (0 ∷ []) (true ∷ []) false state
      (omega arith) (omega arith, refl, (omega arith, refl, tt)) (omega arith, refl, tt) refl

dispatch_nc4-gate_n_example :
    dispatch_nc4 false
      (double_excitation_core words 2 3)
      5
      (4 ∷ [])
      (true ∷ [])
      (0 ∷ 1 ∷ 2 ∷ 3 ∷ [])
      state
    ≡ ok (
        gate_n 5 (4 ∷ []) (true ∷ []) (0 ∷ 1 ∷ 2 ∷ 3 ∷ []) (double_update words 2 3 (λ x. x)) state)
dispatch_nc4-gate_n_example =
    dispatch_nc4-gate_n false (double_excitation_core words 2 3) (double_update words 2 3 (λ x. x))
      (double_excitation_core-IsCore4 words 2 3) (double_update-IsLocal words 2 3 (λ x. x)) 5 0 1 2
      3 (4 ∷ []) (true ∷ []) state (omega arith)
      (
        omega arith,
        refl,
        (omega arith, refl, (omega arith, refl, (omega arith, refl, (omega arith, refl, tt)))),
      )
      refl

double_excitation_gates_example :
    (apply_nc_double_excitation words 5 (4 ∷ []) (true ∷ []) (0 ∷ 1 ∷ 2 ∷ 3 ∷ []) true 5 state
      ≡ ok (
          gate_n 5
            (4 ∷ [])
            (true ∷ [])
            (0 ∷ 1 ∷ 2 ∷ 3 ∷ [])
            (double_update words (words.cos (words.half 5)) (signed_sin words true 5) (λ x. x))
            state))
    × (apply_nc_double_excitation_minus words 5
          (4 ∷ [])
          (true ∷ [])
          (0 ∷ 1 ∷ 2 ∷ 3 ∷ [])
          true
          5
          state
        ≡ ok (
            gate_n 5
              (4 ∷ [])
              (true ∷ [])
              (0 ∷ 1 ∷ 2 ∷ 3 ∷ [])
              (double_update words
                (words.cos (words.half 5))
                (signed_sin words true 5)
                (λ x. times words x (double_phase words false 5)))
              state))
    × (apply_nc_double_excitation_plus words 5
          (4 ∷ [])
          (true ∷ [])
          (0 ∷ 1 ∷ 2 ∷ 3 ∷ [])
          true
          5
          state
        ≡ ok (
            gate_n 5
              (4 ∷ [])
              (true ∷ [])
              (0 ∷ 1 ∷ 2 ∷ 3 ∷ [])
              (double_update words
                (words.cos (words.half 5))
                (signed_sin words true 5)
                (λ x. times words x (double_phase words true 5)))
              state))
double_excitation_gates_example =
    double_excitation_gates words 5 0 1 2 3 (4 ∷ []) (true ∷ []) (omega arith)
      (
        omega arith,
        refl,
        (omega arith, refl, (omega arith, refl, (omega arith, refl, (omega arith, refl, tt)))),
      )
      refl true state 5
