-- ===== src/Tests/Generators.antt =====
-- The kernels at concrete inputs: the generators.
use pennylane_lightning.Prelude.{◌≡◌, refl, true, false, [], ◌∷◌, arith, ok}
use pennylane_lightning.Complex.{complex}
use pennylane_lightning.Gate.{gate1, gate2, only_active}
use pennylane_lightning.Tests.Words.{words, state}
use pennylane_lightning.Lm.Exchange.{pauli_x_core, swap_core}
use pennylane_lightning.Lm.ExchangeLaws.{
  x_update, swap_update, pauli_x_core-IsCore1, swap_core-IsCore2,
}
use pennylane_lightning.Lm.OneQubitLaws.{pauli_y_update, pauli_z_update}
use pennylane_lightning.Lm.Generate.{apply_nc_generator1, apply_nc_generator2}
use pennylane_lightning.Lm.GeneratorRun1.{apply_nc_generator1-gate1}
use pennylane_lightning.Lm.GeneratorRun2.{apply_nc_generator2-gate2}
use pennylane_lightning.Lm.OneQubitGenerators.{
  apply_nc_generator_phase_shift, apply_nc_generator_rx, apply_nc_generator_ry,
  apply_nc_generator_rz,
}
use pennylane_lightning.Lm.OneQubitGeneratorLaws.{second_update, one_qubit_generators}
use pennylane_lightning.Lm.TwoQubitGenerators.{
  apply_nc_generator_ising_xx, apply_nc_generator_ising_xy, apply_nc_generator_ising_yy,
  apply_nc_generator_ising_zz, apply_nc_generator_single_excitation,
  apply_nc_generator_single_excitation_minus, apply_nc_generator_single_excitation_plus,
}
use pennylane_lightning.Lm.TwoQubitGeneratorLaws.{
  generator_ising_xx_update, generator_ising_xy_update, generator_ising_yy_update,
  generator_ising_zz_update, generator_single_excitation_update,
  generator_single_excitation_minus_update, generator_single_excitation_plus_update,
  ising_generators, excitation_generators,
}
use pennylane_lightning.Lm.GlobalPhase.{apply_nc_global_phase, apply_nc_generator_global_phase}
use pennylane_lightning.Lm.Angles.{turn}
use pennylane_lightning.Tests.Signs.{numbers, numbers-KeepsSigns, plus_minus}
use pennylane_lightning.Lm.GlobalPhaseLaws.{scaled_active, global_phase_gates}

apply_nc_generator1-gate1_example :
    apply_nc_generator1
      (complex words 0 0)
      pauli_x_core
      3
      (2 ∷ 0 ∷ [])
      (true ∷ false ∷ [])
      (1 ∷ [])
      state
    ≡ ok (
        only_active
          (complex words 0 0)
          3
          (2 ∷ 0 ∷ [])
          (true ∷ false ∷ [])
          (gate1 3 (2 ∷ 0 ∷ []) (true ∷ false ∷ []) 1 x_update state))
apply_nc_generator1-gate1_example =
    apply_nc_generator1-gate1 pauli_x_core x_update pauli_x_core-IsCore1 (complex words 0 0) 3 1
      (2 ∷ 0 ∷ []) (true ∷ false ∷ []) state (omega arith)
      (omega arith, refl, (omega arith, refl, (omega arith, refl, tt))) refl

apply_nc_generator2-gate2_example :
    apply_nc_generator2 (complex words 0 0) swap_core 3 (1 ∷ []) (true ∷ []) (0 ∷ 2 ∷ []) state
    ≡ ok (
        only_active
          (complex words 0 0)
          3
          (1 ∷ [])
          (true ∷ [])
          (gate2 3 (1 ∷ []) (true ∷ []) 0 2 swap_update state))
apply_nc_generator2-gate2_example =
    apply_nc_generator2-gate2 swap_core swap_update swap_core-IsCore2 (complex words 0 0) 3 0 2
      (1 ∷ []) (true ∷ []) state (omega arith)
      (omega arith, refl, (omega arith, refl, (omega arith, refl, tt))) refl

one_qubit_generators_example :
    (apply_nc_generator_phase_shift words 4 (0 ∷ []) (true ∷ []) (2 ∷ []) true state
      ≡ ok (
        words.one,
        only_active
            (complex words words.zero words.zero)
            4
            (0 ∷ [])
            (true ∷ [])
            (gate1 4 (0 ∷ []) (true ∷ []) 2 (second_update words) state),
      ))
    × (apply_nc_generator_rx words 4 (0 ∷ []) (true ∷ []) (2 ∷ []) true state
        ≡ ok (
          words.neg (words.half words.one),
          only_active
              (complex words words.zero words.zero)
              4
              (0 ∷ [])
              (true ∷ [])
              (gate1 4 (0 ∷ []) (true ∷ []) 2 x_update state),
        ))
    × (apply_nc_generator_ry words 4 (0 ∷ []) (true ∷ []) (2 ∷ []) true state
        ≡ ok (
          words.neg (words.half words.one),
          only_active
              (complex words words.zero words.zero)
              4
              (0 ∷ [])
              (true ∷ [])
              (gate1 4 (0 ∷ []) (true ∷ []) 2 (pauli_y_update words) state),
        ))
    × (apply_nc_generator_rz words 4 (0 ∷ []) (true ∷ []) (2 ∷ []) true state
        ≡ ok (
          words.neg (words.half words.one),
          only_active
              (complex words words.zero words.zero)
              4
              (0 ∷ [])
              (true ∷ [])
              (gate1 4 (0 ∷ []) (true ∷ []) 2 (pauli_z_update words) state),
        ))
one_qubit_generators_example =
    one_qubit_generators words 4 2 (0 ∷ []) (true ∷ []) (omega arith)
      (omega arith, refl, (omega arith, refl, tt)) refl true state

ising_generators_example :
    (apply_nc_generator_ising_xx words 4 (0 ∷ []) (true ∷ []) (2 ∷ 3 ∷ []) true state
      ≡ ok (
        words.neg (words.half words.one),
        only_active
            (complex words words.zero words.zero)
            4
            (0 ∷ [])
            (true ∷ [])
            (gate2 4 (0 ∷ []) (true ∷ []) 2 3 (generator_ising_xx_update words) state),
      ))
    × (apply_nc_generator_ising_xy words 4 (0 ∷ []) (true ∷ []) (2 ∷ 3 ∷ []) true state
        ≡ ok (
          words.half words.one,
          only_active
              (complex words words.zero words.zero)
              4
              (0 ∷ [])
              (true ∷ [])
              (gate2 4 (0 ∷ []) (true ∷ []) 2 3 (generator_ising_xy_update words) state),
        ))
    × (apply_nc_generator_ising_yy words 4 (0 ∷ []) (true ∷ []) (2 ∷ 3 ∷ []) true state
        ≡ ok (
          words.neg (words.half words.one),
          only_active
              (complex words words.zero words.zero)
              4
              (0 ∷ [])
              (true ∷ [])
              (gate2 4 (0 ∷ []) (true ∷ []) 2 3 (generator_ising_yy_update words) state),
        ))
    × (apply_nc_generator_ising_zz words 4 (0 ∷ []) (true ∷ []) (2 ∷ 3 ∷ []) true state
        ≡ ok (
          words.neg (words.half words.one),
          only_active
              (complex words words.zero words.zero)
              4
              (0 ∷ [])
              (true ∷ [])
              (gate2 4 (0 ∷ []) (true ∷ []) 2 3 (generator_ising_zz_update words) state),
        ))
ising_generators_example =
    ising_generators words 4 2 3 (0 ∷ []) (true ∷ []) (omega arith)
      (omega arith, refl, (omega arith, refl, (omega arith, refl, tt))) refl true state

excitation_generators_example :
    (apply_nc_generator_single_excitation words 4 (0 ∷ []) (true ∷ []) (2 ∷ 3 ∷ []) true state
      ≡ ok (
        words.neg (words.half words.one),
        only_active
            (complex words words.zero words.zero)
            4
            (0 ∷ [])
            (true ∷ [])
            (gate2 4 (0 ∷ []) (true ∷ []) 2 3 (generator_single_excitation_update words) state),
      ))
    × (apply_nc_generator_single_excitation_minus words 4
          (0 ∷ [])
          (true ∷ [])
          (2 ∷ 3 ∷ [])
          true
          state
        ≡ ok (
          words.neg (words.half words.one),
          only_active (complex words words.zero words.zero) 4 (0 ∷ []) (true ∷ []) (
              gate2 4
                (0 ∷ [])
                (true ∷ [])
                2
                3
                (generator_single_excitation_minus_update words)
                state),
        ))
    × (apply_nc_generator_single_excitation_plus words 4
          (0 ∷ [])
          (true ∷ [])
          (2 ∷ 3 ∷ [])
          true
          state
        ≡ ok (
          words.neg (words.half words.one),
          only_active (complex words words.zero words.zero) 4 (0 ∷ []) (true ∷ []) (
              gate2 4
                (0 ∷ [])
                (true ∷ [])
                2
                3
                (generator_single_excitation_plus_update words)
                state),
        ))
excitation_generators_example =
    excitation_generators words 4 2 3 (0 ∷ []) (true ∷ []) (omega arith)
      (omega arith, refl, (omega arith, refl, (omega arith, refl, tt))) refl true state

global_phase_gates_example :
    (apply_nc_global_phase numbers 3 (0 ∷ []) (true ∷ []) [] true (false, 5) plus_minus
      ≡ ok (scaled_active numbers 3 (0 ∷ []) (true ∷ []) (turn numbers (false, 5)) plus_minus))
    × (apply_nc_generator_global_phase numbers 3 (0 ∷ []) (true ∷ []) [] false plus_minus
        ≡ ok (
          (true, 1),
          only_active (complex numbers (false, 0) (false, 0)) 3 (0 ∷ []) (true ∷ []) plus_minus,
        ))
global_phase_gates_example =
    global_phase_gates numbers 3 1 (0 ∷ []) (true ∷ []) (omega arith) (omega arith, refl, tt)
      (omega arith) refl refl [] plus_minus numbers-KeepsSigns true false (false, 5)
