-- ===== src/Lm/OneQubitGeneratorLaws.antt =====
-- What the generators of the one-qubit gates with controls do to a state vector.
use pennylane_lightning.Prelude.{
  ℕ, ◌<◌, ◌≡◌, ap, Bool, true, false, List, [], ◌∷◌, ◌++◌, length, arith, ok,
}
use pennylane_lightning.BitUtil.Sort.{IsDistinct}
use pennylane_lightning.Memory.{Arr, write, set2, swap}
use pennylane_lightning.Complex.{Floats, Complex, complex}
use pennylane_lightning.Gate.{Update1, gate1, only_active}
use pennylane_lightning.Lm.Apply.{Core1}
use pennylane_lightning.Lm.Correct1.{IsCore1}
use pennylane_lightning.Lm.ExchangeLaws.{x_update}
use pennylane_lightning.Lm.OneQubitLaws.{pauli_y_update, pauli_z_update}
use pennylane_lightning.Lm.Generate.{apply_nc_generator1}
use pennylane_lightning.Lm.GeneratorRun1.{apply_nc_generator1-gate1}
use pennylane_lightning.Lm.OneQubitGenerators.{
  with_factor, generator_phase_shift_core, apply_nc_generator_phase_shift, generator_rx_core,
  apply_nc_generator_rx, generator_ry_core, apply_nc_generator_ry, generator_rz_core,
  apply_nc_generator_rz,
}

module _ (F : Floats) where
  -- The projection to the second basis state.
  abbrev pub second_update : Update1 (Complex F)
  second_update false x y = complex F F.zero F.zero
  second_update true x y = y

  generator_phase_shift_core-IsCore1 : IsCore1 (generator_phase_shift_core F) second_update
  unfolding generator_phase_shift_core write
  generator_phase_shift_core-IsCore1 arr i0 i1 j ne = ground arith

  generator_rx_core-IsCore1 : IsCore1 (generator_rx_core F) x_update
  unfolding generator_rx_core swap write
  generator_rx_core-IsCore1 arr i0 i1 j ne = ground arith

  generator_ry_core-IsCore1 : IsCore1 (generator_ry_core F) (pauli_y_update F)
  unfolding generator_ry_core set2 write
  generator_ry_core-IsCore1 arr i0 i1 j ne = ground arith

  generator_rz_core-IsCore1 : IsCore1 (generator_rz_core F) (pauli_z_update F)
  unfolding generator_rz_core write
  generator_rz_core-IsCore1 arr i0 i1 j ne = ground arith

  module _ (n w : ℕ) (cs : List ℕ) (vs : List Bool) (hn : n < 64)
      (distinct : IsDistinct n (cs ++ w ∷ [])) (paired : length vs ≡ length cs) (adj : Bool)
      (arr : Arr (Complex F)) where
    run :
        (factor : F.Real) (core : Core1 (Complex F)) (update : Update1 (Complex F))
        → IsCore1 core update
        → with_factor F factor
            (apply_nc_generator1 (complex F F.zero F.zero) core n cs vs (w ∷ []) arr)
          ≡ ok (factor, only_active (complex F F.zero F.zero) n cs vs (gate1 n cs vs w update arr))
    run factor core update is_core = ap (with_factor F factor) (
        apply_nc_generator1-gate1 core update is_core (complex F F.zero F.zero) n w cs vs arr hn
          distinct paired)

    -- The generators of PhaseShift, RX, RY and RZ with controls, on distinct wires below n < 64 with a value
    -- for each control wire, return their factors and apply the projection to the second basis state,
    -- PauliX, PauliY and PauliZ where the controls match; the other amplitudes become zero.
    pub one_qubit_generators :
        (apply_nc_generator_phase_shift F n cs vs (w ∷ []) adj arr
          ≡ ok (
            F.one,
            only_active (complex F F.zero F.zero) n cs vs (gate1 n cs vs w second_update arr),
          ))
        × (apply_nc_generator_rx F n cs vs (w ∷ []) adj arr
            ≡ ok (
              F.neg (F.half F.one),
              only_active (complex F F.zero F.zero) n cs vs (gate1 n cs vs w x_update arr),
            ))
        × (apply_nc_generator_ry F n cs vs (w ∷ []) adj arr
            ≡ ok (
              F.neg (F.half F.one),
              only_active
                  (complex F F.zero F.zero)
                  n
                  cs
                  vs
                  (gate1 n cs vs w (pauli_y_update F) arr),
            ))
        × (apply_nc_generator_rz F n cs vs (w ∷ []) adj arr
            ≡ ok (
              F.neg (F.half F.one),
              only_active
                  (complex F F.zero F.zero)
                  n
                  cs
                  vs
                  (gate1 n cs vs w (pauli_z_update F) arr),
            ))
    unfolding apply_nc_generator_phase_shift apply_nc_generator_rx apply_nc_generator_ry
        apply_nc_generator_rz
    one_qubit_generators = (
      run F.one (generator_phase_shift_core F) second_update generator_phase_shift_core-IsCore1,
      run (F.neg (F.half F.one)) (generator_rx_core F) x_update generator_rx_core-IsCore1,
      run (F.neg (F.half F.one)) (generator_ry_core F) (pauli_y_update F) generator_ry_core-IsCore1,
      run (F.neg (F.half F.one)) (generator_rz_core F) (pauli_z_update F) generator_rz_core-IsCore1,
    )
