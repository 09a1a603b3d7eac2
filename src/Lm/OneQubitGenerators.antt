-- ===== src/Lm/OneQubitGenerators.antt =====
-- The generators of the one-qubit gates of GateImplementationsLM.hpp, with controls and with one control.
-- Each returns a factor and leaves the scaling by it to the caller.
use pennylane_lightning.Prelude.{ℕ, Bool, true, List, [], ◌∷◌, get_or, Outcome, ok, ◌>>=◌}
use pennylane_lightning.Memory.{Arr, write, swap, set2}
use pennylane_lightning.Complex.{Floats, Complex, complex}
use pennylane_lightning.Lm.Apply.{Core1}
use pennylane_lightning.Lm.Generate.{apply_nc_generator1}
use pennylane_lightning.Lm.OneQubit.{minus_once}

module _ (F : Floats) where
  -- The factor that is returned and the state vector that the call leaves.
  abbrev pub with_factor : F.Real → Outcome (Arr (Complex F)) → Outcome (F.Real × Arr (Complex F))
  with_factor factor run = run >>= λ arr. ok (factor, arr)

  unfoldable pub generator_phase_shift_core : Core1 (Complex F)
  unfolding write
  generator_phase_shift_core arr i0 i1 = write arr i0 (complex F F.zero F.zero)

  unfoldable pub apply_nc_generator_phase_shift :
      ℕ → List ℕ → List Bool → List ℕ → Bool → Arr (Complex F) → Outcome (F.Real × Arr (Complex F))
  unfolding apply_nc_generator1 generator_phase_shift_core
  apply_nc_generator_phase_shift num_qubits controlled_wires controlled_values wires adj arr =
      with_factor (F.one) (
        apply_nc_generator1 (complex F F.zero F.zero) generator_phase_shift_core num_qubits
          controlled_wires controlled_values wires arr)

  unfoldable pub apply_generator_phase_shift :
      ℕ → List ℕ → Bool → Arr (Complex F) → Outcome (F.Real × Arr (Complex F))
  unfolding apply_nc_generator_phase_shift
  apply_generator_phase_shift num_qubits wires adj arr =
      apply_nc_generator_phase_shift num_qubits [] [] wires adj arr

  unfoldable pub apply_generator_controlled_phase_shift :
      ℕ → List ℕ → Bool → Arr (Complex F) → Outcome (F.Real × Arr (Complex F))
  unfolding apply_nc_generator_phase_shift
  apply_generator_controlled_phase_shift num_qubits wires adj arr =
      apply_nc_generator_phase_shift num_qubits (get_or wires 0 0 ∷ []) (true ∷ [])
        (get_or wires 1 0 ∷ []) adj arr

  unfoldable pub generator_rx_core : Core1 (Complex F)
  unfolding swap
  generator_rx_core arr i0 i1 = swap arr i0 i1

  unfoldable pub apply_nc_generator_rx :
      ℕ → List ℕ → List Bool → List ℕ → Bool → Arr (Complex F) → Outcome (F.Real × Arr (Complex F))
  unfolding apply_nc_generator1 generator_rx_core
  apply_nc_generator_rx num_qubits controlled_wires controlled_values wires adj arr =
      with_factor (F.neg (F.half F.one)) (
        apply_nc_generator1 (complex F F.zero F.zero) generator_rx_core num_qubits controlled_wires
          controlled_values wires arr)

  unfoldable pub apply_generator_crx :
      ℕ → List ℕ → Bool → Arr (Complex F) → Outcome (F.Real × Arr (Complex F))
  unfolding apply_nc_generator_rx
  apply_generator_crx num_qubits wires adj arr =
      apply_nc_generator_rx num_qubits (get_or wires 0 0 ∷ []) (true ∷ []) (get_or wires 1 0 ∷ [])
        adj arr

  unfoldable pub generator_ry_core : Core1 (Complex F)
  unfolding set2
  generator_ry_core arr i0 i1 =
      let v0 = arr i0 in
      let v1 = arr i1 in
      set2 arr i0 i1 (complex F v1.im (F.neg v1.re)) (complex F (F.neg v0.im) v0.re)

  unfoldable pub apply_nc_generator_ry :
      ℕ → List ℕ → List Bool → List ℕ → Bool → Arr (Complex F) → Outcome (F.Real × Arr (Complex F))
  unfolding apply_nc_generator1 generator_ry_core
  apply_nc_generator_ry num_qubits controlled_wires controlled_values wires adj arr =
      with_factor (F.neg (F.half F.one)) (
        apply_nc_generator1 (complex F F.zero F.zero) generator_ry_core num_qubits controlled_wires
          controlled_values wires arr)

  unfoldable pub apply_generator_cry :
      ℕ → List ℕ → Bool → Arr (Complex F) → Outcome (F.Real × Arr (Complex F))
  unfolding apply_nc_generator_ry
  apply_generator_cry num_qubits wires adj arr =
      apply_nc_generator_ry num_qubits (get_or wires 0 0 ∷ []) (true ∷ []) (get_or wires 1 0 ∷ [])
        adj arr

  unfoldable pub generator_rz_core : Core1 (Complex F)
  unfolding write
  generator_rz_core arr i0 i1 = write arr i1 (minus_once F (arr i1))

  unfoldable pub apply_nc_generator_rz :
      ℕ → List ℕ → List Bool → List ℕ → Bool → Arr (Complex F) → Outcome (F.Real × Arr (Complex F))
  unfolding apply_nc_generator1 generator_rz_core
  apply_nc_generator_rz num_qubits controlled_wires controlled_values wires adj arr =
      with_factor (F.neg (F.half F.one)) (
        apply_nc_generator1 (complex F F.zero F.zero) generator_rz_core num_qubits controlled_wires
          controlled_values wires arr)

  unfoldable pub apply_generator_crz :
      ℕ → List ℕ → Bool → Arr (Complex F) → Outcome (F.Real × Arr (Complex F))
  unfolding apply_nc_generator_rz
  apply_generator_crz num_qubits wires adj arr =
      apply_nc_generator_rz num_qubits (get_or wires 0 0 ∷ []) (true ∷ []) (get_or wires 1 0 ∷ [])
        adj arr
