-- ===== src/Lm/GlobalPhase.antt =====
-- GlobalPhase of GateImplementationsLM.hpp and its generator. With controls, the phase is that of a
-- one-qubit gate on the first wire that is no control.
use pennylane_lightning.Prelude.{ℕ, Bool, List, [], ◌∷◌, elem, range, if◌then◌else◌, Outcome, ok}
use pennylane_lightning.Memory.{Arr}
use pennylane_lightning.Complex.{Floats, Complex, complex, cexp}
use pennylane_lightning.Lm.Apply.{Core1, is_empty, dispatch_nc1}
use pennylane_lightning.Lm.Generate.{apply_nc_generator1}
use pennylane_lightning.Lm.OneQubit.{scale_at}
use pennylane_lightning.Lm.OneQubitGenerators.{with_factor}

-- for i = ...: if (std::find(controlled_wires, i) == end) { target = i; break; }
abbrev pub first_free : List ℕ → List ℕ → ℕ
first_free controlled_wires [] = 0
first_free controlled_wires (i ∷ rest) =
    let later = first_free controlled_wires rest in if elem i controlled_wires then later else i

unfoldable pub phase_target : ℕ → List ℕ → ℕ
phase_target num_qubits controlled_wires =
    if is_empty controlled_wires then 0 else first_free controlled_wires (range num_qubits)

module _ (F : Floats) where
  abbrev pub global_phase : Bool → F.Real → Complex F
  global_phase inverse angle = cexp F (complex F F.zero (if inverse then angle else F.neg angle))

  unfoldable pub global_phase_core : Complex F → Core1 (Complex F)
  unfolding scale_at
  global_phase_core phase arr i0 i1 = scale_at F (scale_at F arr i0 phase) i1 phase

  unfoldable pub apply_nc_global_phase :
      ℕ → List ℕ → List Bool → List ℕ → Bool → F.Real → Arr (Complex F) → Outcome (Arr (Complex F))
  unfolding dispatch_nc1 global_phase_core phase_target
  apply_nc_global_phase num_qubits controlled_wires controlled_values wires inverse angle arr =
      dispatch_nc1 (global_phase_core (global_phase inverse angle)) num_qubits controlled_wires
        controlled_values (phase_target num_qubits controlled_wires ∷ []) arr

  unfoldable pub apply_global_phase :
      ℕ → List ℕ → Bool → F.Real → Arr (Complex F) → Outcome (Arr (Complex F))
  unfolding apply_nc_global_phase
  apply_global_phase num_qubits wires inverse angle arr =
      apply_nc_global_phase num_qubits [] [] wires inverse angle arr

  -- The core function of its generator has an empty body.
  unfoldable pub generator_global_phase_core : Core1 (Complex F)
  generator_global_phase_core arr i0 i1 = arr

  unfoldable pub apply_nc_generator_global_phase :
      ℕ → List ℕ → List Bool → List ℕ → Bool → Arr (Complex F) → Outcome (F.Real × Arr (Complex F))
  unfolding apply_nc_generator1 generator_global_phase_core phase_target
  apply_nc_generator_global_phase num_qubits controlled_wires controlled_values wires adj arr =
      with_factor F (F.neg F.one) (
        apply_nc_generator1 (complex F F.zero F.zero) generator_global_phase_core num_qubits
          controlled_wires controlled_values (phase_target num_qubits controlled_wires ∷ []) arr)

  unfoldable pub apply_generator_global_phase :
      ℕ → List ℕ → Bool → Arr (Complex F) → Outcome (F.Real × Arr (Complex F))
  apply_generator_global_phase num_qubits wires adj arr = ok (F.neg F.one, arr)
