-- ===== src/Lm/OneQubit.antt =====
-- The one-qubit gates of GateImplementationsLM.hpp, with controls (applyNC...) and without: each is a
-- core function on the two amplitudes of a round, run by applyNC1. `std::swap` is in Exchange.
use pennylane_lightning.Prelude.{ℕ, Bool, List, [], if◌then◌else◌, Outcome}
use pennylane_lightning.Memory.{Arr, write, set2}
use pennylane_lightning.Complex.{
  Floats, Complex, complex, plus, minus, negated, times, scaled, imag_unit, cexp,
}
use pennylane_lightning.Lm.Apply.{Core1, dispatch_nc1}

-- A matrix of complex numbers with two rows.
pub record Matrix2 (F : Floats) : Type 0 where
  pub m00 : Complex F
  pub m01 : Complex F
  pub m10 : Complex F
  pub m11 : Complex F

module _ (F : Floats) where
  -- arr[i] *= s
  unfoldable pub scale_at : Arr (Complex F) → ℕ → Complex F → Arr (Complex F)
  unfolding write
  scale_at arr i s = write arr i (times F (arr i) s)

  -- v *= -1, an operation of a complex and a real number
  abbrev pub minus_once : Complex F → Complex F
  minus_once v = complex F (F.mul v.re (F.neg F.one)) (F.mul v.im (F.neg F.one))

  unfoldable pub pauli_y_core : Core1 (Complex F)
  unfolding set2
  pauli_y_core arr i0 i1 =
      let v0 = arr i0 in
      let v1 = arr i1 in
      set2 arr i0 i1 (complex F v1.im (F.neg v1.re)) (complex F (F.neg v0.im) v0.re)

  unfoldable pub apply_nc_pauli_y :
      ℕ → List ℕ → List Bool → List ℕ → Bool → Arr (Complex F) → Outcome (Arr (Complex F))
  unfolding dispatch_nc1
  apply_nc_pauli_y num_qubits controlled_wires controlled_values wires inverse arr =
      dispatch_nc1 pauli_y_core num_qubits controlled_wires controlled_values wires arr

  unfoldable pub apply_pauli_y : ℕ → List ℕ → Bool → Arr (Complex F) → Outcome (Arr (Complex F))
  unfolding apply_nc_pauli_y
  apply_pauli_y num_qubits wires inverse arr = apply_nc_pauli_y num_qubits [] [] wires inverse arr

  unfoldable pub pauli_z_core : Core1 (Complex F)
  unfolding write
  pauli_z_core arr i0 i1 = write arr i1 (minus_once (arr i1))

  unfoldable pub apply_nc_pauli_z :
      ℕ → List ℕ → List Bool → List ℕ → Bool → Arr (Complex F) → Outcome (Arr (Complex F))
  unfolding dispatch_nc1
  apply_nc_pauli_z num_qubits controlled_wires controlled_values wires inverse arr =
      dispatch_nc1 pauli_z_core num_qubits controlled_wires controlled_values wires arr

  unfoldable pub apply_pauli_z : ℕ → List ℕ → Bool → Arr (Complex F) → Outcome (Arr (Complex F))
  unfolding apply_nc_pauli_z
  apply_pauli_z num_qubits wires inverse arr = apply_nc_pauli_z num_qubits [] [] wires inverse arr

  unfoldable pub hadamard_core : Core1 (Complex F)
  unfolding set2
  hadamard_core arr i0 i1 =
      let v0 = arr i0 in
      let v1 = arr i1 in
      let isqrt2 = F.inv_sqrt2 in
      set2 arr i0 i1 (plus F (scaled F isqrt2 v0) (scaled F isqrt2 v1))
        (minus F (scaled F isqrt2 v0) (scaled F isqrt2 v1))

  unfoldable pub apply_nc_hadamard :
      ℕ → List ℕ → List Bool → List ℕ → Bool → Arr (Complex F) → Outcome (Arr (Complex F))
  unfolding dispatch_nc1
  apply_nc_hadamard num_qubits controlled_wires controlled_values wires inverse arr =
      dispatch_nc1 hadamard_core num_qubits controlled_wires controlled_values wires arr

  unfoldable pub apply_hadamard : ℕ → List ℕ → Bool → Arr (Complex F) → Outcome (Arr (Complex F))
  unfolding apply_nc_hadamard
  apply_hadamard num_qubits wires inverse arr = apply_nc_hadamard num_qubits [] [] wires inverse arr

  -- The core function of S, T and PhaseShift: it captures the factor of the second amplitude.
  unfoldable pub shift_core : Complex F → Core1 (Complex F)
  unfolding scale_at
  shift_core shift arr i0 i1 = scale_at arr i1 shift

  abbrev pub s_shift : Bool → Complex F
  s_shift inverse = if inverse then negated F (imag_unit F) else imag_unit F

  unfoldable pub apply_nc_s :
      ℕ → List ℕ → List Bool → List ℕ → Bool → Arr (Complex F) → Outcome (Arr (Complex F))
  unfolding dispatch_nc1
  apply_nc_s num_qubits controlled_wires controlled_values wires inverse arr =
      dispatch_nc1 (shift_core (s_shift inverse)) num_qubits controlled_wires controlled_values
        wires arr

  unfoldable pub apply_s : ℕ → List ℕ → Bool → Arr (Complex F) → Outcome (Arr (Complex F))
  unfolding apply_nc_s
  apply_s num_qubits wires inverse arr = apply_nc_s num_qubits [] [] wires inverse arr

  abbrev pub t_shift : Bool → Complex F
  t_shift inverse = complex F F.inv_sqrt2 (if inverse then F.neg F.inv_sqrt2 else F.inv_sqrt2)

  unfoldable pub apply_nc_t :
      ℕ → List ℕ → List Bool → List ℕ → Bool → Arr (Complex F) → Outcome (Arr (Complex F))
  unfolding dispatch_nc1
  apply_nc_t num_qubits controlled_wires controlled_values wires inverse arr =
      dispatch_nc1 (shift_core (t_shift inverse)) num_qubits controlled_wires controlled_values
        wires arr

  unfoldable pub apply_t : ℕ → List ℕ → Bool → Arr (Complex F) → Outcome (Arr (Complex F))
  unfolding apply_nc_t
  apply_t num_qubits wires inverse arr = apply_nc_t num_qubits [] [] wires inverse arr

  abbrev pub phase : Bool → F.Real → Complex F
  phase inverse angle =
      if inverse
      then cexp F (negated F (complex F F.zero angle))
      else cexp F (complex F F.zero angle)

  unfoldable pub apply_nc_phase_shift :
      ℕ → List ℕ → List Bool → List ℕ → Bool → F.Real → Arr (Complex F) → Outcome (Arr (Complex F))
  unfolding dispatch_nc1
  apply_nc_phase_shift num_qubits controlled_wires controlled_values wires inverse angle arr =
      dispatch_nc1 (shift_core (phase inverse angle)) num_qubits controlled_wires controlled_values
        wires arr

  unfoldable pub apply_phase_shift :
      ℕ → List ℕ → Bool → F.Real → Arr (Complex F) → Outcome (Arr (Complex F))
  unfolding apply_nc_phase_shift
  apply_phase_shift num_qubits wires inverse angle arr =
      apply_nc_phase_shift num_qubits [] [] wires inverse angle arr
