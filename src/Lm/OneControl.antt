-- ===== src/Lm/OneControl.antt =====
-- The two-qubit gates of GateImplementationsLM.hpp that have one control: they act on the amplitudes
-- i10 and i11 of a round of applyNC2 without control wires.
use pennylane_lightning.Prelude.{ℕ, Bool, false, List, [], Outcome}
use pennylane_lightning.Memory.{Arr, write, set2}
use pennylane_lightning.Complex.{Floats, Complex, complex, plus, times, scaled}
use pennylane_lightning.Lm.Apply.{Core2, apply_nc2}
use pennylane_lightning.Lm.OneQubit.{Matrix2, scale_at, minus_once, phase}
use pennylane_lightning.Lm.Rotations.{rx_js, signed_sin, first_shift, second_shift, rot_matrix}

module _ (F : Floats) where
  unfoldable pub cy_core : Core2 (Complex F)
  unfolding set2
  cy_core arr q =
      let v0 = arr q.i10 in
      let v1 = arr q.i11 in
      set2 arr q.i10 q.i11 (complex F v1.im (F.neg v1.re)) (complex F (F.neg v0.im) v0.re)

  unfoldable pub apply_cy : ℕ → List ℕ → Bool → Arr (Complex F) → Outcome (Arr (Complex F))
  unfolding apply_nc2
  apply_cy num_qubits wires inverse arr = apply_nc2 false cy_core num_qubits [] [] wires arr

  unfoldable pub cz_core : Core2 (Complex F)
  unfolding write
  cz_core arr q = write arr q.i11 (minus_once F (arr q.i11))

  unfoldable pub apply_cz : ℕ → List ℕ → Bool → Arr (Complex F) → Outcome (Arr (Complex F))
  unfolding apply_nc2
  apply_cz num_qubits wires inverse arr = apply_nc2 false cz_core num_qubits [] [] wires arr

  unfoldable pub controlled_phase_shift_core : Complex F → Core2 (Complex F)
  unfolding scale_at
  controlled_phase_shift_core s arr q = scale_at F arr q.i11 s

  unfoldable pub apply_controlled_phase_shift :
      ℕ → List ℕ → Bool → F.Real → Arr (Complex F) → Outcome (Arr (Complex F))
  unfolding apply_nc2
  apply_controlled_phase_shift num_qubits wires inverse angle arr =
      apply_nc2 false (controlled_phase_shift_core (phase F inverse angle)) num_qubits [] [] wires
        arr

  unfoldable pub crx_core : F.Real → F.Real → Core2 (Complex F)
  unfolding set2
  crx_core c js arr q =
      let v0 = arr q.i10 in
      let v1 = arr q.i11 in
      set2 arr q.i10 q.i11
        (plus F (scaled F c v0) (complex F (F.mul (F.neg v1.im) js) (F.mul v1.re js)))
        (plus F (complex F (F.mul (F.neg v0.im) js) (F.mul v0.re js)) (scaled F c v1))

  unfoldable pub apply_crx :
      ℕ → List ℕ → Bool → F.Real → Arr (Complex F) → Outcome (Arr (Complex F))
  unfolding apply_nc2
  apply_crx num_qubits wires inverse angle arr =
      apply_nc2 false (crx_core (F.cos (F.half angle)) (rx_js F inverse angle)) num_qubits [] []
        wires arr

  unfoldable pub cry_core : F.Real → F.Real → Core2 (Complex F)
  unfolding set2
  cry_core c s arr q =
      let v0 = arr q.i10 in
      let v1 = arr q.i11 in
      set2 arr q.i10 q.i11
        (complex F (F.sub (F.mul c v0.re) (F.mul s v1.re)) (F.sub (F.mul c v0.im) (F.mul s v1.im)))
        (complex F (F.add (F.mul s v0.re) (F.mul c v1.re)) (F.add (F.mul s v0.im) (F.mul c v1.im)))

  unfoldable pub apply_cry :
      ℕ → List ℕ → Bool → F.Real → Arr (Complex F) → Outcome (Arr (Complex F))
  unfolding apply_nc2
  apply_cry num_qubits wires inverse angle arr =
      apply_nc2 false (cry_core (F.cos (F.half angle)) (signed_sin F inverse angle)) num_qubits []
        [] wires arr

  unfoldable pub crz_core : Complex F → Complex F → Core2 (Complex F)
  unfolding scale_at
  crz_core shift0 shift1 arr q = scale_at F (scale_at F arr q.i10 shift0) q.i11 shift1

  unfoldable pub apply_crz :
      ℕ → List ℕ → Bool → F.Real → Arr (Complex F) → Outcome (Arr (Complex F))
  unfolding apply_nc2
  apply_crz num_qubits wires inverse angle arr =
      apply_nc2 false (crz_core (first_shift F inverse angle) (second_shift F inverse angle))
        num_qubits [] [] wires arr

  unfoldable pub crot_core : Matrix2 F → Core2 (Complex F)
  unfolding set2
  crot_core mat arr q =
      let v0 = arr q.i10 in
      let v1 = arr q.i11 in
      set2 arr q.i10 q.i11 (plus F (times F mat.m00 v0) (times F mat.m01 v1))
        (plus F (times F mat.m10 v0) (times F mat.m11 v1))

  unfoldable pub apply_crot :
      ℕ → List ℕ → Bool → F.Real → F.Real → F.Real → Arr (Complex F) → Outcome (Arr (Complex F))
  unfolding apply_nc2
  apply_crot num_qubits wires inverse phi theta omega arr =
      apply_nc2 false (crot_core (rot_matrix F inverse phi theta omega)) num_qubits [] [] wires arr
