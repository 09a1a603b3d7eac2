-- ===== src/Lm/Rotations.antt =====
-- The rotations of GateImplementationsLM.hpp: RX, RY, RZ, Rot and a gate given by its matrix.
use pennylane_lightning.Prelude.{
  ℕ, Bool, true, false, List, [], length, ◌==◌, if◌then◌else◌, Outcome, abort_if_not, ◌>>◌,
}
use pennylane_lightning.Memory.{Arr, set2}
use pennylane_lightning.Complex.{Floats, Complex, complex, plus, times, conj, scaled}
use pennylane_lightning.Lm.Apply.{Core1, dispatch_nc1}
use pennylane_lightning.Lm.OneQubit.{Matrix2, scale_at}

module _ (F : Floats) where
  abbrev pub rx_js : Bool → F.Real → F.Real
  rx_js inverse angle =
      if inverse then F.neg (F.sin (F.half (F.neg angle))) else F.sin (F.half (F.neg angle))

  unfoldable pub rx_core : F.Real → F.Real → Core1 (Complex F)
  unfolding set2
  rx_core c js arr i0 i1 =
      let v0 = arr i0 in
      let v1 = arr i1 in
      set2 arr i0 i1 (plus F (scaled F c v0) (complex F (F.mul (F.neg v1.im) js) (F.mul v1.re js)))
        (plus F (complex F (F.mul (F.neg v0.im) js) (F.mul v0.re js)) (scaled F c v1))

  unfoldable pub apply_nc_rx :
      ℕ → List ℕ → List Bool → List ℕ → Bool → F.Real → Arr (Complex F) → Outcome (Arr (Complex F))
  unfolding dispatch_nc1
  apply_nc_rx num_qubits controlled_wires controlled_values wires inverse angle arr =
      dispatch_nc1 (rx_core (F.cos (F.half angle)) (rx_js inverse angle)) num_qubits
        controlled_wires controlled_values wires arr

  unfoldable pub apply_rx : ℕ → List ℕ → Bool → F.Real → Arr (Complex F) → Outcome (Arr (Complex F))
  unfolding apply_nc_rx
  apply_rx num_qubits wires inverse angle arr = apply_nc_rx num_qubits [] [] wires inverse angle arr

  abbrev pub signed_sin : Bool → F.Real → F.Real
  signed_sin inverse angle = if inverse then F.neg (F.sin (F.half angle)) else F.sin (F.half angle)

  unfoldable pub ry_core : F.Real → F.Real → Core1 (Complex F)
  unfolding set2
  ry_core c s arr i0 i1 =
      let v0 = arr i0 in
      let v1 = arr i1 in
      set2 arr i0 i1
        (complex F (F.sub (F.mul c v0.re) (F.mul s v1.re)) (F.sub (F.mul c v0.im) (F.mul s v1.im)))
        (complex F (F.add (F.mul s v0.re) (F.mul c v1.re)) (F.add (F.mul s v0.im) (F.mul c v1.im)))

  unfoldable pub apply_nc_ry :
      ℕ → List ℕ → List Bool → List ℕ → Bool → F.Real → Arr (Complex F) → Outcome (Arr (Complex F))
  unfolding dispatch_nc1
  apply_nc_ry num_qubits controlled_wires controlled_values wires inverse angle arr =
      dispatch_nc1 (ry_core (F.cos (F.half angle)) (signed_sin inverse angle)) num_qubits
        controlled_wires controlled_values wires arr

  unfoldable pub apply_ry : ℕ → List ℕ → Bool → F.Real → Arr (Complex F) → Outcome (Arr (Complex F))
  unfolding apply_nc_ry
  apply_ry num_qubits wires inverse angle arr = apply_nc_ry num_qubits [] [] wires inverse angle arr

  -- shifts[0] and shifts[1] of RZ, CRZ and IsingZZ
  abbrev pub first_shift : Bool → F.Real → Complex F
  first_shift inverse angle =
      let first = complex F (F.cos (F.half angle)) (F.neg (F.sin (F.half angle))) in
      if inverse then conj F first else first

  abbrev pub second_shift : Bool → F.Real → Complex F
  second_shift inverse angle =
      let second = complex F (F.cos (F.half angle)) (F.sin (F.half angle)) in
      if inverse then conj F second else second

  unfoldable pub rz_core : Complex F → Complex F → Core1 (Complex F)
  unfolding scale_at
  rz_core shift0 shift1 arr i0 i1 = scale_at F (scale_at F arr i0 shift0) i1 shift1

  unfoldable pub apply_nc_rz :
      ℕ → List ℕ → List Bool → List ℕ → Bool → F.Real → Arr (Complex F) → Outcome (Arr (Complex F))
  unfolding dispatch_nc1
  apply_nc_rz num_qubits controlled_wires controlled_values wires inverse angle arr =
      dispatch_nc1 (rz_core (first_shift inverse angle) (second_shift inverse angle)) num_qubits
        controlled_wires controlled_values wires arr

  unfoldable pub apply_rz : ℕ → List ℕ → Bool → F.Real → Arr (Complex F) → Outcome (Arr (Complex F))
  unfolding apply_nc_rz
  apply_rz num_qubits wires inverse angle arr = apply_nc_rz num_qubits [] [] wires inverse angle arr

  -- mat after the loop that conjugates and transposes it for the inverse
  abbrev pub dagger_if : Bool → Matrix2 F → Matrix2 F
  dagger_if true m = record {
    m00 = conj F m.m00;
    m01 = conj F m.m10;
    m10 = conj F m.m01;
    m11 = conj F m.m11;
  }
  dagger_if false m = m

  unfoldable pub single_qubit_core : Matrix2 F → Core1 (Complex F)
  unfolding set2
  single_qubit_core mat arr i0 i1 =
      let v0 = arr i0 in
      let v1 = arr i1 in
      set2 arr i0 i1 (plus F (times F mat.m00 v0) (times F mat.m01 v1))
        (plus F (times F mat.m10 v0) (times F mat.m11 v1))

  unfoldable pub apply_nc_single_qubit_op :
      ℕ
      → List ℕ
      → List Bool
      → List ℕ
      → Bool
      → Matrix2 F
      → Arr (Complex F)
      → Outcome (Arr (Complex F))
  unfolding dispatch_nc1
  apply_nc_single_qubit_op num_qubits controlled_wires controlled_values wires inverse matrix arr =
      dispatch_nc1 (single_qubit_core (dagger_if inverse matrix)) num_qubits controlled_wires
        controlled_values wires arr

  unfoldable pub apply_single_qubit_op :
      ℕ → List ℕ → Bool → Matrix2 F → Arr (Complex F) → Outcome (Arr (Complex F))
  unfolding apply_nc_single_qubit_op
  apply_single_qubit_op num_qubits wires inverse matrix arr =
      apply_nc_single_qubit_op num_qubits [] [] wires inverse matrix arr

  -- getRot of gates/Gates.hpp
  unfoldable pub get_rot : F.Real → F.Real → F.Real → Matrix2 F
  get_rot phi theta omega =
      let c = F.cos (F.half theta) in
      let s = F.sin (F.half theta) in
      let p = F.half (F.add phi omega) in
      let m = F.half (F.sub phi omega) in
      record {
        m00 = complex F (F.mul (F.cos p) c) (F.mul (F.neg (F.sin p)) c);
        m01 = complex F (F.mul (F.neg (F.cos m)) s) (F.mul (F.neg (F.sin m)) s);
        m10 = complex F (F.mul (F.cos m) s) (F.mul (F.neg (F.sin m)) s);
        m11 = complex F (F.mul (F.cos p) c) (F.mul (F.sin p) c);
      }

  unfoldable pub apply_nc_rot :
      ℕ
      → List ℕ
      → List Bool
      → List ℕ
      → Bool
      → F.Real
      → F.Real
      → F.Real
      → Arr (Complex F)
      → Outcome (Arr (Complex F))
  unfolding apply_nc_single_qubit_op get_rot
  apply_nc_rot num_qubits controlled_wires controlled_values wires inverse phi theta omega arr = do
    abort_if_not (length wires == 1) "Assertion failed: wires.size() == 1"
    apply_nc_single_qubit_op num_qubits controlled_wires controlled_values wires inverse
        (get_rot phi theta omega) arr

  -- Rot and CRot negate and reorder the angles for the inverse.
  abbrev pub rot_matrix : Bool → F.Real → F.Real → F.Real → Matrix2 F
  unfolding get_rot
  rot_matrix inverse phi theta omega =
      if inverse then get_rot (F.neg omega) (F.neg theta) (F.neg phi) else get_rot phi theta omega

  unfoldable pub apply_rot :
      ℕ → List ℕ → Bool → F.Real → F.Real → F.Real → Arr (Complex F) → Outcome (Arr (Complex F))
  unfolding apply_single_qubit_op
  apply_rot num_qubits wires inverse phi theta omega arr = do
    abort_if_not (length wires == 1) "Assertion failed: wires.size() == 1"
    apply_single_qubit_op num_qubits wires false (rot_matrix inverse phi theta omega) arr
