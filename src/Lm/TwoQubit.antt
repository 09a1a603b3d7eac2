-- ===== src/Lm/TwoQubit.antt =====
-- The two-qubit gates of GateImplementationsLM.hpp that take any controls: the Ising couplings, the
-- single excitations and a gate given by its matrix.
use pennylane_lightning.Prelude.{ℕ, Bool, true, false, List, [], Outcome, if◌then◌else◌}
use pennylane_lightning.Memory.{Arr, write, set2}
use pennylane_lightning.Complex.{
  Floats, Complex, complex, plus, minus, negated, times, conj, scaled, cexp,
}
use pennylane_lightning.Lm.Index.{Quad}
use pennylane_lightning.Lm.Apply.{Core2, dispatch_nc2}
use pennylane_lightning.Lm.OneQubit.{scale_at}
use pennylane_lightning.Lm.Rotations.{signed_sin, first_shift, second_shift}

-- A row of a matrix with four columns.
pub record Row4 (F : Floats) : Type 0 where
  pub c0 : Complex F
  pub c1 : Complex F
  pub c2 : Complex F
  pub c3 : Complex F

-- A matrix of complex numbers with four rows.
pub record Matrix4 (F : Floats) : Type 0 where
  pub row0 : Row4 F
  pub row1 : Row4 F
  pub row2 : Row4 F
  pub row3 : Row4 F

module _ (F : Floats) where
  -- arr[i00] = a; arr[i01] = b; arr[i10] = c; arr[i11] = d
  unfoldable pub set4 :
      Arr (Complex F) → Quad → Complex F → Complex F → Complex F → Complex F → Arr (Complex F)
  unfolding set2
  set4 arr q a b c d = set2 (set2 arr q.i00 q.i01 a b) q.i10 q.i11 c d

  -- v + s * i * w and v - s * i * w with v scaled by c, as the Ising kernels write them
  abbrev pub turned : F.Real → F.Real → Complex F → Complex F → Complex F
  turned c s v w =
      complex F (F.sub (F.mul c v.re) (F.mul s w.im)) (F.add (F.mul c v.im) (F.mul s w.re))

  abbrev pub turned_back : F.Real → F.Real → Complex F → Complex F → Complex F
  turned_back c s v w =
      complex F (F.add (F.mul c v.re) (F.mul s w.im)) (F.sub (F.mul c v.im) (F.mul s w.re))

  unfoldable pub ising_xx_core : F.Real → F.Real → Core2 (Complex F)
  unfolding set4
  ising_xx_core cr sj arr q =
      let v00 = arr q.i00 in
      let v01 = arr q.i01 in
      let v10 = arr q.i10 in
      let v11 = arr q.i11 in
      set4 arr q (turned_back cr sj v00 v11) (turned_back cr sj v01 v10) (turned_back cr sj v10 v01)
        (turned_back cr sj v11 v00)

  unfoldable pub apply_nc_ising_xx :
      ℕ → List ℕ → List Bool → List ℕ → Bool → F.Real → Arr (Complex F) → Outcome (Arr (Complex F))
  unfolding dispatch_nc2
  apply_nc_ising_xx num_qubits controlled_wires controlled_values wires inverse angle arr =
      dispatch_nc2 (ising_xx_core (F.cos (F.half angle)) (signed_sin F inverse angle)) num_qubits
        controlled_wires controlled_values wires arr

  unfoldable pub apply_ising_xx :
      ℕ → List ℕ → Bool → F.Real → Arr (Complex F) → Outcome (Arr (Complex F))
  unfolding apply_nc_ising_xx
  apply_ising_xx num_qubits wires inverse angle arr =
      apply_nc_ising_xx num_qubits [] [] wires inverse angle arr

  unfoldable pub ising_xy_core : F.Real → F.Real → Core2 (Complex F)
  unfolding set4
  ising_xy_core cr sj arr q =
      let v00 = arr q.i00 in
      let v01 = arr q.i01 in
      let v10 = arr q.i10 in
      let v11 = arr q.i11 in
      set4 arr q (complex F v00.re v00.im) (turned cr sj v01 v10) (turned cr sj v10 v01)
        (complex F v11.re v11.im)

  unfoldable pub apply_nc_ising_xy :
      ℕ → List ℕ → List Bool → List ℕ → Bool → F.Real → Arr (Complex F) → Outcome (Arr (Complex F))
  unfolding dispatch_nc2
  apply_nc_ising_xy num_qubits controlled_wires controlled_values wires inverse angle arr =
      dispatch_nc2 (ising_xy_core (F.cos (F.half angle)) (signed_sin F inverse angle)) num_qubits
        controlled_wires controlled_values wires arr

  unfoldable pub apply_ising_xy :
      ℕ → List ℕ → Bool → F.Real → Arr (Complex F) → Outcome (Arr (Complex F))
  unfolding apply_nc_ising_xy
  apply_ising_xy num_qubits wires inverse angle arr =
      apply_nc_ising_xy num_qubits [] [] wires inverse angle arr

  unfoldable pub ising_yy_core : F.Real → F.Real → Core2 (Complex F)
  unfolding set4
  ising_yy_core cr sj arr q =
      let v00 = arr q.i00 in
      let v01 = arr q.i01 in
      let v10 = arr q.i10 in
      let v11 = arr q.i11 in
      set4 arr q (turned cr sj v00 v11) (turned_back cr sj v01 v10) (turned_back cr sj v10 v01)
        (turned cr sj v11 v00)

  unfoldable pub apply_nc_ising_yy :
      ℕ → List ℕ → List Bool → List ℕ → Bool → F.Real → Arr (Complex F) → Outcome (Arr (Complex F))
  unfolding dispatch_nc2
  apply_nc_ising_yy num_qubits controlled_wires controlled_values wires inverse angle arr =
      dispatch_nc2 (ising_yy_core (F.cos (F.half angle)) (signed_sin F inverse angle)) num_qubits
        controlled_wires controlled_values wires arr

  unfoldable pub apply_ising_yy :
      ℕ → List ℕ → Bool → F.Real → Arr (Complex F) → Outcome (Arr (Complex F))
  unfolding apply_nc_ising_yy
  apply_ising_yy num_qubits wires inverse angle arr =
      apply_nc_ising_yy num_qubits [] [] wires inverse angle arr

  unfoldable pub ising_zz_core : Complex F → Complex F → Core2 (Complex F)
  unfolding scale_at
  ising_zz_core shift0 shift1 arr q =
      scale_at F (scale_at F (scale_at F (scale_at F arr q.i00 shift0) q.i01 shift1) q.i10 shift1)
        q.i11 shift0

  unfoldable pub apply_nc_ising_zz :
      ℕ → List ℕ → List Bool → List ℕ → Bool → F.Real → Arr (Complex F) → Outcome (Arr (Complex F))
  unfolding dispatch_nc2
  apply_nc_ising_zz num_qubits controlled_wires controlled_values wires inverse angle arr =
      dispatch_nc2 (ising_zz_core (first_shift F inverse angle) (second_shift F inverse angle))
        num_qubits controlled_wires controlled_values wires arr

  unfoldable pub apply_ising_zz :
      ℕ → List ℕ → Bool → F.Real → Arr (Complex F) → Outcome (Arr (Complex F))
  unfolding apply_nc_ising_zz
  apply_ising_zz num_qubits wires inverse angle arr =
      apply_nc_ising_zz num_qubits [] [] wires inverse angle arr

  unfoldable pub single_excitation_core : F.Real → F.Real → Core2 (Complex F)
  unfolding set2
  single_excitation_core c s arr q =
      let v01 = arr q.i01 in
      let v10 = arr q.i10 in
      set2 arr q.i01 q.i10 (minus F (scaled F c v01) (scaled F s v10))
        (plus F (scaled F s v01) (scaled F c v10))

  unfoldable pub apply_nc_single_excitation :
      ℕ → List ℕ → List Bool → List ℕ → Bool → F.Real → Arr (Complex F) → Outcome (Arr (Complex F))
  unfolding dispatch_nc2
  apply_nc_single_excitation num_qubits controlled_wires controlled_values wires inverse angle arr =
      dispatch_nc2 (single_excitation_core (F.cos (F.half angle)) (signed_sin F inverse angle))
        num_qubits controlled_wires controlled_values wires arr

  unfoldable pub apply_single_excitation :
      ℕ → List ℕ → Bool → F.Real → Arr (Complex F) → Outcome (Arr (Complex F))
  unfolding apply_nc_single_excitation
  apply_single_excitation num_qubits wires inverse angle arr =
      apply_nc_single_excitation num_qubits [] [] wires inverse angle arr

  -- The factor e of the minus and of the plus variant.
  abbrev pub half_phase : Bool → F.Real → Complex F
  half_phase negative angle =
      if negative
      then cexp F (negated F (complex F F.zero (F.half angle)))
      else cexp F (complex F F.zero (F.half angle))

  unfoldable pub phased_excitation_core : F.Real → F.Real → Complex F → Core2 (Complex F)
  unfolding write scale_at
  phased_excitation_core c s e arr q =
      let v01 = arr q.i01 in
      let v10 = arr q.i10 in
      let arr0 = scale_at F arr q.i00 e in
      let arr1 = write arr0 q.i01 (minus F (scaled F c v01) (scaled F s v10)) in
      let arr2 = write arr1 q.i10 (plus F (scaled F s v01) (scaled F c v10)) in
      scale_at F arr2 q.i11 e

  unfoldable pub apply_nc_single_excitation_minus :
      ℕ → List ℕ → List Bool → List ℕ → Bool → F.Real → Arr (Complex F) → Outcome (Arr (Complex F))
  unfolding dispatch_nc2
  apply_nc_single_excitation_minus num_qubits controlled_wires controlled_values wires inverse angle
        arr =
      dispatch_nc2
        (phased_excitation_core (F.cos (F.half angle)) (signed_sin F inverse angle)
          (half_phase (if inverse then false else true) angle))
        num_qubits controlled_wires controlled_values wires arr

  unfoldable pub apply_single_excitation_minus :
      ℕ → List ℕ → Bool → F.Real → Arr (Complex F) → Outcome (Arr (Complex F))
  unfolding apply_nc_single_excitation_minus
  apply_single_excitation_minus num_qubits wires inverse angle arr =
      apply_nc_single_excitation_minus num_qubits [] [] wires inverse angle arr

  unfoldable pub apply_nc_single_excitation_plus :
      ℕ → List ℕ → List Bool → List ℕ → Bool → F.Real → Arr (Complex F) → Outcome (Arr (Complex F))
  unfolding dispatch_nc2
  apply_nc_single_excitation_plus num_qubits controlled_wires controlled_values wires inverse angle
        arr =
      dispatch_nc2
        (phased_excitation_core (F.cos (F.half angle)) (signed_sin F inverse angle)
          (half_phase inverse angle))
        num_qubits controlled_wires controlled_values wires arr

  unfoldable pub apply_single_excitation_plus :
      ℕ → List ℕ → Bool → F.Real → Arr (Complex F) → Outcome (Arr (Complex F))
  unfolding apply_nc_single_excitation_plus
  apply_single_excitation_plus num_qubits wires inverse angle arr =
      apply_nc_single_excitation_plus num_qubits [] [] wires inverse angle arr

  -- mat after the loop that conjugates and transposes it for the inverse
  abbrev pub column : (Row4 F → Complex F) → Matrix4 F → Row4 F
  column at m = record {
    c0 = conj F (at m.row0);
    c1 = conj F (at m.row1);
    c2 = conj F (at m.row2);
    c3 = conj F (at m.row3);
  }

  abbrev pub dagger4_if : Bool → Matrix4 F → Matrix4 F
  dagger4_if true m = record {
    row0 = column (λ r. r.c0) m;
    row1 = column (λ r. r.c1) m;
    row2 = column (λ r. r.c2) m;
    row3 = column (λ r. r.c3) m;
  }
  dagger4_if false m = m

  abbrev pub row_sum : Row4 F → Complex F → Complex F → Complex F → Complex F → Complex F
  row_sum r v00 v01 v10 v11 =
      plus F (plus F (plus F (times F r.c0 v00) (times F r.c1 v01)) (times F r.c2 v10))
        (times F r.c3 v11)

  unfoldable pub two_qubit_core : Matrix4 F → Core2 (Complex F)
  unfolding set4
  two_qubit_core mat arr q =
      let v00 = arr q.i00 in
      let v01 = arr q.i01 in
      let v10 = arr q.i10 in
      let v11 = arr q.i11 in
      set4 arr q (row_sum mat.row0 v00 v01 v10 v11) (row_sum mat.row1 v00 v01 v10 v11)
        (row_sum mat.row2 v00 v01 v10 v11) (row_sum mat.row3 v00 v01 v10 v11)

  unfoldable pub apply_nc_two_qubit_op :
      ℕ
      → List ℕ
      → List Bool
      → List ℕ
      → Bool
      → Matrix4 F
      → Arr (Complex F)
      → Outcome (Arr (Complex F))
  unfolding dispatch_nc2
  apply_nc_two_qubit_op num_qubits controlled_wires controlled_values wires inverse matrix arr =
      dispatch_nc2 (two_qubit_core (dagger4_if inverse matrix)) num_qubits controlled_wires
        controlled_values wires arr

  unfoldable pub apply_two_qubit_op :
      ℕ → List ℕ → Bool → Matrix4 F → Arr (Complex F) → Outcome (Arr (Complex F))
  unfolding apply_nc_two_qubit_op
  apply_two_qubit_op num_qubits wires inverse matrix arr =
      apply_nc_two_qubit_op num_qubits [] [] wires inverse matrix arr
