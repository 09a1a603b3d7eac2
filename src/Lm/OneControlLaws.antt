-- ===== src/Lm/OneControlLaws.antt =====
-- The kernels with one control do what the kernels with a list of controls do with that control.
use pennylane_lightning.Prelude.{
  ℕ, ◌<◌, ◌≡◌, refl, ap, sym, ◌∙◌, Bool, true, false, [], ◌∷◌, arith, ok,
}
use pennylane_lightning.BitUtil.Sort.{IsDistinct}
use pennylane_lightning.Memory.{Arr}
use pennylane_lightning.Complex.{Floats, Complex}
use pennylane_lightning.Gate.{Update1}
use pennylane_lightning.Gate.Laws.{if_first, gate2-if_first}
use pennylane_lightning.Lm.Apply.{Core1, apply_nc2, dispatch_nc1, dispatch_nc2}
use pennylane_lightning.Lm.Correct1.{IsCore1}
use pennylane_lightning.Lm.Correct2.{IsCore2}
use pennylane_lightning.Lm.Nc1.{dispatch_nc1-gate1}
use pennylane_lightning.Lm.Nc2.{dispatch_nc2-gate2}
use pennylane_lightning.Lm.OneQubit.{
  pauli_y_core, apply_nc_pauli_y, pauli_z_core, apply_nc_pauli_z, shift_core, phase,
  apply_nc_phase_shift,
}
use pennylane_lightning.Lm.Rotations.{
  rx_js, rx_core, apply_nc_rx, signed_sin, ry_core, apply_nc_ry, first_shift, second_shift, rz_core,
  apply_nc_rz, single_qubit_core, apply_nc_single_qubit_op, rot_matrix,
}
use pennylane_lightning.Lm.OneControl.{
  cy_core, apply_cy, cz_core, apply_cz, controlled_phase_shift_core, apply_controlled_phase_shift,
  crx_core, apply_crx, cry_core, apply_cry, crz_core, apply_crz, crot_core, apply_crot,
}
use pennylane_lightning.Lm.OneQubitLaws.{
  pauli_y_core-IsCore1, pauli_z_core-IsCore1, shift_core-IsCore1, rx_core-IsCore1, ry_core-IsCore1,
  rz_core-IsCore1, single_qubit_core-IsCore1, pauli_y_update, pauli_z_update, shift_update,
  rx_update, ry_update, diagonal_update, matrix_update,
}

-- A core function on the pair i10, i11 acts when the first digit is one.
on_high-IsCore2 :
    {A : Type 0} (core : Core1 A) (f : Update1 A)
    → IsCore1 core f
    → IsCore2 (λ arr q. core arr q.i10 q.i11) (if_first f)
on_high-IsCore2 core f is_core arr q j ne =
    is_core arr q.i10 q.i11 j ne.ne_10_11
    ∙ ground (arith, ne.ne_00_01, ne.ne_00_10, ne.ne_00_11, ne.ne_01_10, ne.ne_01_11, ne.ne_10_11)

module _ (F : Floats) (n c w : ℕ) (hn : n < 64) (distinct : IsDistinct n (c ∷ w ∷ []))
    (inverse : Bool) (arr : Arr (Complex F)) where
  as_control :
      (core : Core1 (Complex F)) (f : Update1 (Complex F))
      → IsCore1 core f
      → apply_nc2 false (λ arr' q. core arr' q.i10 q.i11) n [] [] (c ∷ w ∷ []) arr
        ≡ dispatch_nc1 core n (c ∷ []) (true ∷ []) (w ∷ []) arr
  unfolding dispatch_nc2
  as_control core f is_core =
      dispatch_nc2-gate2 (λ arr' q. core arr' q.i10 q.i11) (if_first f)
        (on_high-IsCore2 core f is_core) n c w [] [] arr hn distinct refl
      ∙ ap ok (gate2-if_first n c w f arr (ground (arith, distinct)))
      ∙ sym (
          dispatch_nc1-gate1 core f is_core n w (c ∷ []) (true ∷ []) arr hn
            (distinct.2.0, ground (arith, distinct.1), (distinct.0, refl, tt)) refl)

  -- CY and CZ on two distinct wires below n < 64 are PauliY and PauliZ with a control on the first.
  pub controlled_paulis :
      (apply_cy F n (c ∷ w ∷ []) inverse arr
        ≡ apply_nc_pauli_y F n (c ∷ []) (true ∷ []) (w ∷ []) inverse arr)
      × (apply_cz F n (c ∷ w ∷ []) inverse arr
          ≡ apply_nc_pauli_z F n (c ∷ []) (true ∷ []) (w ∷ []) inverse arr)
  unfolding apply_cy cy_core apply_nc_pauli_y pauli_y_core apply_cz cz_core apply_nc_pauli_z
      pauli_z_core
  controlled_paulis = (
    as_control (pauli_y_core F) (pauli_y_update F) (pauli_y_core-IsCore1 F),
    as_control (pauli_z_core F) (pauli_z_update F) (pauli_z_core-IsCore1 F),
  )

  -- ControlledPhaseShift, CRX, CRY and CRZ on two distinct wires below n < 64 are PhaseShift, RX, RY
  -- and RZ with a control on the first.
  pub controlled_rotations :
      (angle : F.Real)
      → (apply_controlled_phase_shift F n (c ∷ w ∷ []) inverse angle arr
          ≡ apply_nc_phase_shift F n (c ∷ []) (true ∷ []) (w ∷ []) inverse angle arr)
        × (apply_crx F n (c ∷ w ∷ []) inverse angle arr
            ≡ apply_nc_rx F n (c ∷ []) (true ∷ []) (w ∷ []) inverse angle arr)
        × (apply_cry F n (c ∷ w ∷ []) inverse angle arr
            ≡ apply_nc_ry F n (c ∷ []) (true ∷ []) (w ∷ []) inverse angle arr)
        × (apply_crz F n (c ∷ w ∷ []) inverse angle arr
            ≡ apply_nc_rz F n (c ∷ []) (true ∷ []) (w ∷ []) inverse angle arr)
  unfolding apply_controlled_phase_shift controlled_phase_shift_core apply_nc_phase_shift shift_core
      apply_crx crx_core apply_nc_rx rx_core apply_cry cry_core apply_nc_ry ry_core apply_crz
      crz_core apply_nc_rz rz_core
  controlled_rotations angle =
      let cos = F.cos (F.half angle) in
      (
        as_control (shift_core F (phase F inverse angle)) (shift_update F (phase F inverse angle))
            (shift_core-IsCore1 F (phase F inverse angle)),
        as_control (rx_core F cos (rx_js F inverse angle)) (rx_update F cos (rx_js F inverse angle))
            (rx_core-IsCore1 F cos (rx_js F inverse angle)),
        as_control (ry_core F cos (signed_sin F inverse angle))
            (ry_update F cos (signed_sin F inverse angle))
            (ry_core-IsCore1 F cos (signed_sin F inverse angle)),
        as_control (rz_core F (first_shift F inverse angle) (second_shift F inverse angle))
            (diagonal_update F (first_shift F inverse angle) (second_shift F inverse angle))
            (rz_core-IsCore1 F (first_shift F inverse angle) (second_shift F inverse angle)),
      )

  -- CRot on two distinct wires below n < 64 is the one-qubit gate with the matrix of its angles, those
  -- of the inverse if asked for, and a control on the first.
  pub apply_crot-apply_nc_single_qubit_op :
      (phi theta omega : F.Real)
      → apply_crot F n (c ∷ w ∷ []) inverse phi theta omega arr
        ≡ apply_nc_single_qubit_op F n
            (c ∷ [])
            (true ∷ [])
            (w ∷ [])
            false
            (rot_matrix F inverse phi theta omega)
            arr
  unfolding apply_crot crot_core apply_nc_single_qubit_op single_qubit_core
  apply_crot-apply_nc_single_qubit_op phi theta omega =
      as_control (single_qubit_core F (rot_matrix F inverse phi theta omega))
        (matrix_update F (rot_matrix F inverse phi theta omega))
        (single_qubit_core-IsCore1 F (rot_matrix F inverse phi theta omega))
