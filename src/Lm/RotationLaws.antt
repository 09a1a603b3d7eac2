-- ===== src/Lm/RotationLaws.antt =====
-- What RX, RY, RZ, Rot and a one-qubit gate given by its matrix do to a state vector.
use pennylane_lightning.Prelude.{
  ℕ, ◌<◌, ◌≡◌, refl, ap, ◌∙◌, Bool, true, false, List, [], ◌∷◌, length, ok,
}
use pennylane_lightning.BitUtil.Sort.{IsDistinct}
use pennylane_lightning.Memory.{Arr}
use pennylane_lightning.Complex.{Floats, Complex, plus, times, conj}
use pennylane_lightning.Gate.{Update1, gate1}
use pennylane_lightning.Lm.Apply.{Core1, dispatch_nc1}
use pennylane_lightning.Lm.Correct1.{IsCore1}
use pennylane_lightning.Lm.Nc1.{dispatch_nc1-gate1}
use pennylane_lightning.Lm.OneQubit.{Matrix2}
use pennylane_lightning.Lm.Rotations.{
  rx_js, rx_core, apply_nc_rx, signed_sin, ry_core, apply_nc_ry, first_shift, second_shift, rz_core,
  apply_nc_rz, dagger_if, single_qubit_core, apply_nc_single_qubit_op, get_rot, apply_nc_rot,
}
use pennylane_lightning.Lm.Angles.{
  KeepsSigns, signed, turn, euler_matrix, half_cos-signed, signed_sin-signed, rx_js-signed,
  first_shift-signed, second_shift-signed, get_rot-euler_matrix,
}
use pennylane_lightning.Lm.OneQubitLaws.{
  both, rx_update, ry_update, diagonal_update, matrix_update, rx_core-IsCore1, ry_core-IsCore1,
  rz_core-IsCore1, single_qubit_core-IsCore1,
}

module _ (F : Floats) where
  -- The rotations about the three axes by an angle: RX has cos(angle / 2) on its diagonal and
  -- -i sin(angle / 2) off it, RY the sine with opposite signs, and RZ the phases exp(-i angle / 2) and
  -- exp(i angle / 2).
  abbrev pub x_rotation : F.Real → Update1 (Complex F)
  x_rotation angle = rx_update F (F.cos (F.half angle)) (F.neg (F.sin (F.half angle)))

  abbrev pub y_rotation : F.Real → Update1 (Complex F)
  y_rotation angle = ry_update F (F.cos (F.half angle)) (F.sin (F.half angle))

  abbrev pub z_rotation : F.Real → Update1 (Complex F)
  z_rotation angle = diagonal_update F (turn F (F.neg (F.half angle))) (turn F (F.half angle))

  -- The product with a matrix, or with its conjugate transpose for the inverse.
  abbrev pub op_update : Bool → Matrix2 F → Update1 (Complex F)
  op_update true m =
      both (λ x y. plus F (times F (conj F m.m00) x) (times F (conj F m.m10) y))
        (λ x y. plus F (times F (conj F m.m01) x) (times F (conj F m.m11) y))
  op_update false m =
      both (λ x y. plus F (times F m.m00 x) (times F m.m01 y))
        (λ x y. plus F (times F m.m10 x) (times F m.m11 y))

  matrix_update-dagger_if :
      (inverse : Bool) (m : Matrix2 F)
      → matrix_update F (dagger_if F inverse m) ≡ op_update inverse m
  matrix_update-dagger_if true m = refl
  matrix_update-dagger_if false m = refl

  module _ (n w : ℕ) (cs : List ℕ) (vs : List Bool) (hn : n < 64) (distinct : IsDistinct n (w ∷ cs))
      (paired : length vs ≡ length cs) (inverse : Bool) (arr : Arr (Complex F)) where
    -- A gate by applyNC1 whose update is described in another way.
    run :
        (core : Core1 (Complex F)) {update described : Update1 (Complex F)}
        → IsCore1 core update
        → update ≡ described
        → dispatch_nc1 core n cs vs (w ∷ []) arr ≡ ok (gate1 n cs vs w described arr)
    run core {update = update} is_core e =
        dispatch_nc1-gate1 core update is_core n w cs vs arr hn distinct paired
        ∙ ap (λ u. ok (gate1 n cs vs w u arr)) e

    -- A gate given by its matrix, for distinct wires below n < 64 and a value for each control wire,
    -- multiplies the pairs of amplitudes whose controls match by the matrix, or by its conjugate
    -- transpose for the inverse.
    pub apply_nc_single_qubit_op_lem :
        (m : Matrix2 F)
        → apply_nc_single_qubit_op F n cs vs (w ∷ []) inverse m arr
          ≡ ok (gate1 n cs vs w (op_update inverse m) arr)
    unfolding apply_nc_single_qubit_op
    apply_nc_single_qubit_op_lem m =
        run (single_qubit_core F (dagger_if F inverse m))
          (single_qubit_core-IsCore1 F (dagger_if F inverse m)) (matrix_update-dagger_if inverse m)

    -- RX, RY and RZ, over numbers that keep signs, for distinct wires below n < 64 and a value for each
    -- control wire, are the rotations about their axes by the angle, by the negated angle for the
    -- inverse, where the controls match. Rot multiplies by the matrix of its three angles, or by its
    -- conjugate transpose for the inverse.
    pub rotation_gates :
        (laws : KeepsSigns F) (angle phi theta omega : F.Real)
        → (apply_nc_rx F n cs vs (w ∷ []) inverse angle arr
            ≡ ok (gate1 n cs vs w (x_rotation (signed F inverse angle)) arr))
          × (apply_nc_ry F n cs vs (w ∷ []) inverse angle arr
              ≡ ok (gate1 n cs vs w (y_rotation (signed F inverse angle)) arr))
          × (apply_nc_rz F n cs vs (w ∷ []) inverse angle arr
              ≡ ok (gate1 n cs vs w (z_rotation (signed F inverse angle)) arr))
          × (apply_nc_rot F n cs vs (w ∷ []) inverse phi theta omega arr
              ≡ ok (gate1 n cs vs w (op_update inverse (euler_matrix F phi theta omega)) arr))
    unfolding apply_nc_rx apply_nc_ry apply_nc_rz apply_nc_rot
    rotation_gates laws angle phi theta omega =
        let cos = F.cos (F.half angle) in
        (
          run (rx_core F cos (rx_js F inverse angle))
              (rx_core-IsCore1 F cos (rx_js F inverse angle))
              (ap (λ c. rx_update F c (rx_js F inverse angle))
                  (half_cos-signed F laws inverse angle)
                ∙ ap (rx_update F (F.cos (F.half (signed F inverse angle))))
                    (rx_js-signed F laws inverse angle)),
          run (ry_core F cos (signed_sin F inverse angle))
              (ry_core-IsCore1 F cos (signed_sin F inverse angle))
              (ap (λ c. ry_update F c (signed_sin F inverse angle))
                  (half_cos-signed F laws inverse angle)
                ∙ ap (ry_update F (F.cos (F.half (signed F inverse angle))))
                    (signed_sin-signed F laws inverse angle)),
          run (rz_core F (first_shift F inverse angle) (second_shift F inverse angle))
              (rz_core-IsCore1 F (first_shift F inverse angle) (second_shift F inverse angle))
              (ap (λ s. diagonal_update F s (second_shift F inverse angle))
                  (first_shift-signed F laws inverse angle)
                ∙ ap (diagonal_update F (turn F (F.neg (F.half (signed F inverse angle)))))
                    (second_shift-signed F laws inverse angle)),
          apply_nc_single_qubit_op_lem (get_rot F phi theta omega)
              ∙ ap (λ m. ok (gate1 n cs vs w (op_update inverse m) arr))
                  (get_rot-euler_matrix F laws phi theta omega),
        )
