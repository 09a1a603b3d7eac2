-- ===== src/Lm/IsingLaws.antt =====
-- What the Ising couplings with controls do to a state vector.
use pennylane_lightning.Prelude.{
  ℕ, ◌<◌, ◌≡◌, ap, ◌∙◌, Bool, true, false, List, [], ◌∷◌, length, arith, ok,
}
use pennylane_lightning.BitUtil.Sort.{IsDistinct}
use pennylane_lightning.Memory.{Arr, write}
use pennylane_lightning.Complex.{Floats, Complex, complex, times}
use pennylane_lightning.Gate.{Update2, gate2}
use pennylane_lightning.Lm.Apply.{Core2, dispatch_nc2}
use pennylane_lightning.Lm.Correct2.{IsCore2}
use pennylane_lightning.Lm.Nc2.{dispatch_nc2-gate2}
use pennylane_lightning.Lm.OneQubit.{scale_at}
use pennylane_lightning.Lm.Rotations.{signed_sin, first_shift, second_shift}
use pennylane_lightning.Lm.TwoQubit.{
  ising_xx_core, apply_nc_ising_xx, ising_xy_core, apply_nc_ising_xy, ising_yy_core,
  apply_nc_ising_yy, ising_zz_core, apply_nc_ising_zz,
}
use pennylane_lightning.Lm.TwoQubitLaws.{set4-IsCore2}
use pennylane_lightning.Lm.Angles.{
  KeepsSigns, signed, turn, half_cos-signed, signed_sin-signed, first_shift-signed,
  second_shift-signed,
}

module _ (F : Floats) where
  -- c x + s i y and c x - s i y, where i y has the real part -im(y) and the imaginary part re(y).
  abbrev plus_i : F.Real → F.Real → Complex F → Complex F → Complex F
  plus_i c s x y =
      complex F (F.sub (F.mul c x.re) (F.mul s y.im)) (F.add (F.mul c x.im) (F.mul s y.re))

  abbrev minus_i : F.Real → F.Real → Complex F → Complex F → Complex F
  minus_i c s x y =
      complex F (F.add (F.mul c x.re) (F.mul s y.im)) (F.sub (F.mul c x.im) (F.mul s y.re))

  -- The updates of the gates, by the digits of the two wires.
  abbrev pub ising_xx_update : F.Real → F.Real → Update2 (Complex F)
  ising_xx_update c s false false x00 x01 x10 x11 = minus_i c s x00 x11
  ising_xx_update c s false true x00 x01 x10 x11 = minus_i c s x01 x10
  ising_xx_update c s true false x00 x01 x10 x11 = minus_i c s x10 x01
  ising_xx_update c s true true x00 x01 x10 x11 = minus_i c s x11 x00

  abbrev pub ising_xy_update : F.Real → F.Real → Update2 (Complex F)
  ising_xy_update c s false false x00 x01 x10 x11 = x00
  ising_xy_update c s false true x00 x01 x10 x11 = plus_i c s x01 x10
  ising_xy_update c s true false x00 x01 x10 x11 = plus_i c s x10 x01
  ising_xy_update c s true true x00 x01 x10 x11 = x11

  abbrev pub ising_yy_update : F.Real → F.Real → Update2 (Complex F)
  ising_yy_update c s false false x00 x01 x10 x11 = plus_i c s x00 x11
  ising_yy_update c s false true x00 x01 x10 x11 = minus_i c s x01 x10
  ising_yy_update c s true false x00 x01 x10 x11 = minus_i c s x10 x01
  ising_yy_update c s true true x00 x01 x10 x11 = plus_i c s x11 x00

  -- The factor depends on whether the two digits agree.
  abbrev pub ising_zz_update : Complex F → Complex F → Update2 (Complex F)
  ising_zz_update s0 s1 false false x00 x01 x10 x11 = times F x00 s0
  ising_zz_update s0 s1 false true x00 x01 x10 x11 = times F x01 s1
  ising_zz_update s0 s1 true false x00 x01 x10 x11 = times F x10 s1
  ising_zz_update s0 s1 true true x00 x01 x10 x11 = times F x11 s0

  -- The coupling with the cosine and the sine of half an angle, and that of ZZ with its two phases.
  abbrev pub by_angle : (F.Real → F.Real → Update2 (Complex F)) → F.Real → Update2 (Complex F)
  by_angle coupling angle = coupling (F.cos (F.half angle)) (F.sin (F.half angle))

  abbrev pub zz_rotation : F.Real → Update2 (Complex F)
  zz_rotation angle = ising_zz_update (turn F (F.neg (F.half angle))) (turn F (F.half angle))

  by_angle-signed :
      (coupling : F.Real → F.Real → Update2 (Complex F)) (laws : KeepsSigns F) (inverse : Bool)
      (angle : F.Real)
      → coupling (F.cos (F.half angle)) (signed_sin F inverse angle)
        ≡ by_angle coupling (signed F inverse angle)
  by_angle-signed coupling laws inverse angle =
      ap (λ c. coupling c (signed_sin F inverse angle)) (half_cos-signed F laws inverse angle)
      ∙ ap (coupling (F.cos (F.half (signed F inverse angle))))
          (signed_sin-signed F laws inverse angle)

  ising_xx_core-IsCore2 : (c s : F.Real) → IsCore2 (ising_xx_core F c s) (ising_xx_update c s)
  unfolding ising_xx_core
  ising_xx_core-IsCore2 c s = set4-IsCore2 F (ising_xx_update c s)

  ising_xy_core-IsCore2 : (c s : F.Real) → IsCore2 (ising_xy_core F c s) (ising_xy_update c s)
  unfolding ising_xy_core
  ising_xy_core-IsCore2 c s = set4-IsCore2 F (ising_xy_update c s)

  ising_yy_core-IsCore2 : (c s : F.Real) → IsCore2 (ising_yy_core F c s) (ising_yy_update c s)
  unfolding ising_yy_core
  ising_yy_core-IsCore2 c s = set4-IsCore2 F (ising_yy_update c s)

  ising_zz_core-IsCore2 :
      (s0 s1 : Complex F) → IsCore2 (ising_zz_core F s0 s1) (ising_zz_update s0 s1)
  unfolding ising_zz_core scale_at write
  ising_zz_core-IsCore2 s0 s1 arr q j ne =
      ground (arith, ne.ne_00_01, ne.ne_00_10, ne.ne_00_11, ne.ne_01_10, ne.ne_01_11, ne.ne_10_11)

  module _ (n w0 w1 : ℕ) (cs : List ℕ) (vs : List Bool) (hn : n < 64)
      (distinct : IsDistinct n (w0 ∷ w1 ∷ cs)) (paired : length vs ≡ length cs) (inverse : Bool)
      (arr : Arr (Complex F)) where
    described :
        (core : Core2 (Complex F)) {update other : Update2 (Complex F)}
        → IsCore2 core update
        → update ≡ other
        → dispatch_nc2 core n cs vs (w0 ∷ w1 ∷ []) arr ≡ ok (gate2 n cs vs w0 w1 other arr)
    described core {update = update} is_core e =
        dispatch_nc2-gate2 core update is_core n w0 w1 cs vs arr hn distinct paired
        ∙ ap (λ u. ok (gate2 n cs vs w0 w1 u arr)) e

    -- IsingXX, IsingXY, IsingYY and IsingZZ, over numbers that keep signs, for distinct wires below n < 64
    -- and a value for each control wire, are where the controls match the couplings by the angle, by the
    -- negated angle for the inverse: with the cosine c and the sine s of its half, IsingXX replaces each
    -- amplitude x by c x - i s y with y that of the opposite digits, IsingYY with + for 00 and 11, IsingXY
    -- those of 01 and 10 by c x + i s y, and IsingZZ multiplies 00 and 11 by c - i s, 01 and 10 by c + i s.
    pub ising_gates :
        (laws : KeepsSigns F) (angle : F.Real)
        → (apply_nc_ising_xx F n cs vs (w0 ∷ w1 ∷ []) inverse angle arr
            ≡ ok (gate2 n cs vs w0 w1 (by_angle ising_xx_update (signed F inverse angle)) arr))
          × (apply_nc_ising_xy F n cs vs (w0 ∷ w1 ∷ []) inverse angle arr
              ≡ ok (gate2 n cs vs w0 w1 (by_angle ising_xy_update (signed F inverse angle)) arr))
          × (apply_nc_ising_yy F n cs vs (w0 ∷ w1 ∷ []) inverse angle arr
              ≡ ok (gate2 n cs vs w0 w1 (by_angle ising_yy_update (signed F inverse angle)) arr))
          × (apply_nc_ising_zz F n cs vs (w0 ∷ w1 ∷ []) inverse angle arr
              ≡ ok (gate2 n cs vs w0 w1 (zz_rotation (signed F inverse angle)) arr))
    unfolding apply_nc_ising_xx apply_nc_ising_xy apply_nc_ising_yy apply_nc_ising_zz
    ising_gates laws angle =
        let c = F.cos (F.half angle) in
        let s = signed_sin F inverse angle in
        (
          described (ising_xx_core F c s) (ising_xx_core-IsCore2 c s)
              (by_angle-signed ising_xx_update laws inverse angle),
          described (ising_xy_core F c s) (ising_xy_core-IsCore2 c s)
              (by_angle-signed ising_xy_update laws inverse angle),
          described (ising_yy_core F c s) (ising_yy_core-IsCore2 c s)
              (by_angle-signed ising_yy_update laws inverse angle),
          described (ising_zz_core F (first_shift F inverse angle) (second_shift F inverse angle))
              (ising_zz_core-IsCore2 (first_shift F inverse angle) (second_shift F inverse angle))
              (ap (λ z. ising_zz_update z (second_shift F inverse angle))
                  (first_shift-signed F laws inverse angle)
                ∙ ap (ising_zz_update (turn F (F.neg (F.half (signed F inverse angle)))))
                    (second_shift-signed F laws inverse angle)),
        )
