-- ===== src/Lm/Angles.antt =====
-- The cosines, sines and phase factors that the gates of GateImplementationsLM.hpp compute from their
-- angle, and the matrix of Rot, as functions of the signed angle. The laws of the floating-point numbers
-- that this takes as a hypothesis are on signs, zero and one, where IEEE arithmetic does not round.
use pennylane_lightning.Prelude.{◌≡◌, refl, Bool, true, false, if◌then◌else◌}
use pennylane_lightning.Complex.{Floats, Complex, complex, negated}
use pennylane_lightning.Lm.OneQubit.{Matrix2, phase}
use pennylane_lightning.Lm.Rotations.{rx_js, signed_sin, first_shift, second_shift, get_rot}
use pennylane_lightning.Lm.TwoQubit.{half_phase}
use pennylane_lightning.Lm.FourQubit.{double_phase}
use pennylane_lightning.Lm.GlobalPhase.{global_phase}

-- A sign moves through products, halves, sines and cosines; a factor 1 changes nothing; exp of both zeros
-- is 1.
pub record KeepsSigns (F : Floats) : Type 0 where
  pub neg-neg : (x : F.Real) → F.neg (F.neg x) ≡ x
  pub half-neg : (x : F.Real) → F.half (F.neg x) ≡ F.neg (F.half x)
  pub cos-neg : (x : F.Real) → F.cos (F.neg x) ≡ F.cos x
  pub sin-neg : (x : F.Real) → F.sin (F.neg x) ≡ F.neg (F.sin x)
  pub mul-neg : (x y : F.Real) → F.mul (F.neg x) y ≡ F.neg (F.mul x y)
  pub mul-one : (x : F.Real) → F.mul F.one x ≡ x
  pub exp-zero : F.exp F.zero ≡ F.one
  pub exp-neg_zero : F.exp (F.neg F.zero) ≡ F.one

module _ (F : Floats) where
  -- The angle of the rotation, negated for the inverse.
  abbrev pub signed : Bool → F.Real → F.Real
  signed true angle = F.neg angle
  signed false angle = angle

  -- The complex number r * exp(i angle).
  abbrev pub polar : F.Real → F.Real → Complex F
  polar r angle = complex F (F.mul (F.cos angle) r) (F.mul (F.sin angle) r)

  -- exp(i angle)
  abbrev pub turn : F.Real → Complex F
  turn angle = complex F (F.cos angle) (F.sin angle)

  -- The matrix of a rotation by phi about Z, then theta about Y, then omega about Z.
  abbrev pub euler_matrix : F.Real → F.Real → F.Real → Matrix2 F
  euler_matrix phi theta omega =
      let c = F.cos (F.half theta) in
      let s = F.sin (F.half theta) in
      let p = F.half (F.add phi omega) in
      let m = F.half (F.sub phi omega) in
      record {
        m00 = polar c (F.neg p);
        m01 = negated F (polar s m);
        m10 = polar s (F.neg m);
        m11 = polar c p;
      }

  module _ (laws : KeepsSigns F) where
    pub half_cos-signed :
        (inverse : Bool) (angle : F.Real)
        → F.cos (F.half angle) ≡ F.cos (F.half (signed inverse angle))
    half_cos-signed true angle = rw (laws.half-neg, laws.cos-neg)
    half_cos-signed false angle = refl

    pub signed_sin-signed :
        (inverse : Bool) (angle : F.Real)
        → signed_sin F inverse angle ≡ F.sin (F.half (signed inverse angle))
    signed_sin-signed true angle = rw (laws.half-neg, laws.sin-neg)
    signed_sin-signed false angle = refl

    pub rx_js-signed :
        (inverse : Bool) (angle : F.Real)
        → rx_js F inverse angle ≡ F.neg (F.sin (F.half (signed inverse angle)))
    rx_js-signed true angle = refl
    rx_js-signed false angle = rw (laws.half-neg, laws.sin-neg)

    pub first_shift-signed :
        (inverse : Bool) (angle : F.Real)
        → first_shift F inverse angle ≡ turn (F.neg (F.half (signed inverse angle)))
    first_shift-signed true angle = simp (laws.half-neg, laws.neg-neg)
    first_shift-signed false angle = rw (laws.cos-neg, laws.sin-neg)

    pub second_shift-signed :
        (inverse : Bool) (angle : F.Real)
        → second_shift F inverse angle ≡ turn (F.half (signed inverse angle))
    second_shift-signed true angle = rw (laws.half-neg, laws.cos-neg, laws.sin-neg)
    second_shift-signed false angle = refl

    pub phase-signed :
        (inverse : Bool) (angle : F.Real) → phase F inverse angle ≡ turn (signed inverse angle)
    phase-signed true angle = simp (laws.exp-neg_zero, laws.mul-one)
    phase-signed false angle = simp (laws.exp-zero, laws.mul-one)

    pub global_phase-turn :
        (inverse : Bool) (angle : F.Real)
        → global_phase F inverse angle ≡ turn (if inverse then angle else F.neg angle)
    global_phase-turn inverse angle = simp (laws.exp-zero, laws.mul-one)

    pub get_rot-euler_matrix :
        (phi theta omega : F.Real) → get_rot F phi theta omega ≡ euler_matrix phi theta omega
    unfolding get_rot
    get_rot-euler_matrix phi theta omega = simp (laws.cos-neg, laws.sin-neg, laws.mul-neg)

    -- The phases of the variants of the excitations.
    half_phase-signed :
        (negative : Bool) (angle : F.Real)
        → half_phase F negative angle ≡ turn (F.half (signed negative angle))
    half_phase-signed true angle = simp (laws.exp-neg_zero, laws.mul-one, laws.half-neg)
    half_phase-signed false angle = simp (laws.exp-zero, laws.mul-one)

    double_phase-signed :
        (negative : Bool) (angle : F.Real)
        → double_phase F negative angle ≡ turn (F.half (signed negative angle))
    double_phase-signed true angle = simp (laws.exp-zero, laws.mul-one)
    double_phase-signed false angle = simp (laws.exp-zero, laws.mul-one)
