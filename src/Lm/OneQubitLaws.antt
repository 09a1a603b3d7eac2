-- ===== src/Lm/OneQubitLaws.antt =====
-- What the one-qubit gates do to a state vector.
use pennylane_lightning.Prelude.{
  ℕ, ◌<◌, ◌≡◌, refl, ap, ◌∙◌, Bool, true, false, List, [], ◌∷◌, length, arith, ok,
}
use pennylane_lightning.BitUtil.Sort.{IsDistinct}
use pennylane_lightning.Memory.{Arr, write, set2}
use pennylane_lightning.Complex.{Floats, Complex, complex, plus, minus, times, scaled}
use pennylane_lightning.Gate.{Update1, gate1}
use pennylane_lightning.Lm.Apply.{Core1, dispatch_nc1}
use pennylane_lightning.Lm.Correct1.{IsCore1}
use pennylane_lightning.Lm.Nc1.{dispatch_nc1-gate1}
use pennylane_lightning.Lm.OneQubit.{
  Matrix2, scale_at, minus_once, pauli_y_core, apply_nc_pauli_y, pauli_z_core, apply_nc_pauli_z,
  hadamard_core, apply_nc_hadamard, shift_core, s_shift, apply_nc_s, t_shift, apply_nc_t, phase,
  apply_nc_phase_shift,
}
use pennylane_lightning.Lm.Rotations.{rx_core, ry_core, rz_core, single_qubit_core}
use pennylane_lightning.Lm.Angles.{KeepsSigns, signed, turn, phase-signed}

-- The update that is f at digit 0 and g at digit 1.
abbrev pub both : {A : Type 0} → (A → A → A) → (A → A → A) → Update1 A
both f g true x y = g x y
both f g false x y = f x y

set2-IsCore1 :
    {A : Type 0} (update : Update1 A)
    → IsCore1
        (λ arr i0 i1.
          set2 arr i0 i1 (update false (arr i0) (arr i1)) (update true (arr i0) (arr i1)))
        update
unfolding set2 write
set2-IsCore1 update arr i0 i1 j ne = ground arith

second-IsCore1 :
    {A : Type 0} (g : A → A)
    → IsCore1 (λ arr i0 i1. write arr i1 (g (arr i1))) (both (λ x y. x) (λ x y. g y))
unfolding write
second-IsCore1 g arr i0 i1 j ne = ground arith

module _ (F : Floats) where
  -- The updates of the gates: the new amplitude at digit 0 and that at digit 1.
  abbrev pub pauli_y_update : Update1 (Complex F)
  pauli_y_update = both (λ x y. complex F y.im (F.neg y.re)) (λ x y. complex F (F.neg x.im) x.re)

  abbrev pub pauli_z_update : Update1 (Complex F)
  pauli_z_update =
      both (λ x y. x) (λ x y. complex F (F.mul y.re (F.neg F.one)) (F.mul y.im (F.neg F.one)))

  abbrev pub hadamard_update : Update1 (Complex F)
  hadamard_update =
      both (λ x y. plus F (scaled F F.inv_sqrt2 x) (scaled F F.inv_sqrt2 y))
        (λ x y. minus F (scaled F F.inv_sqrt2 x) (scaled F F.inv_sqrt2 y))

  abbrev pub shift_update : Complex F → Update1 (Complex F)
  shift_update s = both (λ x y. x) (λ x y. times F y s)

  -- i, or -i for the inverse, and the square root of it, (1 + i) / sqrt(2) or (1 - i) / sqrt(2).
  abbrev pub quarter_turn : Bool → Complex F
  quarter_turn true = complex F (F.neg F.zero) (F.neg F.one)
  quarter_turn false = complex F F.zero F.one

  abbrev pub eighth_turn : Bool → Complex F
  eighth_turn true = complex F F.inv_sqrt2 (F.neg F.inv_sqrt2)
  eighth_turn false = complex F F.inv_sqrt2 F.inv_sqrt2

  s_shift_lem : (inverse : Bool) → s_shift F inverse ≡ quarter_turn inverse
  s_shift_lem true = refl
  s_shift_lem false = refl

  t_shift_lem : (inverse : Bool) → t_shift F inverse ≡ eighth_turn inverse
  t_shift_lem true = refl
  t_shift_lem false = refl

  abbrev pub rx_update : F.Real → F.Real → Update1 (Complex F)
  rx_update c js =
      both (λ x y. plus F (scaled F c x) (complex F (F.mul (F.neg y.im) js) (F.mul y.re js)))
        (λ x y. plus F (complex F (F.mul (F.neg x.im) js) (F.mul x.re js)) (scaled F c y))

  abbrev pub ry_update : F.Real → F.Real → Update1 (Complex F)
  ry_update c s =
      both
        (λ x y.
          complex F (F.sub (F.mul c x.re) (F.mul s y.re)) (F.sub (F.mul c x.im) (F.mul s y.im)))
        (λ x y.
          complex F (F.add (F.mul s x.re) (F.mul c y.re)) (F.add (F.mul s x.im) (F.mul c y.im)))

  abbrev pub diagonal_update : Complex F → Complex F → Update1 (Complex F)
  diagonal_update s0 s1 = both (λ x y. times F x s0) (λ x y. times F y s1)

  abbrev pub matrix_update : Matrix2 F → Update1 (Complex F)
  matrix_update m =
      both (λ x y. plus F (times F m.m00 x) (times F m.m01 y))
        (λ x y. plus F (times F m.m10 x) (times F m.m11 y))

  pub pauli_y_core-IsCore1 : IsCore1 (pauli_y_core F) pauli_y_update
  unfolding pauli_y_core
  pauli_y_core-IsCore1 = set2-IsCore1 pauli_y_update

  pub pauli_z_core-IsCore1 : IsCore1 (pauli_z_core F) pauli_z_update
  unfolding pauli_z_core
  pauli_z_core-IsCore1 = second-IsCore1 (minus_once F)

  pub hadamard_core-IsCore1 : IsCore1 (hadamard_core F) hadamard_update
  unfolding hadamard_core
  hadamard_core-IsCore1 = set2-IsCore1 hadamard_update

  pub shift_core-IsCore1 : (s : Complex F) → IsCore1 (shift_core F s) (shift_update s)
  unfolding shift_core scale_at
  shift_core-IsCore1 s = second-IsCore1 (λ v. times F v s)

  pub rx_core-IsCore1 : (c js : F.Real) → IsCore1 (rx_core F c js) (rx_update c js)
  unfolding rx_core
  rx_core-IsCore1 c js = set2-IsCore1 (rx_update c js)

  pub ry_core-IsCore1 : (c s : F.Real) → IsCore1 (ry_core F c s) (ry_update c s)
  unfolding ry_core
  ry_core-IsCore1 c s = set2-IsCore1 (ry_update c s)

  pub rz_core-IsCore1 : (s0 s1 : Complex F) → IsCore1 (rz_core F s0 s1) (diagonal_update s0 s1)
  unfolding rz_core scale_at write
  rz_core-IsCore1 s0 s1 arr i0 i1 j ne = ground arith

  pub single_qubit_core-IsCore1 :
      (m : Matrix2 F) → IsCore1 (single_qubit_core F m) (matrix_update m)
  unfolding single_qubit_core
  single_qubit_core-IsCore1 m = set2-IsCore1 (matrix_update m)

  module _ (n w : ℕ) (cs : List ℕ) (vs : List Bool) (hn : n < 64) (distinct : IsDistinct n (w ∷ cs))
      (paired : length vs ≡ length cs) (inverse : Bool) (arr : Arr (Complex F)) where
    run :
        (core : Core1 (Complex F)) (update : Update1 (Complex F))
        → IsCore1 core update
        → dispatch_nc1 core n cs vs (w ∷ []) arr ≡ ok (gate1 n cs vs w update arr)
    run core update is_core =
        dispatch_nc1-gate1 core update is_core n w cs vs arr hn distinct paired

    -- PauliY, PauliZ and Hadamard with controls, on distinct wires below n < 64 with a value for each
    -- control wire, apply their updates to the basis states whose controls match.
    pub fixed_gates :
        (apply_nc_pauli_y F n cs vs (w ∷ []) inverse arr ≡ ok (gate1 n cs vs w pauli_y_update arr))
        × (apply_nc_pauli_z F n cs vs (w ∷ []) inverse arr
            ≡ ok (gate1 n cs vs w pauli_z_update arr))
        × (apply_nc_hadamard F n cs vs (w ∷ []) inverse arr
            ≡ ok (gate1 n cs vs w hadamard_update arr))
    unfolding apply_nc_pauli_y apply_nc_pauli_z apply_nc_hadamard
    fixed_gates = (
      run (pauli_y_core F) pauli_y_update pauli_y_core-IsCore1,
      run (pauli_z_core F) pauli_z_update pauli_z_core-IsCore1,
      run (hadamard_core F) hadamard_update hadamard_core-IsCore1,
    )

    shift_run :
        (s t : Complex F)
        → s ≡ t
        → dispatch_nc1 (shift_core F s) n cs vs (w ∷ []) arr
          ≡ ok (gate1 n cs vs w (shift_update t) arr)
    shift_run s t e =
        run (shift_core F s) (shift_update s) (shift_core-IsCore1 s)
        ∙ ap (λ r. ok (gate1 n cs vs w (shift_update r) arr)) e

    -- S, T and PhaseShift, over numbers that keep signs, for distinct wires below n < 64 and a value for
    -- each control wire, multiply the amplitudes with a one at the wire whose controls match by i,
    -- (1 + i) / sqrt(2) and exp(i angle), or by -i, (1 - i) / sqrt(2) and exp(-i angle) for the inverse.
    pub phase_gates :
        (laws : KeepsSigns F) (angle : F.Real)
        → (apply_nc_s F n cs vs (w ∷ []) inverse arr
            ≡ ok (gate1 n cs vs w (shift_update (quarter_turn inverse)) arr))
          × (apply_nc_t F n cs vs (w ∷ []) inverse arr
              ≡ ok (gate1 n cs vs w (shift_update (eighth_turn inverse)) arr))
          × (apply_nc_phase_shift F n cs vs (w ∷ []) inverse angle arr
              ≡ ok (gate1 n cs vs w (shift_update (turn F (signed F inverse angle))) arr))
    unfolding apply_nc_s apply_nc_t apply_nc_phase_shift
    phase_gates laws angle = (
      shift_run (s_shift F inverse) (quarter_turn inverse) (s_shift_lem inverse),
      shift_run (t_shift F inverse) (eighth_turn inverse) (t_shift_lem inverse),
      shift_run (phase F inverse angle) (turn F (signed F inverse angle))
          (phase-signed F laws inverse angle),
    )
