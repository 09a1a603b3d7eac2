-- ===== src/Lm/TwoQubitLaws.antt =====
-- What the single excitations with controls do to a state vector, and that four amplitudes are set as an
-- update says.
use pennylane_lightning.Prelude.{
  ℕ, ◌<◌, ◌≡◌, Bool, true, false, List, [], ◌∷◌, length, arith, if◌then◌else◌, ok,
}
use pennylane_lightning.BitUtil.Sort.{IsDistinct}
use pennylane_lightning.Memory.{Arr, write, set2}
use pennylane_lightning.Complex.{Floats, Complex, plus, minus, times, scaled}
use pennylane_lightning.Gate.{Update2, gate2}
use pennylane_lightning.Lm.Apply.{Core2, dispatch_nc2}
use pennylane_lightning.Lm.Correct2.{IsCore2}
use pennylane_lightning.Lm.Nc2.{dispatch_nc2-gate2}
use pennylane_lightning.Lm.OneQubit.{scale_at}
use pennylane_lightning.Lm.Rotations.{signed_sin}
use pennylane_lightning.Lm.TwoQubit.{
  set4, single_excitation_core, apply_nc_single_excitation, half_phase, phased_excitation_core,
  apply_nc_single_excitation_minus, apply_nc_single_excitation_plus,
}

module _ (F : Floats) where
  pub set4-IsCore2 :
      (u : Update2 (Complex F))
      → IsCore2
          (λ arr q.
            set4 F arr q
              (u false false (arr q.i00) (arr q.i01) (arr q.i10) (arr q.i11))
              (u false true (arr q.i00) (arr q.i01) (arr q.i10) (arr q.i11))
              (u true false (arr q.i00) (arr q.i01) (arr q.i10) (arr q.i11))
              (u true true (arr q.i00) (arr q.i01) (arr q.i10) (arr q.i11)))
          u
  unfolding set4 set2 write
  set4-IsCore2 u arr q j ne =
      ground (arith, ne.ne_00_01, ne.ne_00_10, ne.ne_00_11, ne.ne_01_10, ne.ne_01_11, ne.ne_10_11)

  -- A rotation between 01 and 10; the other two amplitudes are changed by `f`.
  abbrev pub excitation_update : F.Real → F.Real → (Complex F → Complex F) → Update2 (Complex F)
  excitation_update c s f false false x00 x01 x10 x11 = f x00
  excitation_update c s f false true x00 x01 x10 x11 = minus F (scaled F c x01) (scaled F s x10)
  excitation_update c s f true false x00 x01 x10 x11 = plus F (scaled F s x01) (scaled F c x10)
  excitation_update c s f true true x00 x01 x10 x11 = f x11

  single_excitation_core-IsCore2 :
      (c s : F.Real) → IsCore2 (single_excitation_core F c s) (excitation_update c s (λ x. x))
  unfolding single_excitation_core set2 write
  single_excitation_core-IsCore2 c s arr q j ne =
      ground (arith, ne.ne_00_01, ne.ne_00_10, ne.ne_00_11, ne.ne_01_10, ne.ne_01_11, ne.ne_10_11)

  phased_excitation_core-IsCore2 :
      (c s : F.Real) (e : Complex F)
      → IsCore2 (phased_excitation_core F c s e) (excitation_update c s (λ x. times F x e))
  unfolding phased_excitation_core scale_at write
  phased_excitation_core-IsCore2 c s e arr q j ne =
      ground (arith, ne.ne_00_01, ne.ne_00_10, ne.ne_00_11, ne.ne_01_10, ne.ne_01_11, ne.ne_10_11)

  module _ (n w0 w1 : ℕ) (cs : List ℕ) (vs : List Bool) (hn : n < 64)
      (distinct : IsDistinct n (w0 ∷ w1 ∷ cs)) (paired : length vs ≡ length cs) (inverse : Bool)
      (arr : Arr (Complex F)) where
    run :
        (core : Core2 (Complex F)) (update : Update2 (Complex F))
        → IsCore2 core update
        → dispatch_nc2 core n cs vs (w0 ∷ w1 ∷ []) arr ≡ ok (gate2 n cs vs w0 w1 update arr)
    run core update is_core =
        dispatch_nc2-gate2 core update is_core n w0 w1 cs vs arr hn distinct paired

    -- SingleExcitation and its variants, for distinct wires below n < 64 and a value for each control wire,
    -- rotate between 01 and 10 at their wires where the controls match; the variants multiply the
    -- amplitudes of 00 and 11 by a phase.
    pub excitation_gates :
        (angle : F.Real)
        → (apply_nc_single_excitation F n cs vs (w0 ∷ w1 ∷ []) inverse angle arr
            ≡ ok (
                gate2 n cs vs w0 w1
                  (excitation_update (F.cos (F.half angle)) (signed_sin F inverse angle) (λ x. x))
                  arr))
          × (apply_nc_single_excitation_minus F n cs vs (w0 ∷ w1 ∷ []) inverse angle arr
              ≡ ok (
                  gate2 n cs vs w0 w1
                    (excitation_update
                      (F.cos (F.half angle))
                      (signed_sin F inverse angle)
                      (λ x. times F x (half_phase F (if inverse then false else true) angle)))
                    arr))
          × (apply_nc_single_excitation_plus F n cs vs (w0 ∷ w1 ∷ []) inverse angle arr
              ≡ ok (
                  gate2 n cs vs w0 w1
                    (excitation_update
                      (F.cos (F.half angle))
                      (signed_sin F inverse angle)
                      (λ x. times F x (half_phase F inverse angle)))
                    arr))
    unfolding apply_nc_single_excitation apply_nc_single_excitation_minus
        apply_nc_single_excitation_plus
    excitation_gates angle = (
      run (single_excitation_core F (F.cos (F.half angle)) (signed_sin F inverse angle))
          (excitation_update (F.cos (F.half angle)) (signed_sin F inverse angle) (λ x. x))
          (single_excitation_core-IsCore2 (F.cos (F.half angle)) (signed_sin F inverse angle)),
      run
          (phased_excitation_core F (F.cos (F.half angle)) (signed_sin F inverse angle)
            (half_phase F (if inverse then false else true) angle))
          (excitation_update (F.cos (F.half angle)) (signed_sin F inverse angle)
            (λ x. times F x (half_phase F (if inverse then false else true) angle)))
          (phased_excitation_core-IsCore2 (F.cos (F.half angle)) (signed_sin F inverse angle)
            (half_phase F (if inverse then false else true) angle)),
      run
          (phased_excitation_core F (F.cos (F.half angle)) (signed_sin F inverse angle)
            (half_phase F inverse angle))
          (excitation_update (F.cos (F.half angle)) (signed_sin F inverse angle)
            (λ x. times F x (half_phase F inverse angle)))
          (phased_excitation_core-IsCore2 (F.cos (F.half angle)) (signed_sin F inverse angle)
            (half_phase F inverse angle)),
    )
