-- ===== src/Lm/TwoQubitGeneratorLaws.antt =====
-- What the generators of the two-qubit gates with controls do to a state vector.
use pennylane_lightning.Prelude.{
  ℕ, ◌<◌, ◌≡◌, ap, Bool, true, false, List, [], ◌∷◌, ◌++◌, length, arith, ok,
}
use pennylane_lightning.BitUtil.Sort.{IsDistinct}
use pennylane_lightning.Memory.{Arr, write, swap}
use pennylane_lightning.Complex.{Floats, Complex, complex, negated, times, imag_unit}
use pennylane_lightning.Gate.{Update2, gate2, only_active}
use pennylane_lightning.Lm.Apply.{Core2}
use pennylane_lightning.Lm.Correct2.{IsCore2}
use pennylane_lightning.Lm.OneQubit.{minus_once, scale_at}
use pennylane_lightning.Lm.Generate.{apply_nc_generator2}
use pennylane_lightning.Lm.GeneratorRun2.{apply_nc_generator2-gate2}
use pennylane_lightning.Lm.OneQubitGenerators.{with_factor}
use pennylane_lightning.Lm.TwoQubitGenerators.{
  turn_middle, generator_ising_xx_core, apply_nc_generator_ising_xx, generator_ising_xy_core,
  apply_nc_generator_ising_xy, generator_ising_yy_core, apply_nc_generator_ising_yy,
  generator_ising_zz_core, apply_nc_generator_ising_zz, generator_single_excitation_core,
  apply_nc_generator_single_excitation, generator_single_excitation_minus_core,
  apply_nc_generator_single_excitation_minus, generator_single_excitation_plus_core,
  apply_nc_generator_single_excitation_plus,
}

module _ (F : Floats) where
  abbrev pub generator_ising_xx_update : Update2 (Complex F)
  generator_ising_xx_update false false x00 x01 x10 x11 = x11
  generator_ising_xx_update false true x00 x01 x10 x11 = x10
  generator_ising_xx_update true false x00 x01 x10 x11 = x01
  generator_ising_xx_update true true x00 x01 x10 x11 = x00

  generator_ising_xx_core-IsCore2 : IsCore2 (generator_ising_xx_core F) generator_ising_xx_update
  unfolding generator_ising_xx_core swap write
  generator_ising_xx_core-IsCore2 arr q j ne =
      ground (arith, ne.ne_00_01, ne.ne_00_10, ne.ne_00_11, ne.ne_01_10, ne.ne_01_11, ne.ne_10_11)

  abbrev pub generator_ising_xy_update : Update2 (Complex F)
  generator_ising_xy_update false false x00 x01 x10 x11 = complex F F.zero F.zero
  generator_ising_xy_update false true x00 x01 x10 x11 = x10
  generator_ising_xy_update true false x00 x01 x10 x11 = x01
  generator_ising_xy_update true true x00 x01 x10 x11 = complex F F.zero F.zero

  generator_ising_xy_core-IsCore2 : IsCore2 (generator_ising_xy_core F) generator_ising_xy_update
  unfolding generator_ising_xy_core swap write
  generator_ising_xy_core-IsCore2 arr q j ne =
      ground (arith, ne.ne_00_01, ne.ne_00_10, ne.ne_00_11, ne.ne_01_10, ne.ne_01_11, ne.ne_10_11)

  abbrev pub generator_ising_yy_update : Update2 (Complex F)
  generator_ising_yy_update false false x00 x01 x10 x11 = negated F x11
  generator_ising_yy_update false true x00 x01 x10 x11 = x10
  generator_ising_yy_update true false x00 x01 x10 x11 = x01
  generator_ising_yy_update true true x00 x01 x10 x11 = negated F x00

  generator_ising_yy_core-IsCore2 : IsCore2 (generator_ising_yy_core F) generator_ising_yy_update
  unfolding generator_ising_yy_core swap write
  generator_ising_yy_core-IsCore2 arr q j ne =
      ground (arith, ne.ne_00_01, ne.ne_00_10, ne.ne_00_11, ne.ne_01_10, ne.ne_01_11, ne.ne_10_11)

  abbrev pub generator_ising_zz_update : Update2 (Complex F)
  generator_ising_zz_update false false x00 x01 x10 x11 = x00
  generator_ising_zz_update false true x00 x01 x10 x11 = minus_once F x01
  generator_ising_zz_update true false x00 x01 x10 x11 = minus_once F x10
  generator_ising_zz_update true true x00 x01 x10 x11 = x11

  generator_ising_zz_core-IsCore2 : IsCore2 (generator_ising_zz_core F) generator_ising_zz_update
  unfolding generator_ising_zz_core swap write
  generator_ising_zz_core-IsCore2 arr q j ne =
      ground (arith, ne.ne_00_01, ne.ne_00_10, ne.ne_00_11, ne.ne_01_10, ne.ne_01_11, ne.ne_10_11)

  abbrev pub generator_single_excitation_update : Update2 (Complex F)
  generator_single_excitation_update false false x00 x01 x10 x11 = complex F F.zero F.zero
  generator_single_excitation_update false true x00 x01 x10 x11 =
      times F x10 (negated F (imag_unit F))
  generator_single_excitation_update true false x00 x01 x10 x11 = times F x01 (imag_unit F)
  generator_single_excitation_update true true x00 x01 x10 x11 = complex F F.zero F.zero

  generator_single_excitation_core-IsCore2 :
      IsCore2 (generator_single_excitation_core F) generator_single_excitation_update
  unfolding generator_single_excitation_core turn_middle scale_at swap write
  generator_single_excitation_core-IsCore2 arr q j ne =
      ground (arith, ne.ne_00_01, ne.ne_00_10, ne.ne_00_11, ne.ne_01_10, ne.ne_01_11, ne.ne_10_11)

  abbrev pub generator_single_excitation_minus_update : Update2 (Complex F)
  generator_single_excitation_minus_update false false x00 x01 x10 x11 = x00
  generator_single_excitation_minus_update false true x00 x01 x10 x11 =
      times F x10 (negated F (imag_unit F))
  generator_single_excitation_minus_update true false x00 x01 x10 x11 = times F x01 (imag_unit F)
  generator_single_excitation_minus_update true true x00 x01 x10 x11 = x11

  generator_single_excitation_minus_core-IsCore2 :
      IsCore2 (generator_single_excitation_minus_core F) generator_single_excitation_minus_update
  unfolding generator_single_excitation_minus_core turn_middle scale_at swap write
  generator_single_excitation_minus_core-IsCore2 arr q j ne =
      ground (arith, ne.ne_00_01, ne.ne_00_10, ne.ne_00_11, ne.ne_01_10, ne.ne_01_11, ne.ne_10_11)

  abbrev pub generator_single_excitation_plus_update : Update2 (Complex F)
  generator_single_excitation_plus_update false false x00 x01 x10 x11 = minus_once F x00
  generator_single_excitation_plus_update false true x00 x01 x10 x11 =
      times F x10 (negated F (imag_unit F))
  generator_single_excitation_plus_update true false x00 x01 x10 x11 = times F x01 (imag_unit F)
  generator_single_excitation_plus_update true true x00 x01 x10 x11 = minus_once F x11

  generator_single_excitation_plus_core-IsCore2 :
      IsCore2 (generator_single_excitation_plus_core F) generator_single_excitation_plus_update
  unfolding generator_single_excitation_plus_core turn_middle scale_at swap write
  generator_single_excitation_plus_core-IsCore2 arr q j ne =
      ground (arith, ne.ne_00_01, ne.ne_00_10, ne.ne_00_11, ne.ne_01_10, ne.ne_01_11, ne.ne_10_11)

  module _ (n w0 w1 : ℕ) (cs : List ℕ) (vs : List Bool) (hn : n < 64)
      (distinct : IsDistinct n (cs ++ w0 ∷ w1 ∷ [])) (paired : length vs ≡ length cs) (adj : Bool)
      (arr : Arr (Complex F)) where
    run :
        (factor : F.Real) (core : Core2 (Complex F)) (update : Update2 (Complex F))
        → IsCore2 core update
        → with_factor F factor
            (apply_nc_generator2 (complex F F.zero F.zero) core n cs vs (w0 ∷ w1 ∷ []) arr)
          ≡ ok (
            factor,
            only_active (complex F F.zero F.zero) n cs vs (gate2 n cs vs w0 w1 update arr),
          )
    run factor core update is_core = ap (with_factor F factor) (
        apply_nc_generator2-gate2 core update is_core (complex F F.zero F.zero) n w0 w1 cs vs arr hn
          distinct paired)

    -- The generators of IsingXX, IsingXY, IsingYY and IsingZZ with controls, on distinct wires below n < 64
    -- with a value for each control wire, return their factors and apply their updates where the controls
    -- match; the other amplitudes become zero.
    pub ising_generators :
        (apply_nc_generator_ising_xx F n cs vs (w0 ∷ w1 ∷ []) adj arr
          ≡ ok (
            F.neg (F.half F.one),
            only_active
                (complex F F.zero F.zero)
                n
                cs
                vs
                (gate2 n cs vs w0 w1 generator_ising_xx_update arr),
          ))
        × (apply_nc_generator_ising_xy F n cs vs (w0 ∷ w1 ∷ []) adj arr
            ≡ ok (
              F.half F.one,
              only_active
                  (complex F F.zero F.zero)
                  n
                  cs
                  vs
                  (gate2 n cs vs w0 w1 generator_ising_xy_update arr),
            ))
        × (apply_nc_generator_ising_yy F n cs vs (w0 ∷ w1 ∷ []) adj arr
            ≡ ok (
              F.neg (F.half F.one),
              only_active
                  (complex F F.zero F.zero)
                  n
                  cs
                  vs
                  (gate2 n cs vs w0 w1 generator_ising_yy_update arr),
            ))
        × (apply_nc_generator_ising_zz F n cs vs (w0 ∷ w1 ∷ []) adj arr
            ≡ ok (
              F.neg (F.half F.one),
              only_active
                  (complex F F.zero F.zero)
                  n
                  cs
                  vs
                  (gate2 n cs vs w0 w1 generator_ising_zz_update arr),
            ))
    unfolding apply_nc_generator_ising_xx apply_nc_generator_ising_xy apply_nc_generator_ising_yy
        apply_nc_generator_ising_zz
    ising_generators = (
      run (F.neg (F.half F.one)) (generator_ising_xx_core F) generator_ising_xx_update
          generator_ising_xx_core-IsCore2,
      run (F.half F.one) (generator_ising_xy_core F) generator_ising_xy_update
          generator_ising_xy_core-IsCore2,
      run (F.neg (F.half F.one)) (generator_ising_yy_core F) generator_ising_yy_update
          generator_ising_yy_core-IsCore2,
      run (F.neg (F.half F.one)) (generator_ising_zz_core F) generator_ising_zz_update
          generator_ising_zz_core-IsCore2,
    )

    -- The generators of SingleExcitation and its variants, under the same conditions, exchange the amplitudes
    -- of 01 and 10 with factors -i and i where the controls match, and zero, keep or negate those of 00 and
    -- 11; the other amplitudes become zero.
    pub excitation_generators :
        (apply_nc_generator_single_excitation F n cs vs (w0 ∷ w1 ∷ []) adj arr
          ≡ ok (
            F.neg (F.half F.one),
            only_active
                (complex F F.zero F.zero)
                n
                cs
                vs
                (gate2 n cs vs w0 w1 generator_single_excitation_update arr),
          ))
        × (apply_nc_generator_single_excitation_minus F n cs vs (w0 ∷ w1 ∷ []) adj arr
            ≡ ok (
              F.neg (F.half F.one),
              only_active
                  (complex F F.zero F.zero)
                  n
                  cs
                  vs
                  (gate2 n cs vs w0 w1 generator_single_excitation_minus_update arr),
            ))
        × (apply_nc_generator_single_excitation_plus F n cs vs (w0 ∷ w1 ∷ []) adj arr
            ≡ ok (
              F.neg (F.half F.one),
              only_active
                  (complex F F.zero F.zero)
                  n
                  cs
                  vs
                  (gate2 n cs vs w0 w1 generator_single_excitation_plus_update arr),
            ))
    unfolding apply_nc_generator_single_excitation apply_nc_generator_single_excitation_minus
        apply_nc_generator_single_excitation_plus
    excitation_generators = (
      run (F.neg (F.half F.one)) (generator_single_excitation_core F)
          generator_single_excitation_update generator_single_excitation_core-IsCore2,
      run (F.neg (F.half F.one)) (generator_single_excitation_minus_core F)
          generator_single_excitation_minus_update generator_single_excitation_minus_core-IsCore2,
      run (F.neg (F.half F.one)) (generator_single_excitation_plus_core F)
          generator_single_excitation_plus_update generator_single_excitation_plus_core-IsCore2,
    )
