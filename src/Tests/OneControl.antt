-- ===== src/Tests/OneControl.antt =====
-- The kernels and the pool at concrete inputs: the gates with one control.
use pennylane_lightning.Prelude.{◌≡◌, refl, true, [], ◌∷◌, arith}
use pennylane_lightning.Tests.Words.{words, state}
use pennylane_lightning.Lm.OneQubit.{apply_nc_phase_shift}
use pennylane_lightning.Lm.Rotations.{apply_nc_rx, apply_nc_ry, apply_nc_rz}
use pennylane_lightning.Lm.OneControl.{
  apply_controlled_phase_shift, apply_crx, apply_cry, apply_crz,
}
use pennylane_lightning.Lm.OneControlLaws.{controlled_rotations}

controlled_rotations_example :
    (apply_controlled_phase_shift words 3 (0 ∷ 2 ∷ []) true 5 state
      ≡ apply_nc_phase_shift words 3 (0 ∷ []) (true ∷ []) (2 ∷ []) true 5 state)
    × (apply_crx words 3 (0 ∷ 2 ∷ []) true 5 state
        ≡ apply_nc_rx words 3 (0 ∷ []) (true ∷ []) (2 ∷ []) true 5 state)
    × (apply_cry words 3 (0 ∷ 2 ∷ []) true 5 state
        ≡ apply_nc_ry words 3 (0 ∷ []) (true ∷ []) (2 ∷ []) true 5 state)
    × (apply_crz words 3 (0 ∷ 2 ∷ []) true 5 state
        ≡ apply_nc_rz words 3 (0 ∷ []) (true ∷ []) (2 ∷ []) true 5 state)
controlled_rotations_example =
    controlled_rotations words 3 0 2 (omega arith) (omega arith, refl, (omega arith, refl, tt)) true
      state 5
