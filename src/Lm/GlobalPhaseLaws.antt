-- ===== src/Lm/GlobalPhaseLaws.antt =====
-- What GlobalPhase and its generator do to a state vector.
use pennylane_lightning.Prelude.{
  ℕ, zero, suc, ◌+◌, ◌^◌, ◌<◌, ◌≤◌, ◌≡◌, refl, ap, ◌∙◌, fun_ext, Bool, true, false, List, [], ◌∷◌,
  ◌++◌, length, elem, range_from, arith, ltb, if◌then◌else◌, ok, ltb→lt, Bool-cases, inl, inr,
  elem-append,
}
use pennylane_lightning.Word.Bit.{bit}
use pennylane_lightning.BitUtil.Sort.{IsDistinct}
use pennylane_lightning.Memory.{Arr, write}
use pennylane_lightning.Complex.{Floats, Complex, complex, times}
use pennylane_lightning.Blocks.{elem-range, with_bits_self}
use pennylane_lightning.Gate.{Update1, gate1, active, flip1, position, only_active}
use pennylane_lightning.Lm.Correct1.{IsCore1}
use pennylane_lightning.Lm.Nc1.{dispatch_nc1-gate1}
use pennylane_lightning.Lm.OneQubit.{scale_at}
use pennylane_lightning.Lm.OneQubitGenerators.{with_factor}
use pennylane_lightning.Lm.GeneratorRun1.{apply_nc_generator1-gate1}
use pennylane_lightning.Lm.Angles.{KeepsSigns, turn, global_phase-turn}
use pennylane_lightning.Lm.GlobalPhase.{
  first_free, phase_target, global_phase, global_phase_core, apply_nc_global_phase,
  generator_global_phase_core, apply_nc_generator_global_phase,
}

first_free_lem :
    (cs : List ℕ) (n i m w : ℕ)
    → i + m ≤ n
    → elem w (range_from i m) ≡ true
    → elem w cs ≡ false
    → (first_free cs (range_from i m) < n) × (elem (first_free cs (range_from i m)) cs ≡ false)
first_free_lem cs n i zero w h on free = absurd (ground arith)
first_free_lem cs n i (suc m) w h on free = elim (Bool-cases (elem i cs)) [
  | inl taken ↦
      let rest =
        first_free_lem cs n (suc i) m w (omega arith)
          (ground (arith, on, free, taken, ap (λ t. elem t cs) {x = w} {y = i})) free in
      ground (arith, rest.0, rest.1, taken)
  | inr here ↦ ground arith
]

-- The target is no control if there is a wire that is none.
phase_target-free :
    (n : ℕ) (cs : List ℕ) (w : ℕ)
    → w < n
    → elem w cs ≡ false
    → (phase_target n cs < n) × (elem (phase_target n cs) cs ≡ false)
unfolding phase_target
phase_target-free n [] w h free = (omega arith, refl)
phase_target-free n (c ∷ cs) w h free =
    first_free_lem (c ∷ cs) n 0 n w (omega arith) (ground (arith, elem-range w n)) free

snoc-IsDistinct :
    (n : ℕ) (cs : List ℕ) (w : ℕ)
    → IsDistinct n cs
    → w < n
    → elem w cs ≡ false
    → IsDistinct n (cs ++ w ∷ [])
snoc-IsDistinct n [] w d h free = (h, refl, tt)
snoc-IsDistinct n (c ∷ cs) w d h free = (
  d.0,
  elem-append c cs (w ∷ []) ∙ ground (arith, d.1, free),
  snoc-IsDistinct n cs w d.2 h (ground arith),
)

-- The basis states whose controls match, multiplied by a number.
abbrev pub scaled_active :
    (F : Floats) → ℕ → List ℕ → List Bool → Complex F → Arr (Complex F) → Arr (Complex F)
scaled_active F n cs vs phase arr j = if active n cs vs j then times F (arr j) phase else arr j

module _ (F : Floats) where
  -- An update that treats the two amplitudes alike.
  abbrev each : (Complex F → Complex F) → Update1 (Complex F)
  each f b x y = f (if b then y else x)

  gate1-each :
      (f : Complex F → Complex F) (n w : ℕ) (cs : List ℕ) (vs : List Bool) (arr : Arr (Complex F))
      (j : ℕ)
      → gate1 n cs vs w (each f) arr j ≡ (if active n cs vs j then f (arr j) else arr j)
  unfolding gate1
  gate1-each f n w cs vs arr j = elim (Bool-cases (ltb j (2 ^ n))) [
    | inl below ↦
        ap (λ x. if active n cs vs j then f x else arr j)
          (chosen (bit j (position n w))
            ∙ ap arr (with_bits_self n (position n w ∷ []) j (ltb→lt _ _ below)))
    | inr above ↦ ground arith
  ]
    where
      chosen :
          (b : Bool)
          → (if b then arr (flip1 n w true j) else arr (flip1 n w false j)) ≡ arr (flip1 n w b j)
      chosen true = refl
      chosen false = refl

  global_phase_core-IsCore1 :
      (phase : Complex F) → IsCore1 (global_phase_core F phase) (each (λ x. times F x phase))
  unfolding global_phase_core scale_at write
  global_phase_core-IsCore1 phase arr i0 i1 j ne = ground arith

  generator_global_phase_core-IsCore1 : IsCore1 (generator_global_phase_core F) (each (λ x. x))
  unfolding generator_global_phase_core
  generator_global_phase_core-IsCore1 arr i0 i1 j ne =
      ground (arith, ap arr {x = j} {y = i0}, ap arr {x = j} {y = i1})

  module _ (n w : ℕ) (cs : List ℕ) (vs : List Bool) (hn : n < 64) (distinct : IsDistinct n cs)
      (hw : w < n) (free : elem w cs ≡ false) (paired : length vs ≡ length cs) (wires : List ℕ)
      (arr : Arr (Complex F)) where
    apply_nc_global_phase_lem :
        (inverse : Bool) (angle : F.Real)
        → apply_nc_global_phase F n cs vs wires inverse angle arr
          ≡ ok (scaled_active F n cs vs (global_phase F inverse angle) arr)
    unfolding apply_nc_global_phase
    apply_nc_global_phase_lem inverse angle =
        let t = phase_target n cs in
        let good = phase_target-free n cs w hw free in
        dispatch_nc1-gate1 (global_phase_core F (global_phase F inverse angle)) _
          (global_phase_core-IsCore1 (global_phase F inverse angle)) n t cs vs arr hn
          (good.0, good.1, distinct) paired
        ∙ ap ok (
            fun_ext λ j. gate1-each (λ x. times F x (global_phase F inverse angle)) n t cs vs arr j)

    apply_nc_generator_global_phase_lem :
        (adj : Bool)
        → apply_nc_generator_global_phase F n cs vs wires adj arr
          ≡ ok (F.neg F.one, only_active (complex F F.zero F.zero) n cs vs arr)
    unfolding apply_nc_generator_global_phase
    apply_nc_generator_global_phase_lem adj =
        let t = phase_target n cs in
        let good = phase_target-free n cs w hw free in
        ap (with_factor F (F.neg F.one)) (
          apply_nc_generator1-gate1 (generator_global_phase_core F) (each (λ x. x))
            generator_global_phase_core-IsCore1 (complex F F.zero F.zero) n t cs vs arr hn
            (snoc-IsDistinct n cs t distinct good.0 good.1) paired
          ∙ ap (λ a. ok (only_active (complex F F.zero F.zero) n cs vs a))
              (fun_ext λ j. gate1-each (λ x. x) n t cs vs arr j ∙ same (active n cs vs j) (arr j)))
      where
        same : (b : Bool) (x : Complex F) → (if b then x else x) ≡ x
        same true x = refl
        same false x = refl

    -- GlobalPhase over numbers that keep signs, with controls, distinct and below n < 64, a value for each
    -- and some wire w that is no control, multiplies the amplitudes whose controls match by exp(-i angle),
    -- or by exp(i angle) for the inverse, and no other, whatever its wires. Its generator returns the
    -- factor -1 and zeroes the amplitudes whose controls do not match; it changes no other.
    pub global_phase_gates :
        (laws : KeepsSigns F) (inverse adj : Bool) (angle : F.Real)
        → (apply_nc_global_phase F n cs vs wires inverse angle arr
            ≡ ok (scaled_active F n cs vs (turn F (if inverse then angle else F.neg angle)) arr))
          × (apply_nc_generator_global_phase F n cs vs wires adj arr
              ≡ ok (F.neg F.one, only_active (complex F F.zero F.zero) n cs vs arr))
    global_phase_gates laws inverse adj angle = (
      apply_nc_global_phase_lem inverse angle
          ∙ ap (λ s. ok (scaled_active F n cs vs s arr)) (global_phase-turn F laws inverse angle),
      apply_nc_generator_global_phase_lem adj,
    )
