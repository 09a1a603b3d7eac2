-- ===== src/Lm/FourQubitLaws.antt =====
-- What the double excitations with controls do to a state vector.
use pennylane_lightning.Prelude.{
  ℕ, ◌<◌, ◌≡◌, ◌≢◌, refl, ap, ◌∙◌, Bool, true, false, List, [], ◌∷◌, length, arith, ◌==◌,
  if◌then◌else◌, get_or, range, ok, lt→ltb, Bool-cases, inl, inr,
}
use pennylane_lightning.BitUtil.Sort.{IsDistinct}
use pennylane_lightning.Memory.{Arr, write, set2, for_each}
use pennylane_lightning.Memory.Cells.{
  IsApart, OwnsCell, for_each_cells, for_each_others, for_each_places,
}
use pennylane_lightning.Complex.{Floats, Complex, plus, minus, times, scaled}
use pennylane_lightning.Blocks.{elem-range, range-IsDistinct}
use pennylane_lightning.Gate.{UpdateN, gate_n}
use pennylane_lightning.Lm.CorrectN.{IsLocal}
use pennylane_lightning.Lm.OneQubit.{scale_at}
use pennylane_lightning.Lm.Rotations.{signed_sin}
use pennylane_lightning.Lm.Nc4.{IsCore4}
use pennylane_lightning.Lm.Nc4Loops.{dispatch_nc4-gate_n}
use pennylane_lightning.Lm.FourQubit.{
  double_excitation_core, apply_nc_double_excitation, double_phase, phased_double_core,
  apply_nc_double_excitation_minus, apply_nc_double_excitation_plus,
}

module _ (F : Floats) where
  -- A rotation between the numbers 3 (0011) and 12 (1100); the other amplitudes are changed by `f`.
  abbrev pub double_update : F.Real → F.Real → (Complex F → Complex F) → UpdateN (Complex F)
  double_update c s f i x =
      if i == 3
      then minus F (scaled F c (x 3)) (scaled F s (x 12))
      else if i == 12
      then plus F (scaled F s (x 3)) (scaled F c (x 12))
      else f (x i)

  pub double_update-IsLocal :
      (c s : F.Real) (f : Complex F → Complex F) → IsLocal 16 (double_update c s f)
  double_update-IsLocal c s f i x y hi same =
      ground (arith, same 3 (omega arith), same 12 (omega arith), same i hi)

  -- Setting the entries 3 and 12 of memory that has the changed amplitudes.
  set_two :
      (c s : F.Real) (f : Complex F → Complex F) (addr : ℕ → ℕ) (arr base : Arr (Complex F))
      → IsApart 16 addr
      → ((i : ℕ) → i < 16 → base (addr i) ≡ f (arr (addr i)))
      → (i : ℕ) → i < 16
      → set2 base
          (addr 3)
          (addr 12)
          (minus F (scaled F c (arr (addr 3))) (scaled F s (arr (addr 12))))
          (plus F (scaled F s (arr (addr 3))) (scaled F c (arr (addr 12))))
          (addr i)
        ≡ double_update c s f i (λ k. arr (addr k))
  unfolding set2 write
  set_two c s f addr arr base apart at i h =
      let no : (k : ℕ) → k < 16 → (i == k) ≡ false → addr i ≢ addr k =
        λ k hk ne e. ground (arith, apart i k h hk e, ne) in
      let three_twelve : addr 3 ≢ addr 12 =
        λ e. omega (arith, apart 3 12 (omega arith) (omega arith) e) in
      elim (Bool-cases (i == 3)) [
        | inl is3 ↦ ground (arith, ap addr {x = i} {y = 3} (ground arith), three_twelve)
        | inr not3 ↦ elim (Bool-cases (i == 12)) [
          | inl is12 ↦ ground (arith, ap addr {x = i} {y = 12} (ground arith))
          | inr not12 ↦ ground (arith, no 3 (omega arith) not3, no 12 (omega arith) not12, at i h)
        ]
      ]

  pub double_excitation_core-IsCore4 :
      (c s : F.Real) → IsCore4 false (double_excitation_core F c s) (double_update c s (λ x. x))
  unfolding double_excitation_core set2 write
  double_excitation_core-IsCore4 c s indices counted apart = record {
    hits =
        λ arr i h. set_two c s (λ x. x) (λ i. get_or indices i 0) arr arr apart (λ k hk. refl) i h;
    misses = λ arr j other. ground (arith, other 3 (omega arith), other 12 (omega arith));
  }

  phased_double_core-IsCore4 :
      (c s : F.Real) (e : Complex F)
      → IsCore4 true (phased_double_core F c s e) (double_update c s (λ x. times F x e))
  unfolding phased_double_core scale_at set2 write
  phased_double_core-IsCore4 c s e indices counted apart =
      let addr : ℕ → ℕ = λ i. get_or indices i 0 in
      let step : ℕ → Arr (Complex F) → Arr (Complex F) = λ i a. write a i (times F (a i) e) in
      let body : ℕ → Arr (Complex F) → Arr (Complex F) = λ i. step (addr i) in
      let v : ℕ → Complex F → Complex F = λ i x. times F x e in
      let owns : OwnsCell addr v body = record {
        here = λ i a. ground arith;
        there = λ i a x ne. ground arith;
      } in
      let places : (arr : Arr (Complex F))
          → for_each indices step arr ≡ for_each (range 16) body arr =
        λ arr. for_each_places indices step arr ∙ ap (λ t. for_each (range t) body arr) counted in
      record {
        hits = λ arr i h.
            set_two c s (λ x. times F x e) addr arr (for_each indices step arr) apart
              (λ k hk.
                ap (λ a. a (addr k)) (places arr)
                ∙ for_each_cells 16 addr apart v body owns (range 16) arr k (range-IsDistinct 16) hk
                ∙ ap (λ b. if b then v k (arr (addr k)) else arr (addr k))
                    (elem-range k 16 ∙ lt→ltb k 16 hk))
              i h;
        misses = λ arr j other.
            let phased : for_each indices step arr j ≡ arr j =
              ap (λ a. a j) (places arr)
              ∙ for_each_others 16 addr apart v body owns (range 16) arr j (range-IsDistinct 16)
                  other in
            ground (arith, other 3 (omega arith), other 12 (omega arith), phased);
      }

  module _ (n w0 w1 w2 w3 : ℕ) (cs : List ℕ) (vs : List Bool) (hn : n < 64)
      (distinct : IsDistinct n (w0 ∷ w1 ∷ w2 ∷ w3 ∷ cs)) (paired : length vs ≡ length cs)
      (inverse : Bool) (arr : Arr (Complex F)) where
    -- DoubleExcitation and its variants with controls, on distinct wires below n < 64 with a value for each
    -- control wire, rotate between the amplitudes of 0011 and 1100 at their four wires where the controls
    -- match; the variants multiply the other fourteen by a phase, and amplitudes whose controls do not match
    -- stay.
    pub double_excitation_gates :
        (angle : F.Real)
        → (apply_nc_double_excitation F n cs vs (w0 ∷ w1 ∷ w2 ∷ w3 ∷ []) inverse angle arr
            ≡ ok (
                gate_n n cs vs
                  (w0 ∷ w1 ∷ w2 ∷ w3 ∷ [])
                  (double_update (F.cos (F.half angle)) (signed_sin F inverse angle) (λ x. x))
                  arr))
          × (apply_nc_double_excitation_minus F n cs vs (w0 ∷ w1 ∷ w2 ∷ w3 ∷ []) inverse angle arr
              ≡ ok (
                  gate_n n cs vs
                    (w0 ∷ w1 ∷ w2 ∷ w3 ∷ [])
                    (double_update
                      (F.cos (F.half angle))
                      (signed_sin F inverse angle)
                      (λ x. times F x (double_phase F (if inverse then false else true) angle)))
                    arr))
          × (apply_nc_double_excitation_plus F n cs vs (w0 ∷ w1 ∷ w2 ∷ w3 ∷ []) inverse angle arr
              ≡ ok (
                  gate_n n cs vs
                    (w0 ∷ w1 ∷ w2 ∷ w3 ∷ [])
                    (double_update
                      (F.cos (F.half angle))
                      (signed_sin F inverse angle)
                      (λ x. times F x (double_phase F inverse angle)))
                    arr))
    unfolding apply_nc_double_excitation apply_nc_double_excitation_minus
        apply_nc_double_excitation_plus
    double_excitation_gates angle =
        let c = F.cos (F.half angle) in
        let s = signed_sin F inverse angle in
        let phased = λ (e : Complex F).
          dispatch_nc4-gate_n true (phased_double_core F c s e)
            (double_update c s (λ x. times F x e)) (phased_double_core-IsCore4 c s e)
            (double_update-IsLocal c s (λ x. times F x e)) n w0 w1 w2 w3 cs vs arr hn distinct
            paired in
        (
          dispatch_nc4-gate_n false (double_excitation_core F c s) (double_update c s (λ x. x))
              (double_excitation_core-IsCore4 c s) (double_update-IsLocal c s (λ x. x)) n w0 w1 w2
              w3 cs vs arr hn distinct paired,
          phased (double_phase F (if inverse then false else true) angle),
          phased (double_phase F inverse angle),
        )
