-- ===== src/Lm/MultiRzLaws.antt =====
-- What MultiRZ and its generator do to a state vector: a factor for each basis state, by the parity of
-- its ones at the wires.
use pennylane_lightning.Prelude.{
  ℕ, ◌+◌, ◌%◌, ◌^◌, ◌<◌, ◌≡◌, refl, ap, sym, ◌∙◌, fun_ext, Bool, true, ◌&&◌, List, [], ◌++◌, arith,
  ltb, ◌==◌, if◌then◌else◌, length, get_or, range, ok, Bool-cases, inl, inr, ltb→lt, lt→ltb,
}
use mathlib.Core.List.{append-nil}
use mathlib.Core.Path.{subst}
use pennylane_lightning.Word.{shl}
use pennylane_lightning.Word.Popcount.{ones}
use pennylane_lightning.BitUtil.Sort.{IsDistinct}
use pennylane_lightning.Memory.{Arr, write, for_each}
use pennylane_lightning.Memory.Cells.{
  IsApart, OwnsCell, for_each_cells, for_each_others, for_each_places,
}
use pennylane_lightning.Complex.{Floats, Complex, times}
use pennylane_lightning.Blocks.{
  elem-range, range-IsDistinct, number_at, digits-number_at, with_bits, with_bits_self,
  IsDistinct-left,
}
use pennylane_lightning.Gate.{UpdateN, gate_n, active, positions, targets, with_number}
use pennylane_lightning.Lm.Wires.{shl_one}
use pennylane_lightning.Lm.PatternCells.{length-targets}
use pennylane_lightning.Lm.Ncn.{apply_ncn-gate_n}
use pennylane_lightning.Lm.NcnLoops.{numbered-IsApart}
use pennylane_lightning.Lm.NcnLoops.{IsCoreN}
use pennylane_lightning.Lm.OneQubit.{scale_at}
use pennylane_lightning.Lm.Rotations.{first_shift, second_shift}
use pennylane_lightning.Lm.Parities.{ones_at, ones_at-targets, ones-number_at, popcount-parity_mask}
use pennylane_lightning.Lm.MultiRz.{
  parity_mask, parity_shift, apply_multi_rz, multi_rz_core, apply_nc_multi_rz,
}

-- A loop over all basis states that changes each alone.
pub diagonal_loop :
    {A : Type 0} (n : ℕ) (v : ℕ → A → A) (body : ℕ → Arr A → Arr A)
    → n < 64
    → OwnsCell (λ i. i) v body
    → (arr : Arr A)
    → for_each (range (shl 1 n)) body arr ≡ (λ j. if ltb j (2 ^ n) then v j (arr j) else arr j)
diagonal_loop n v body hn owns arr = fun_ext λ j.
    ap (λ d. for_each (range d) body arr j) (shl_one n hn) ∙ elim (Bool-cases (ltb j (2 ^ n))) [
      | inl below ↦
          for_each_cells (2 ^ n) (λ i. i) (λ a b ha hb e. e) v body owns (range (2 ^ n)) arr j
            (range-IsDistinct (2 ^ n)) (ltb→lt _ _ below)
          ∙ ap (λ b. if b then v j (arr j) else arr j) (elem-range j (2 ^ n))
      | inr above ↦
          for_each_others (2 ^ n) (λ i. i) (λ a b ha hb e. e) v body owns (range (2 ^ n)) arr j
            (range-IsDistinct (2 ^ n))
            (λ i h e. ground (arith, lt→ltb i (2 ^ n) h, ap (λ t. ltb t (2 ^ n)) e, above))
          ∙ ap (λ b. if b then v j (arr j) else arr j) (sym above)
    ]

module _ (F : Floats) where
  -- The basis states whose controls match, multiplied by s0 where an even number of the wires is one and
  -- by s1 where an odd number is.
  abbrev pub parity_phase :
      Complex F → Complex F → ℕ → List ℕ → List Bool → List ℕ → Arr (Complex F) → Arr (Complex F)
  parity_phase s0 s1 n cs vs ws arr j =
      if active n cs vs j
      then times F (arr j) (if ones_at (positions n ws) j % 2 == 0 then s0 else s1)
      else arr j

  shift_lem :
      (s0 s1 : Complex F) (n : ℕ) (ws : List ℕ) (k : ℕ)
      → n < 64
      → IsDistinct n ws
      → parity_shift F s0 s1 (parity_mask n ws) k
        ≡ (if ones_at (positions n ws) k % 2 == 0 then s0 else s1)
  shift_lem s0 s1 n ws k hn d =
      ap (λ c. if c % 2 == 0 then s0 else s1) (popcount-parity_mask n ws k hn d)

  -- MultiRZ on distinct wires below n < 64 multiplies the amplitude of each basis state by the one phase
  -- or the other, by the parity of its ones at the wires.
  pub apply_multi_rz_lem :
      (n : ℕ) (ws : List ℕ) (inverse : Bool) (angle : F.Real) (arr : Arr (Complex F))
      → n < 64
      → IsDistinct n ws
      → apply_multi_rz F n ws inverse angle arr
        ≡ parity_phase (first_shift F inverse angle) (second_shift F inverse angle) n [] [] ws arr
  unfolding apply_multi_rz scale_at write
  apply_multi_rz_lem n ws inverse angle arr hn d =
      let s0 = first_shift F inverse angle in
      let s1 = second_shift F inverse angle in
      diagonal_loop n (λ k x. times F x (parity_shift F s0 s1 (parity_mask n ws) k)) _ hn
        (record { here = λ i a. ground arith; there = λ i a x ne. ground arith }) arr
      ∙ fun_ext λ j.
        ap (λ s. if ltb j (2 ^ n) then times F (arr j) s else arr j) (shift_lem s0 s1 n ws j hn d)
        ∙ with_true (ltb j (2 ^ n)) _ _
    where
      with_true : (b : Bool) (x y : Complex F) → (if b then x else y) ≡ (if b && true then x else y)
      with_true b x y = ground arith

  -- The update of MultiRZ by the number of the digits at the wires.
  abbrev pub rz_update : Complex F → Complex F → ℕ → UpdateN (Complex F)
  rz_update s0 s1 m i f = times F (f i) (if ones m i % 2 == 0 then s0 else s1)

  pub multi_rz_core-IsCoreN :
      (s0 s1 : Complex F) (n : ℕ) (ws : List ℕ)
      → n < 64
      → IsDistinct n ws
      → IsCoreN
          (2 ^ length ws)
          (targets n ws)
          (multi_rz_core F s0 s1 (parity_mask n ws))
          (rz_update s0 s1 (length ws))
  unfolding multi_rz_core scale_at write
  multi_rz_core-IsCoreN s0 s1 n ws hn d indices offset counted numbered =
      let dim = 2 ^ length ws in
      let addr : ℕ → ℕ = λ i. get_or indices i 0 + offset in
      let apart : IsApart dim addr = numbered-IsApart dim (targets n ws) addr numbered in
      let v : ℕ → Complex F → Complex F =
        λ i x. times F x (parity_shift F s0 s1 (parity_mask n ws) (addr i)) in
      let step : ℕ → Arr (Complex F) → Arr (Complex F) = λ k a.
        write a (k + offset)
          (times F (a (k + offset)) (parity_shift F s0 s1 (parity_mask n ws) (k + offset))) in
      let body : ℕ → Arr (Complex F) → Arr (Complex F) = λ i. step (get_or indices i 0) in
      let owns : OwnsCell addr v body = record {
        here = λ i a. ground arith;
        there = λ i a x ne. ground arith;
      } in
      let places : (arr : Arr (Complex F))
          → for_each indices step arr ≡ for_each (range dim) body arr =
        λ arr. for_each_places indices step arr ∙ ap (λ t. for_each (range t) body arr) counted in
      record {
        hits = λ arr i h.
            ap (λ a. a (addr i)) (places arr)
            ∙ for_each_cells dim addr apart v body owns (range dim) arr i (range-IsDistinct dim) h
            ∙ ap (λ b. if b then v i (arr (addr i)) else arr (addr i))
                (elem-range i dim ∙ lt→ltb i dim h)
            ∙ ap (times F (arr (addr i))) (
                shift_lem s0 s1 n ws (addr i) hn d
                ∙ ap (λ c. if c % 2 == 0 then s0 else s1)
                    (sym (ones_at-targets n ws (addr i) hn d)
                      ∙ sym (ones-number_at (targets n ws) (addr i))
                      ∙ ap (ones (length (targets n ws))) (numbered i h)
                      ∙ ap (λ m. ones m i) (length-targets n ws)));
        misses = λ arr j other.
            ap (λ a. a j) (places arr)
            ∙ for_each_others dim addr apart v body owns (range dim) arr j (range-IsDistinct dim)
                other;
      }

  gate_n-parity_phase :
      (s0 s1 : Complex F) (n : ℕ) (cs : List ℕ) (vs : List Bool) (ws : List ℕ)
      (arr : Arr (Complex F)) (j : ℕ)
      → n < 64
      → IsDistinct n ws
      → gate_n n cs vs ws (rz_update s0 s1 (length ws)) arr j ≡ parity_phase s0 s1 n cs vs ws arr j
  unfolding gate_n
  gate_n-parity_phase s0 s1 n cs vs ws arr j hn d =
      let ts = targets n ws in
      let factor : (if ones (length ws) (number_at ts j) % 2 == 0 then s0 else s1)
          ≡ (if ones_at (positions n ws) j % 2 == 0 then s0 else s1) =
        ap (λ m. if ones m (number_at ts j) % 2 == 0 then s0 else s1) (sym (length-targets n ws))
        ∙ ap (λ c. if c % 2 == 0 then s0 else s1)
            (ones-number_at ts j ∙ ones_at-targets n ws j hn d) in
      ap
        (λ s.
          if active n cs vs j then times F (arr (with_number n ts (number_at ts j) j)) s else arr j)
        factor
      ∙ elim (Bool-cases (ltb j (2 ^ n))) [
        | inl below ↦
            ap
              (λ x.
                if active n cs vs j
                then times F (arr x) (if ones_at (positions n ws) j % 2 == 0 then s0 else s1)
                else arr j)
              (ap (λ bs. with_bits n ts bs j) (digits-number_at ts j)
                ∙ with_bits_self n ts j (ltb→lt _ _ below))
        | inr above ↦ ground arith
      ]

  -- MultiRZ with controls, on at least one wire and control wires, all distinct and below n < 64, with a
  -- value for each control wire, multiplies the amplitudes whose controls match by the first phase of RZ
  -- where the number of ones at the wires is even and by the second where it is odd, and changes no other
  -- amplitude.
  pub apply_nc_multi_rz_lem :
      (n : ℕ) (ws cs : List ℕ) (vs : List Bool) (inverse : Bool) (angle : F.Real)
      (arr : Arr (Complex F))
      → n < 64
      → 0 < length ws
      → IsDistinct n (ws ++ cs)
      → length vs ≡ length cs
      → apply_nc_multi_rz F n cs vs ws inverse angle arr
        ≡ ok (
            parity_phase
              (first_shift F inverse angle)
              (second_shift F inverse angle)
              n
              cs
              vs
              ws
              arr)
  unfolding apply_nc_multi_rz
  apply_nc_multi_rz_lem n ws cs vs inverse angle arr hn pos d e =
      let s0 = first_shift F inverse angle in
      let s1 = second_shift F inverse angle in
      let dw = IsDistinct-left n ws cs d in
      apply_ncn-gate_n (multi_rz_core F s0 s1 (parity_mask n ws)) (rz_update s0 s1 (length ws)) n ws
        (multi_rz_core-IsCoreN s0 s1 n ws hn dw)
        (λ i f g hi same.
          ap (λ x. times F x (if ones (length ws) i % 2 == 0 then s0 else s1)) (same i hi))
        hn pos cs vs arr d e
      ∙ ap ok (fun_ext λ j. gate_n-parity_phase s0 s1 n cs vs ws arr j hn dw)

  -- On at least one wire, all distinct and below n < 64, MultiRZ with no control wire returns the state
  -- vector of MultiRZ, whose loop goes over all basis states instead of blocks.
  pub apply_nc_multi_rz-apply_multi_rz :
      (n : ℕ) (ws : List ℕ) (inverse : Bool) (angle : F.Real) (arr : Arr (Complex F))
      → n < 64
      → 0 < length ws
      → IsDistinct n ws
      → apply_nc_multi_rz F n [] [] ws inverse angle arr
        ≡ ok (apply_multi_rz F n ws inverse angle arr)
  apply_nc_multi_rz-apply_multi_rz n ws inverse angle arr hn pos d =
      apply_nc_multi_rz_lem n ws [] [] inverse angle arr hn pos
        (subst (IsDistinct n) (sym (append-nil ws)) d) refl
      ∙ sym (ap ok (apply_multi_rz_lem n ws inverse angle arr hn d))
