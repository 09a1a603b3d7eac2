-- ===== src/Lm/GeneratorRun1.antt =====
-- applyNCGenerator1 as a whole: the gate of the core function on the basis states whose controls match,
-- and zero on the others.
use mathlib.Core.Path.{ap₂}
use pennylane_lightning.Prelude.{
  ℕ, zero, suc, ◌+◌, ◌-◌, ◌*◌, ◌^◌, ◌<◌, ◌≤◌, ◌≡◌, ◌≢◌, refl, ap, ◌∙◌, fun_ext, Bool, true, false,
  List, [], ◌∷◌, ◌++◌, arith, leb, ◌==◌, if◌then◌else◌, length, range, reversed, bit_or,
  length-append, ok, le→leb, guards_pass,
}
use pennylane_lightning.Word.{shl, shr}
use pennylane_lightning.Word.Bit.{bit}
use pennylane_lightning.BitUtil.Sort.{IsDistinct}
use pennylane_lightning.Memory.{Arr, for_each}
use pennylane_lightning.Blocks.{spelled, length_wires-le}
use pennylane_lightning.Gate.{
  UpdateN, Update1, gate_n, gate1, only_active, position, targets, active, flip1,
}
use pennylane_lightning.Lm.Apply.{Core1}
use pennylane_lightning.Lm.Correct1.{IsCore1}
use pennylane_lightning.Lm.Generate.{
  control_mask, reverse_all, clear_round, generator1_round, apply_nc_generator1,
}
use pennylane_lightning.Lm.GeneratorLoop.{entry_at, generator_loop}
use pennylane_lightning.Lm.GeneratorRound.{clear}
use pennylane_lightning.Lm.GeneratorRound.{IsSmallCore}
use pennylane_lightning.Lm.GeneratorFacts.{
  reverse_all_lem, mask_lem, mask-lt, first_index, or_one, dim_lem, rounds_lem,
}

module _ {A : Type 0} (core : Core1 A) (update : Update1 A) (is_core : IsCore1 core update) where
  abbrev pub numbered1 : UpdateN A
  numbered1 c f = update (c == 1) (f 0) (f 1)

  small1 : IsSmallCore 2 (λ arr addr. core arr (addr 0) (addr 1)) numbered1
  small1 addr apart = record {
    hits = λ arr i h. hit arr i h;
    misses = λ arr j other.
        is_core arr (addr 0) (addr 1) j ne
        ∙ ground (arith, other 0 (omega arith), other 1 (omega arith));
  }
    where
      ne : addr 0 ≢ addr 1
      ne e = omega (arith, apart 0 1 (omega arith) (omega arith) e)

      hit :
          (arr : Arr A) (i : ℕ)
          → i < 2
          → core arr (addr 0) (addr 1) (addr i) ≡ update (i == 1) (arr (addr 0)) (arr (addr 1))
      hit arr zero h = is_core arr (addr 0) (addr 1) (addr 0) ne ∙ ground arith
      hit arr (suc zero) h = is_core arr (addr 0) (addr 1) (addr 1) ne ∙ ground (arith, ne)
      hit arr (suc (suc i)) h = absurd (omega arith)

  -- The rounds with the mask, the positions and the indices of the entries worked out.
  rounds1 :
      (nought : A) (n w : ℕ) (cs : List ℕ) (vs : List Bool) (ks : List ℕ) (arr : Arr A)
      → n < 64
      → IsDistinct n (cs ++ w ∷ [])
      → length vs ≡ length cs
      → for_each ks
          (generator1_round nought core
            (shl 1 (length cs + 1))
            (control_mask (length cs) vs)
            (reverse_all n (cs ++ w ∷ [])))
          arr
        ≡ for_each ks
            (λ k arr'.
              core
                (for_each
                  (range (2 ^ (1 + length (targets n cs))))
                  (clear nought 1
                    (spelled (reversed vs))
                    (entry_at (targets n (w ∷ []) ++ targets n cs) k))
                  arr')
                (entry_at
                  (targets n (w ∷ []) ++ targets n cs)
                  k
                  (0 + 2 ^ 1 * spelled (reversed vs)))
                (entry_at
                  (targets n (w ∷ []) ++ targets n cs)
                  k
                  (1 + 2 ^ 1 * spelled (reversed vs))))
            arr
  unfolding generator1_round clear_round shr
  rounds1 nought n w cs vs ks arr hn d e =
      let few : length cs + 1 ≤ n =
        omega (arith, length_wires-le n (cs ++ w ∷ []) d, length-append cs (w ∷ [])) in
      let all = targets n (w ∷ []) ++ targets n cs in
      let mask = spelled (reversed vs) in
      let dim = 2 ^ (1 + length (targets n cs)) in
      let small = mask-lt vs (omega arith) in
      let i0 : shl mask 1 ≡ 0 + 2 ^ 1 * mask =
        first_index mask 1 small (omega arith) ∙ omega arith in
      let i1 : bit_or (shl mask 1) 1 ≡ 1 + 2 ^ 1 * mask =
        ap (λ t. bit_or t 1) (first_index mask 1 small (omega arith)) ∙ or_one mask in
      ap
        (λ t.
          for_each ks
            (generator1_round nought core t (control_mask (length cs) vs)
              (reverse_all n (cs ++ w ∷ [])))
            arr)
        (dim_lem n 1 (w ∷ []) cs hn d refl)
      ∙ ap
          (λ t. for_each ks (generator1_round nought core dim t (reverse_all n (cs ++ w ∷ []))) arr)
          (mask_lem cs vs e (omega arith))
      ∙ ap (λ t. for_each ks (generator1_round nought core dim mask t) arr)
          (reverse_all_lem n cs (w ∷ []) hn d)
      ∙ ap₂
          (λ a b.
            for_each ks
              (λ k arr'.
                core (for_each (range dim) (clear nought 1 mask (entry_at all k)) arr')
                  (entry_at all k a) (entry_at all k b))
              arr)
          i0 i1

  numbered1-gate1 :
      (n w : ℕ) (cs : List ℕ) (vs : List Bool) (arr : Arr A)
      → gate_n n cs vs (w ∷ []) numbered1 arr ≡ gate1 n cs vs w update arr
  unfolding gate_n gate1
  numbered1-gate1 n w cs vs arr = fun_ext λ j.
      ap
        (λ b.
          if active n cs vs j
          then update b (arr (flip1 n w false j)) (arr (flip1 n w true j))
          else arr j)
        (by_digit (bit j (position n w)))
    where
      by_digit : (b : Bool) → ((if b then 1 else 0) + 2 * 0 == 1) ≡ b
      by_digit true = ground arith
      by_digit false = ground arith

  -- A generator by applyNCGenerator1 on a wire and control wires, all distinct and below n < 64, with one
  -- control value for each control wire and a core function that replaces its two amplitudes as `update`
  -- says, returns, and the state vector is that of the gate with this update, with zeros where the controls
  -- do not match.
  pub apply_nc_generator1-gate1 :
      (nought : A) (n w : ℕ) (cs : List ℕ) (vs : List Bool) (arr : Arr A)
      → n < 64
      → IsDistinct n (cs ++ w ∷ [])
      → length vs ≡ length cs
      → apply_nc_generator1 nought core n cs vs (w ∷ []) arr
        ≡ ok (only_active nought n cs vs (gate1 n cs vs w update arr))
  unfolding apply_nc_generator1
  apply_nc_generator1-gate1 nought n w cs vs arr hn d e =
      guards_pass true (leb (length cs + 1) n) true "" _ "" _ refl
        (le→leb _ _ (omega (arith, length_wires-le n (cs ++ w ∷ []) d, length-append cs (w ∷ []))))
        refl
      ∙ ap ok (
          rounds1 nought n w cs vs (range (shl 1 (n - (length cs + 1)))) arr hn d e
          ∙ generator_loop nought n hn cs (w ∷ []) vs d e (omega arith) numbered1
              (λ i f g hi same. ap₂ (update (i == 1)) (same 0 (omega arith)) (same 1 (omega arith)))
              (λ arr' addr. core arr' (addr 0) (addr 1)) small1 _ arr
              (rounds_lem n 1 (w ∷ []) cs hn refl (omega arith))
          ∙ ap (only_active nought n cs vs) (numbered1-gate1 n w cs vs arr))
