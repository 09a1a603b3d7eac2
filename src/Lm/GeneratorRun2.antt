-- ===== src/Lm/GeneratorRun2.antt =====
-- applyNCGenerator2 as a whole: the gate of the core function on the basis states whose controls match,
-- and zero on the others.
use mathlib.Core.Path.{ap₂}
use pennylane_lightning.Prelude.{
  ℕ, zero, suc, ◌+◌, ◌-◌, ◌*◌, ◌%◌, ◌^◌, ◌<◌, ◌≤◌, ◌≡◌, ◌≢◌, refl, ap, ◌∙◌, fun_ext, Bool, true,
  false, List, [], ◌∷◌, ◌++◌, arith, leb, ◌==◌, if◌then◌else◌, length, range, reversed, bit_or,
  length-append, ok, le→leb, guards_pass,
}
use pennylane_lightning.Word.{shl, shr}
use pennylane_lightning.Word.Bit.{bit}
use pennylane_lightning.BitUtil.Sort.{IsDistinct}
use pennylane_lightning.Memory.{Arr, for_each}
use pennylane_lightning.Blocks.{spelled, length_wires-le}
use pennylane_lightning.Gate.{
  UpdateN, Update2, gate_n, gate2, only_active, position, targets, active, flip2,
}
use pennylane_lightning.Lm.Index.{Quad}
use pennylane_lightning.Lm.Apply.{Core2}
use pennylane_lightning.Lm.Correct2.{IsCore2, AreApart}
use pennylane_lightning.Lm.Generate.{
  control_mask, reverse_all, clear_round, generator2_round, apply_nc_generator2,
}
use pennylane_lightning.Lm.GeneratorLoop.{entry_at, generator_loop}
use pennylane_lightning.Lm.GeneratorRound.{clear}
use pennylane_lightning.Lm.GeneratorRound.{IsSmallCore}
use pennylane_lightning.Lm.GeneratorFacts.{
  reverse_all_lem, mask_lem, mask-lt, first_index, or_four, dim_lem, rounds_lem,
}

-- The four addresses as those of the numbers 0, 1, 2 and 3.
abbrev pub quad_of : (ℕ → ℕ) → Quad
quad_of addr = record { i00 = addr 0; i01 = addr 1; i10 = addr 2; i11 = addr 3 }

module _ {A : Type 0} (core : Core2 A) (update : Update2 A) (is_core : IsCore2 core update) where
  abbrev pub numbered2 : UpdateN A
  numbered2 c f = update (leb 2 c) (c % 2 == 1) (f 0) (f 1) (f 2) (f 3)

  small2 : IsSmallCore 4 (λ arr addr. core arr (quad_of addr)) numbered2
  small2 addr apart = record {
    hits = λ arr i h. hit arr i h;
    misses = λ arr j other.
        is_core arr (quad_of addr) j four
        ∙ ground (
          arith,
          other 0 (omega arith),
          other 1 (omega arith),
          other 2 (omega arith),
          other 3 (omega arith),
        );
  }
    where
      ne : (a b : ℕ) → a < 4 → b < 4 → a ≢ b → addr a ≢ addr b
      ne a b ha hb h e = h (apart a b ha hb e)

      four : AreApart (quad_of addr)
      four = record {
        ne_00_01 = ne 0 1 (omega arith) (omega arith) (λ e. omega arith);
        ne_00_10 = ne 0 2 (omega arith) (omega arith) (λ e. omega arith);
        ne_00_11 = ne 0 3 (omega arith) (omega arith) (λ e. omega arith);
        ne_01_10 = ne 1 2 (omega arith) (omega arith) (λ e. omega arith);
        ne_01_11 = ne 1 3 (omega arith) (omega arith) (λ e. omega arith);
        ne_10_11 = ne 2 3 (omega arith) (omega arith) (λ e. omega arith);
      }

      hit :
          (arr : Arr A) (i : ℕ)
          → i < 4
          → core arr (quad_of addr) (addr i) ≡ numbered2 i (λ c. arr (addr c))
      hit arr zero h = is_core arr (quad_of addr) (addr 0) four ∙ ground arith
      hit arr (suc zero) h =
          is_core arr (quad_of addr) (addr 1) four ∙ ground (arith, four.ne_00_01)
      hit arr (suc (suc zero)) h =
          is_core arr (quad_of addr) (addr 2) four ∙ ground (arith, four.ne_00_10, four.ne_01_10)
      hit arr (suc (suc (suc zero))) h =
          is_core arr (quad_of addr) (addr 3) four
          ∙ ground (arith, four.ne_00_11, four.ne_01_11, four.ne_10_11)
      hit arr (suc (suc (suc (suc i)))) h = absurd (omega arith)

  rounds2 :
      (nought : A) (n w0 w1 : ℕ) (cs : List ℕ) (vs : List Bool) (ks : List ℕ) (arr : Arr A)
      → n < 64
      → IsDistinct n (cs ++ w0 ∷ w1 ∷ [])
      → length vs ≡ length cs
      → for_each ks
          (generator2_round nought core
            (shl 1 (length cs + 2))
            (control_mask (length cs) vs)
            (reverse_all n (cs ++ w0 ∷ w1 ∷ [])))
          arr
        ≡ for_each ks
            (λ k arr'.
              core
                (for_each
                  (range (2 ^ (2 + length (targets n cs))))
                  (clear nought 2
                    (spelled (reversed vs))
                    (entry_at (targets n (w0 ∷ w1 ∷ []) ++ targets n cs) k))
                  arr')
                (quad_of λ c.
                  entry_at
                    (targets n (w0 ∷ w1 ∷ []) ++ targets n cs)
                    k
                    (c + 2 ^ 2 * spelled (reversed vs))))
            arr
  unfolding generator2_round clear_round shr
  rounds2 nought n w0 w1 cs vs ks arr hn d e =
      let few : length cs + 2 ≤ n =
        omega (arith, length_wires-le n (cs ++ w0 ∷ w1 ∷ []) d, length-append cs (w0 ∷ w1 ∷ [])) in
      let all = targets n (w0 ∷ w1 ∷ []) ++ targets n cs in
      let mask = spelled (reversed vs) in
      let dim = 2 ^ (2 + length (targets n cs)) in
      let first = first_index mask 2 (mask-lt vs (omega arith)) (omega arith) in
      let body : ℕ → ℕ → ℕ → ℕ → ℕ → Arr A → Arr A = λ a b c d k arr'.
        core (for_each (range dim) (clear nought 2 mask (entry_at all k)) arr') (record {
          i00 = entry_at all k a;
          i01 = entry_at all k b;
          i10 = entry_at all k c;
          i11 = entry_at all k d;
        }) in
      ap
        (λ t.
          for_each ks
            (generator2_round nought core t (control_mask (length cs) vs)
              (reverse_all n (cs ++ w0 ∷ w1 ∷ [])))
            arr)
        (dim_lem n 2 (w0 ∷ w1 ∷ []) cs hn d refl)
      ∙ ap
          (λ t.
            for_each ks (generator2_round nought core dim t (reverse_all n (cs ++ w0 ∷ w1 ∷ [])))
              arr)
          (mask_lem cs vs e (omega arith))
      ∙ ap (λ t. for_each ks (generator2_round nought core dim mask t) arr)
          (reverse_all_lem n cs (w0 ∷ w1 ∷ []) hn d)
      ∙ ap (λ t. for_each ks (body t (bit_or t 1) (bit_or t 2) (bit_or (bit_or t 2) 1)) arr) first
      ∙ ap
          (λ t.
            for_each ks
              (body t (bit_or (4 * mask) 1) (bit_or (4 * mask) 2) (bit_or (bit_or (4 * mask) 2) 1))
              arr)
          {x = 4 * mask} {y = 0 + 4 * mask} (omega arith)
      ∙ ap
          (λ t.
            for_each ks
              (body (0 + 4 * mask) t (bit_or (4 * mask) 2) (bit_or (bit_or (4 * mask) 2) 1)) arr)
          (or_four mask).0
      ∙ ap
          (λ t.
            for_each ks (body (0 + 4 * mask) (1 + 4 * mask) t (bit_or (bit_or (4 * mask) 2) 1)) arr)
          (or_four mask).1
      ∙ ap (λ t. for_each ks (body (0 + 4 * mask) (1 + 4 * mask) (2 + 4 * mask) t) arr)
          (or_four mask).2

  numbered2-gate2 :
      (n w0 w1 : ℕ) (cs : List ℕ) (vs : List Bool) (arr : Arr A)
      → gate_n n cs vs (w0 ∷ w1 ∷ []) numbered2 arr ≡ gate2 n cs vs w0 w1 update arr
  unfolding gate_n gate2
  numbered2-gate2 n w0 w1 cs vs arr = fun_ext λ j.
      ap₂
        (λ b c.
          if active n cs vs j
          then update b c (arr (flip2 n w0 w1 false false j)) (arr (flip2 n w0 w1 false true j))
              (arr (flip2 n w0 w1 true false j)) (arr (flip2 n w0 w1 true true j))
          else arr j)
        (high (bit j (position n w1)) (bit j (position n w0)))
        (low (bit j (position n w1)) (bit j (position n w0)))
    where
      high : (b c : Bool) → leb 2 ((if b then 1 else 0) + 2 * ((if c then 1 else 0) + 2 * 0)) ≡ c
      high b c = ground arith

      low :
          (b c : Bool) → (((if b then 1 else 0) + 2 * ((if c then 1 else 0) + 2 * 0)) % 2 == 1) ≡ b
      low b c = ground arith

  -- A generator by applyNCGenerator2 on two wires and control wires, under the same conditions, is the
  -- gate of its core function with zeros where the controls do not match.
  pub apply_nc_generator2-gate2 :
      (nought : A) (n w0 w1 : ℕ) (cs : List ℕ) (vs : List Bool) (arr : Arr A)
      → n < 64
      → IsDistinct n (cs ++ w0 ∷ w1 ∷ [])
      → length vs ≡ length cs
      → apply_nc_generator2 nought core n cs vs (w0 ∷ w1 ∷ []) arr
        ≡ ok (only_active nought n cs vs (gate2 n cs vs w0 w1 update arr))
  unfolding apply_nc_generator2
  apply_nc_generator2-gate2 nought n w0 w1 cs vs arr hn d e =
      guards_pass true (leb (length cs + 2) n) true "" _ "" _ refl
        (le→leb _ _ (
          omega (arith, length_wires-le n (cs ++ w0 ∷ w1 ∷ []) d, length-append cs (w0 ∷ w1 ∷ []))))
        refl
      ∙ ap ok (
          rounds2 nought n w0 w1 cs vs (range (shl 1 (n - (length cs + 2)))) arr hn d e
          ∙ generator_loop nought n hn cs (w0 ∷ w1 ∷ []) vs d e (omega arith) numbered2
              (λ i f g hi same.
                ap₂ (λ a b. update (leb 2 i) (i % 2 == 1) a b (f 2) (f 3)) (same 0 (omega arith))
                  (same 1 (omega arith))
                ∙ ap₂ (update (leb 2 i) (i % 2 == 1) (g 0) (g 1)) (same 2 (omega arith))
                    (same 3 (omega arith)))
              (λ arr' addr. core arr' (quad_of addr)) small2 _ arr
              (rounds_lem n 2 (w0 ∷ w1 ∷ []) cs hn refl (omega arith))
          ∙ ap (only_active nought n cs vs) (numbered2-gate2 n w0 w1 cs vs arr))
