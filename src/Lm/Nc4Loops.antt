-- ===== src/Lm/Nc4Loops.antt =====
-- applyNC4 as a whole: a four-qubit gate with controls on any wires of fewer than 64 qubits.
use mathlib.Core.Path.{subst, ap₂}
use pennylane_lightning.Prelude.{
  ℕ, ◌+◌, ◌-◌, ◌^◌, ◌<◌, ◌≡◌, refl, ap, sym, ◌∙◌, fun_ext, Bool, true, false, ◌&&◌, List, [], ◌∷◌,
  ◌++◌, arith, ltb, leb, if◌then◌else◌, length, get_or, range, replicate, reversed, bit_or, ok,
  le→leb, guards_pass,
}
use pennylane_lightning.Word.{shl, sub}
use pennylane_lightning.BitUtil.{rev_wire_parity}
use pennylane_lightning.BitUtil.Sort.{IsDistinct}
use pennylane_lightning.Memory.{Arr, for_each}
use pennylane_lightning.Blocks.{IsSchedule, length_wires-le, number_at, controls_match}
use pennylane_lightning.Gate.{UpdateN, gate_n, position, positions, targets, with_number}
use pennylane_lightning.Lm.Index.{reverse_wires, wire_shifts, set_controls}
use pennylane_lightning.Lm.Wires.{
  rev_position', positions-IsDistinct, reversed-IsDistinct, reverse_wires_lem, length-reversed_pair,
  controls_match-reversed,
}
use pennylane_lightning.Lm.Cells.{get_or-wire_shifts}
use pennylane_lightning.Lm.Entries.{entry}
use pennylane_lightning.Lm.Presets.{length-parity2indices}
use pennylane_lightning.Lm.AllWires.{all_positions, all-IsDistinct, length-all}
use pennylane_lightning.Lm.PatternCells.{length-targets}
use pennylane_lightning.Lm.CorrectN.{IsRound, IsLocal, cells_apart, loop_n}
use pennylane_lightning.Lm.FourQubit.{
  Core4, nc4_controlled_round, nc4_plain_round, apply_nc4, dispatch_nc4,
}
use pennylane_lightning.BitUtil.Parity.{length-rev_wire_parity}
use pennylane_lightning.Lm.NcnLoops.{all_rounds}
use pennylane_lightning.Lm.Nc4.{
  run4, IsCore4, entry3, entry12, masked-five, list4, list4-AreCells, first4, listed,
}

shift4 :
    (rs ts : List ℕ) (vs : List Bool) (i : ℕ)
    → length vs ≡ length rs
    → get_or (wire_shifts vs (rs ++ ts)) (i + length rs) 0 ≡ get_or (wire_shifts [] ts) i 0
shift4 rs ts vs i e =
    ap (λ t. get_or (wire_shifts vs (rs ++ ts)) t 0) {x = i + length rs} {y = length rs + i}
      (omega arith)
    ∙ get_or-wire_shifts rs ts vs i e

-- A round with controls calls the core function as run4 does.
controlled_run :
    {A : Type 0} (compute : Bool) (core : Core4 A) (n : ℕ) (hn : n < 64) (rs : List ℕ)
    (vs : List Bool) (t0 t1 t2 t3 : ℕ) (distinct : IsDistinct n (rs ++ t0 ∷ t1 ∷ t2 ∷ t3 ∷ []))
    (paired : length vs ≡ length rs) (k : ℕ)
    (hk : k < 2 ^ (n - length (rs ++ t0 ∷ t1 ∷ t2 ∷ t3 ∷ []))) (arr : Arr A)
    → nc4_controlled_round compute core
        (rev_wire_parity (rs ++ t0 ∷ t1 ∷ t2 ∷ t3 ∷ []))
        (rs ++ t0 ∷ t1 ∷ t2 ∷ t3 ∷ [])
        (wire_shifts vs (rs ++ t0 ∷ t1 ∷ t2 ∷ t3 ∷ []))
        (length rs)
        k
        arr
      ≡ run4 compute core (list4 compute core n hn rs vs t0 t1 t2 t3 distinct paired k) arr
unfolding nc4_controlled_round first4
controlled_run true core n hn rs vs t0 t1 t2 t3 d e k hk arr = refl
controlled_run false core n hn rs vs t0 t1 t2 t3 d e k hk arr =
    let ts = t0 ∷ t1 ∷ t2 ∷ t3 ∷ [] in
    let x = first4 false core n hn rs vs t0 t1 t2 t3 d e k hk in
    let at : (i : ℕ)
        → i < 16
        → get_or (list4 false core n hn rs vs t0 t1 t2 t3 d e k) i 0
          ≡ entry x (wire_shifts [] ts) i =
      listed false core n hn rs vs t0 t1 t2 t3 d e k hk in
    ap₂ (λ a b. core arr a b (replicate 16 0))
      (ap₂ (λ a b. bit_or (bit_or x a) b) (shift4 rs ts vs 1 e) (shift4 rs ts vs 0 e)
        ∙ sym (at 3 (omega arith) ∙ entry3 x t0 t1 t2 t3))
      (ap₂ (λ a b. bit_or (bit_or x a) b) (shift4 rs ts vs 3 e) (shift4 rs ts vs 2 e)
        ∙ sym (at 12 (omega arith) ∙ entry12 x t0 t1 t2 t3))

-- And so does one without.
plain_run :
    {A : Type 0} (compute : Bool) (core : Core4 A) (n : ℕ) (hn : n < 64) (t0 t1 t2 t3 : ℕ)
    (distinct : IsDistinct n (t0 ∷ t1 ∷ t2 ∷ t3 ∷ [])) (k : ℕ) (hk : k < 2 ^ (n - 4)) (arr : Arr A)
    → nc4_plain_round compute core (rev_wire_parity (t0 ∷ t1 ∷ t2 ∷ t3 ∷ [])) t0 t1 t2 t3 k arr
      ≡ run4 compute core (list4 compute core n hn [] [] t0 t1 t2 t3 distinct refl k) arr
unfolding nc4_plain_round first4 set_controls
plain_run true core n hn t0 t1 t2 t3 d k hk arr = refl
plain_run false core n hn t0 t1 t2 t3 d k hk arr =
    let ts = t0 ∷ t1 ∷ t2 ∷ t3 ∷ [] in
    let x = first4 false core n hn [] [] t0 t1 t2 t3 d refl k hk in
    let at : (i : ℕ)
        → i < 16
        → get_or (list4 false core n hn [] [] t0 t1 t2 t3 d refl k) i 0
          ≡ entry x (wire_shifts [] ts) i =
      listed false core n hn [] [] t0 t1 t2 t3 d refl k hk in
    let base =
      masked-five k (rev_wire_parity ts) (length-rev_wire_parity ts (omega arith) ∙ omega arith) in
    ap₂ (λ a b. core arr a b (replicate 16 0))
      (ap (λ y. bit_or (bit_or y (shl 1 t1)) (shl 1 t0)) (sym base)
        ∙ sym (at 3 (omega arith) ∙ entry3 x t0 t1 t2 t3))
      (ap (λ y. bit_or (bit_or y (shl 1 t3)) (shl 1 t2)) (sym base)
        ∙ sym (at 12 (omega arith) ∙ entry12 x t0 t1 t2 t3))

module _ {A : Type 0} (compute : Bool) (core : Core4 A) (update : UpdateN A)
    (is_core : IsCore4 compute core update) (local : IsLocal 16 update) (n : ℕ) (hn : n < 64)
    (rs : List ℕ) (vs : List Bool) (t0 t1 t2 t3 : ℕ)
    (distinct : IsDistinct n (rs ++ t0 ∷ t1 ∷ t2 ∷ t3 ∷ [])) (paired : length vs ≡ length rs) where
  -- The loop over the lists of indices computes the gate, in whatever order its rounds run.
  loop4 :
      (ks : List ℕ) (body : ℕ → Arr A → Arr A) (arr : Arr A) (j : ℕ)
      → ((k : ℕ) (arr' : Arr A)
          → k < 2 ^ (n - length (rs ++ t0 ∷ t1 ∷ t2 ∷ t3 ∷ []))
          → body k arr'
            ≡ run4 compute core (list4 compute core n hn rs vs t0 t1 t2 t3 distinct paired k) arr')
      → IsSchedule (2 ^ (n - length (rs ++ t0 ∷ t1 ∷ t2 ∷ t3 ∷ []))) ks
      → for_each ks body arr j ≡ (
          if ltb j (2 ^ n) && controls_match rs vs j
          then update
              (number_at (t0 ∷ t1 ∷ t2 ∷ t3 ∷ []) j)
              (λ i. arr (with_number n (t0 ∷ t1 ∷ t2 ∷ t3 ∷ []) i j))
          else arr j)
  loop4 ks body arr j runs schedule =
      let ts = t0 ∷ t1 ∷ t2 ∷ t3 ∷ [] in
      let list = list4 compute core n hn rs vs t0 t1 t2 t3 distinct paired in
      let cells = list4-AreCells compute core n hn rs vs t0 t1 t2 t3 distinct paired in
      loop_n n rs vs ts distinct paired update local (λ k i. get_or (list k) i 0) body cells
        (λ k hk.
          subst (IsRound 16 update (λ i. get_or (list k) i 0)) (fun_ext λ a. sym (runs k a hk)) (
            is_core (list k)
              (length-parity2indices k (rev_wire_parity (rs ++ ts)) rs ts vs
                (if compute then [] else rs ++ ts) (omega arith))
              (cells_apart n rs vs ts distinct paired k (λ i. get_or (list k) i 0) (cells k hk))))
        ks arr j schedule

-- A gate by applyNC4 on four wires and control wires, all distinct and below n < 64, with one control value
-- for each control wire and a core function that replaces its sixteen amplitudes as `update` says, returns,
-- and the state vector is that of the abstract gate with this update, whether the loop computes all
-- sixteen addresses or two of them.
pub dispatch_nc4-gate_n :
    {A : Type 0} (compute : Bool) (core : Core4 A) (update : UpdateN A)
    → IsCore4 compute core update
    → IsLocal 16 update
    → (n w0 w1 w2 w3 : ℕ) (cs : List ℕ) (vs : List Bool) (arr : Arr A) → n < 64
    → IsDistinct n (w0 ∷ w1 ∷ w2 ∷ w3 ∷ cs)
    → length vs ≡ length cs
    → dispatch_nc4 compute core n cs vs (w0 ∷ w1 ∷ w2 ∷ w3 ∷ []) arr
      ≡ ok (gate_n n cs vs (w0 ∷ w1 ∷ w2 ∷ w3 ∷ []) update arr)
unfolding dispatch_nc4 apply_nc4 gate_n
dispatch_nc4-gate_n compute core update is_core local n w0 w1 w2 w3 [] vs arr hn d e =
    let p = position n in
    let swapped : IsDistinct n (p w3 ∷ p w2 ∷ p w1 ∷ p w0 ∷ []) =
      positions-IsDistinct n (w3 ∷ w2 ∷ w1 ∷ w0 ∷ [])
        (reversed-IsDistinct n (w0 ∷ w1 ∷ w2 ∷ w3 ∷ []) d) in
    let q : ℕ → ℕ = λ w. sub (sub n w) 1 in
    guards_pass true (leb 4 n) true "" _ "" _ refl
      (le→leb _ _ (length_wires-le n (w0 ∷ w1 ∷ w2 ∷ w3 ∷ []) d)) refl
    ∙ ap ok (
        fun_ext λ j.
          subst
            (λ r.
              for_each (range (shl 1 (n - 4)))
                (nc4_plain_round compute core
                  (rev_wire_parity (get_or r 0 0 ∷ get_or r 1 0 ∷ get_or r 2 0 ∷ get_or r 3 0 ∷ []))
                  (get_or r 0 0) (get_or r 1 0) (get_or r 2 0) (get_or r 3 0))
                arr j
              ≡ (if ltb j (2 ^ n) && true
                  then update (number_at (targets n (w0 ∷ w1 ∷ w2 ∷ w3 ∷ [])) j)
                      (λ i. arr (with_number n (targets n (w0 ∷ w1 ∷ w2 ∷ w3 ∷ [])) i j))
                  else arr j))
            {x = p w3 ∷ p w2 ∷ p w1 ∷ p w0 ∷ []} {y = q w3 ∷ q w2 ∷ q w1 ∷ q w0 ∷ []}
            (sym (
              ap₂ (λ a b. a ∷ b) (rev_position' n w3 hn d.2.2.2.0)
                (ap₂ (λ a b. a ∷ b) (rev_position' n w2 hn d.2.2.0)
                  (ap₂ (λ a b. a ∷ b ∷ []) (rev_position' n w1 hn d.2.0)
                    (rev_position' n w0 hn d.0)))))
            (loop4 compute core update is_core local n hn [] [] (p w3) (p w2) (p w1) (p w0) swapped
              refl _ _ arr j
              (λ k a hk. plain_run compute core n hn (p w3) (p w2) (p w1) (p w0) swapped k hk a)
              (all_rounds n 4 hn (omega arith))))
dispatch_nc4-gate_n compute core update is_core local n w0 w1 w2 w3 (c ∷ cs) vs arr hn d e =
    let ws = w0 ∷ w1 ∷ w2 ∷ w3 ∷ [] in
    let all = c ∷ cs in
    let ts = targets n ws in
    let rs = positions n (reversed all) in
    let p = position n in
    let distinct = all-IsDistinct n ws all d in
    let paired = length-reversed_pair n all vs e in
    let ks = range (shl 1 (n - (length all + 4))) in
    let is_revs : reverse_wires n (ws ++ all) vs
        ≡ (rs ++ ts, wire_shifts (reversed vs) (rs ++ ts)) =
      reverse_wires_lem n (ws ++ all) vs hn d
      ∙ ap (λ t. (t, wire_shifts (reversed vs) t)) (all_positions n ws all) in
    guards_pass true (leb (length all + 4) n) true "" _ "" _ refl
      (le→leb _ _ (omega (arith, length_wires-le n (rs ++ ts) distinct, length-all n ws all))) refl
    ∙ ap ok (
        fun_ext λ j.
          ap
            (λ r.
              for_each ks
                (nc4_controlled_round compute core (rev_wire_parity r.0) r.0 r.1 (length all)) arr
                j)
            is_revs
          ∙ ap
              (λ m.
                for_each ks
                  (nc4_controlled_round compute core (rev_wire_parity (rs ++ ts)) (rs ++ ts)
                    (wire_shifts (reversed vs) (rs ++ ts)) m)
                  arr j)
              (sym (length-targets n all))
          ∙ loop4 compute core update is_core local n hn rs (reversed vs) (p w3) (p w2) (p w1)
              (p w0) distinct paired ks _ arr j
              (λ k a hk.
                controlled_run compute core n hn rs (reversed vs) (p w3) (p w2) (p w1) (p w0)
                  distinct paired k hk a)
              (subst (λ m. IsSchedule (2 ^ (n - m)) ks) (sym (length-all n ws all))
                (all_rounds n (length all + 4) hn (omega arith)))
          ∙ ap
              (λ b.
                if ltb j (2 ^ n) && b
                then update (number_at ts j) (λ i. arr (with_number n ts i j))
                else arr j)
              (controls_match-reversed n all vs j e))
