-- ===== src/Lm/Nc4.antt =====
-- The addresses of applyNC4: sixteen indices, or the entries 3 and 12 of them alone.
use pennylane_lightning.Prelude.{
  ℕ, ◌+◌, ◌-◌, ◌^◌, ◌<◌, ◌≡◌, refl, ap, sym, ◌∙◌, Bool, true, false, List, [], ◌∷◌, ◌++◌, arith,
  if◌then◌else◌, length, get_or, replicate, bit_or, bit_and, length-append,
}
use pennylane_lightning.Word.{shl}
use pennylane_lightning.Word.Bit.{bit_ext, bit-bit_or}
use pennylane_lightning.BitUtil.{rev_wire_parity}
use pennylane_lightning.BitUtil.Sort.{IsDistinct}
use pennylane_lightning.Memory.{Arr}
use pennylane_lightning.Memory.Cells.{IsApart}
use pennylane_lightning.Gate.{UpdateN}
use pennylane_lightning.Lm.Index.{
  wire_shifts, masked, or_masks, set_controls, preset, parity2indices, inner_index,
}
use pennylane_lightning.Lm.Spread.{masked-or_masks}
use pennylane_lightning.Lm.Rounds.{word_of_block}
use pennylane_lightning.Lm.Entries.{entry, get_or-parity2indices}
use pennylane_lightning.Lm.Presets.{parity2indices-AreCells, parity2indices-AreCells'}
use pennylane_lightning.Lm.CorrectN.{IsRound, AreCells}
use pennylane_lightning.Lm.FourQubit.{Core4}

-- A core function with the arguments that the loop computes for it, from the list of all indices.
abbrev pub run4 : {A : Type 0} → Bool → Core4 A → List ℕ → Arr A → Arr A
run4 compute core indices arr =
    if compute
    then core arr 0 0 indices
    else core arr (get_or indices 3 0) (get_or indices 12 0) (replicate 16 0)

-- On a list of sixteen different addresses, so called, it replaces the amplitudes as `update` says and no
-- other.
abbrev pub IsCore4 : {A : Type 0} → Bool → Core4 A → UpdateN A → Type 0
IsCore4 {A} compute core update =
    (indices : List ℕ)
    → length indices ≡ 16
    → IsApart 16 (λ i. get_or indices i 0)
    → IsRound 16 update (λ i. get_or indices i 0) (run4 compute core indices)

bit_or-swap : (x a b : ℕ) → bit_or (bit_or x a) b ≡ bit_or (bit_or x b) a
bit_or-swap x a b = bit_ext _ _ λ q. ground (
  arith,
  bit-bit_or (bit_or x a) b q,
  bit-bit_or x a q,
  bit-bit_or (bit_or x b) a q,
  bit-bit_or x b q,
)

-- The entries 3 and 12 of a list of four wires.
pub entry3 :
    (x t0 t1 t2 t3 : ℕ)
    → entry x (wire_shifts [] (t0 ∷ t1 ∷ t2 ∷ t3 ∷ [])) 3 ≡ bit_or (bit_or x (shl 1 t1)) (shl 1 t0)
unfolding inner_index shl
entry3 x t0 t1 t2 t3 = bit_or-swap x (shl 1 t0) (shl 1 t1)

pub entry12 :
    (x t0 t1 t2 t3 : ℕ)
    → entry x (wire_shifts [] (t0 ∷ t1 ∷ t2 ∷ t3 ∷ [])) 12 ≡ bit_or (bit_or x (shl 1 t3)) (shl 1 t2)
unfolding inner_index shl
entry12 x t0 t1 t2 t3 = bit_or-swap x (shl 1 t2) (shl 1 t3)

preset-set_controls :
    (c : ℕ) (revs ss : List ℕ) (x : ℕ)
    → 0 < length revs
    → preset c revs ss x ≡ set_controls c revs ss x
unfolding preset
preset-set_controls c [] ss x h = absurd (omega arith)
preset-set_controls c (r ∷ revs) ss x h = refl

-- The masks from the last to the first, as applyNC4 writes them without controls.
pub masked-five :
    (k : ℕ) (ps : List ℕ)
    → length ps ≡ 5
    → masked k ps
      ≡ bit_or
          (bit_or
            (bit_or
              (bit_or (bit_and (shl k 4) (get_or ps 4 0)) (bit_and (shl k 3) (get_or ps 3 0)))
              (bit_and (shl k 2) (get_or ps 2 0)))
            (bit_and (shl k 1) (get_or ps 1 0)))
          (bit_and k (get_or ps 0 0))
unfolding masked or_masks
masked-five k [] h = absurd (omega arith)
masked-five k (p0 ∷ []) h = absurd (omega arith)
masked-five k (p0 ∷ p1 ∷ []) h = absurd (omega arith)
masked-five k (p0 ∷ p1 ∷ p2 ∷ []) h = absurd (omega arith)
masked-five k (p0 ∷ p1 ∷ p2 ∷ p3 ∷ []) h = absurd (omega arith)
masked-five k (p0 ∷ p1 ∷ p2 ∷ p3 ∷ p4 ∷ []) h =
    backwards (bit_and k p0) (bit_and (shl k 1) p1) (bit_and (shl k 2) p2) (bit_and (shl k 3) p3)
      (bit_and (shl k 4) p4)
  where
    backwards :
        (a b c d e : ℕ)
        → bit_or (bit_or (bit_or (bit_or a b) c) d) e ≡ bit_or (bit_or (bit_or (bit_or e d) c) b) a
    backwards a b c d e = bit_ext _ _ λ q. ground (
      arith,
      bit-bit_or (bit_or (bit_or (bit_or a b) c) d) e q,
      bit-bit_or (bit_or (bit_or a b) c) d q,
      bit-bit_or (bit_or a b) c q,
      bit-bit_or a b q,
      bit-bit_or (bit_or (bit_or (bit_or e d) c) b) a q,
      bit-bit_or (bit_or (bit_or e d) c) b q,
      bit-bit_or (bit_or e d) c q,
      bit-bit_or e d q,
    )
masked-five k (p0 ∷ p1 ∷ p2 ∷ p3 ∷ p4 ∷ p5 ∷ ps) h = absurd (omega arith)

module _ {A : Type 0} (compute : Bool) (core : Core4 A) (n : ℕ) (hn : n < 64) (rs : List ℕ)
    (vs : List Bool) (t0 t1 t2 t3 : ℕ) (distinct : IsDistinct n (rs ++ t0 ∷ t1 ∷ t2 ∷ t3 ∷ []))
    (paired : length vs ≡ length rs) where
  -- The list of indices of a round, whether all are computed or two of them.
  abbrev pub list4 : ℕ → List ℕ
  list4 k =
      parity2indices k (rev_wire_parity (rs ++ t0 ∷ t1 ∷ t2 ∷ t3 ∷ []))
        (wire_shifts vs (rs ++ t0 ∷ t1 ∷ t2 ∷ t3 ∷ [])) (length rs)
        (if compute then [] else rs ++ t0 ∷ t1 ∷ t2 ∷ t3 ∷ [])

  module _ (k : ℕ) (hk : k < 2 ^ (n - length (rs ++ t0 ∷ t1 ∷ t2 ∷ t3 ∷ []))) where
    pub list4-AreCells : AreCells rs vs (t0 ∷ t1 ∷ t2 ∷ t3 ∷ []) k (λ i. get_or (list4 k) i 0)
    list4-AreCells = pick compute
      where
        pick :
            (b : Bool)
            → AreCells rs vs (t0 ∷ t1 ∷ t2 ∷ t3 ∷ []) k (λ i.
              get_or
                (parity2indices k
                  (rev_wire_parity (rs ++ t0 ∷ t1 ∷ t2 ∷ t3 ∷ []))
                  (wire_shifts vs (rs ++ t0 ∷ t1 ∷ t2 ∷ t3 ∷ []))
                  (length rs)
                  (if b then [] else rs ++ t0 ∷ t1 ∷ t2 ∷ t3 ∷ []))
                i
                0)
        pick true = parity2indices-AreCells' n hn k rs vs t0 (t1 ∷ t2 ∷ t3 ∷ []) distinct paired hk
        pick false = parity2indices-AreCells n hn k rs vs t0 (t1 ∷ t2 ∷ t3 ∷ []) distinct paired hk

    -- The addresses that are computed alone are the entries 3 and 12.
    unfoldable pub first4 : ℕ
    unfolding set_controls masked
    first4 =
        set_controls (length rs) (rs ++ t0 ∷ t1 ∷ t2 ∷ t3 ∷ [])
          (wire_shifts vs (rs ++ t0 ∷ t1 ∷ t2 ∷ t3 ∷ []))
          (masked k (rev_wire_parity (rs ++ t0 ∷ t1 ∷ t2 ∷ t3 ∷ [])))

    pub listed :
        (i : ℕ)
        → i < 16
        → get_or
            (parity2indices k
              (rev_wire_parity (rs ++ t0 ∷ t1 ∷ t2 ∷ t3 ∷ []))
              (wire_shifts vs (rs ++ t0 ∷ t1 ∷ t2 ∷ t3 ∷ []))
              (length rs)
              (rs ++ t0 ∷ t1 ∷ t2 ∷ t3 ∷ []))
            i
            0
          ≡ entry first4 (wire_shifts [] (t0 ∷ t1 ∷ t2 ∷ t3 ∷ [])) i
    unfolding first4
    listed i h =
        let all = rs ++ t0 ∷ t1 ∷ t2 ∷ t3 ∷ [] in
        let four : length all ≡ length rs + 4 = length-append rs (t0 ∷ t1 ∷ t2 ∷ t3 ∷ []) in
        get_or-parity2indices k (rev_wire_parity all) rs (t0 ∷ t1 ∷ t2 ∷ t3 ∷ []) vs all i paired
          (omega arith) h
        ∙ ap (λ x. entry x (wire_shifts [] (t0 ∷ t1 ∷ t2 ∷ t3 ∷ [])) i)
            (preset-set_controls (length rs) all (wire_shifts vs all)
                (or_masks k 0 0 (rev_wire_parity all)) (omega (arith, four))
              ∙ ap (set_controls (length rs) all (wire_shifts vs all)) (
                  sym (
                    masked-or_masks k (rev_wire_parity all)
                      (word_of_block n hn k (length all) hk))))
