-- ===== src/Util/Exclusion.antt =====
-- getIndicesAfterExclusion keeps the wires that are not excluded, although its inner loop passes over
-- the entry behind an erased one.
use mathlib.Core.Path.{subst}
use pennylane_lightning.Prelude.{
  ℕ, ◌≡◌, ap, refl, sym, ◌∙◌, Bool, true, false, not, ◌&&◌, List, [], ◌∷◌, range, elem, ltb, ◌==◌,
  arith, inl, inr, eq_or_ne,
}
use pennylane_lightning.BitUtil.Sort.{IsDistinct}
use pennylane_lightning.Blocks.{elem-range, range-IsDistinct}
use pennylane_lightning.Util.{erase_equal, exclude, get_indices_after_exclusion}

-- Entries that are not j are kept.
erase_equal_absent :
    (skip : Bool) (j : ℕ) (indices : List ℕ)
    → elem j indices ≡ false
    → erase_equal skip j indices ≡ indices
unfolding erase_equal
erase_equal_absent skip j [] h = refl
erase_equal_absent skip j (i ∷ indices) h = ground (arith, erase_equal_absent false j indices)

elem-erase_equal :
    (n q j : ℕ) (indices : List ℕ)
    → IsDistinct n indices
    → elem q (erase_equal false j indices) ≡ (elem q indices && not (q == j))
unfolding erase_equal
elem-erase_equal n q j [] d = refl
elem-erase_equal n q j (i ∷ indices) d = elim (eq_or_ne j i) [
  | inl same ↦ ground (
    arith,
    ap (λ x. elem x indices) {x = j} {y = i} same,
    ap (λ x. elem x indices) {x = q} {y = i},
    erase_equal_absent true j indices,
  )
  | inr other ↦ ground (arith, elem-erase_equal n q j indices d.2)
]

erase_equal-IsDistinct :
    (n j : ℕ) (indices : List ℕ) → IsDistinct n indices → IsDistinct n (erase_equal false j indices)
unfolding erase_equal
erase_equal-IsDistinct n j [] d = tt
erase_equal-IsDistinct n j (i ∷ indices) d = elim (eq_or_ne j i) [
  | inl same ↦
      let rest : erase_equal false j (i ∷ indices) ≡ indices =
        ground (
          arith,
          ap (λ x. elem x indices) {x = j} {y = i} same,
          erase_equal_absent true j indices,
        ) in
      subst (IsDistinct n) (sym rest) d.2
  | inr other ↦
      let head : erase_equal false j (i ∷ indices) ≡ i ∷ erase_equal false j indices =
        ground arith in
      subst (IsDistinct n) (sym head) (
        d.0,
        elem-erase_equal n i j indices d.2 ∙ ground (arith, d.1),
        erase_equal-IsDistinct n j indices d.2,
      )
]

elem-exclude :
    (n q : ℕ) (js indices : List ℕ)
    → IsDistinct n indices
    → elem q (exclude js indices) ≡ (elem q indices && not (elem q js))
unfolding exclude
elem-exclude n q [] indices d = ground arith
elem-exclude n q (j ∷ js) indices d =
    elem-exclude n q js (erase_equal false j indices) (erase_equal-IsDistinct n j indices d)
    ∙ ground (arith, elem-erase_equal n q j indices d)

-- A wire is among the indices after exclusion exactly when it is below the number of qubits and not
-- excluded, and no wire is there twice.
pub get_indices_after_exclusion_lem :
    (js : List ℕ) (n : ℕ)
    → IsDistinct n (get_indices_after_exclusion js n)
      × ((q : ℕ) → elem q (get_indices_after_exclusion js n) ≡ (ltb q n && not (elem q js)))
unfolding get_indices_after_exclusion exclude
get_indices_after_exclusion_lem js n = (
  distinct js (range n) (range-IsDistinct n),
  λ q.
      elem-exclude n q js (range n) (range-IsDistinct n)
      ∙ ap (λ b. b && not (elem q js)) (elem-range q n),
)
  where
    distinct : (js indices : List ℕ) → IsDistinct n indices → IsDistinct n (exclude js indices)
    distinct [] indices d = d
    distinct (j ∷ js) indices d =
        distinct js (erase_equal false j indices) (erase_equal-IsDistinct n j indices d)
