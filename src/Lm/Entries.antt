-- ===== src/Lm/Entries.antt =====
-- The entries of parity2indices are the cells of one block, by the number of their digits at the
-- targets.
use pennylane_lightning.Prelude.{
  ℕ, zero, suc, ◌+◌, ◌-◌, ◌/◌, ◌^◌, ◌≤◌, ◌<◌, ◌≡◌, refl, ap, ◌∙◌, Bool, true, false, ◌&&◌, ◌||◌,
  not, List, [], ◌∷◌, ◌++◌, map, bit_and, bit_or, arith, ltb, ◌==◌, if◌then◌else◌, elem, length,
  get_or, range_from, inl, inr, length-append, Bool-cases,
}
use pennylane_lightning.Word.{shl}
use pennylane_lightning.Word.Bit.{bit, bit-zero, bit_ext, bit-bit_and, bit-bit_or}
use pennylane_lightning.Word.Shift.{bit-shl_one}
use pennylane_lightning.BitUtil.Sort.{IsDistinct}
use pennylane_lightning.Blocks.{
  placed, placed_miss, IsDistinct-right, digits, length-digits, length_wires-le,
}
use pennylane_lightning.Lm.Index.{or_masks, wire_shifts, inner_index, drop, preset, parity2indices}
use pennylane_lightning.Lm.Wires.{shl_one}
use pennylane_lightning.Lm.Spread.{IsDistinct-weaken}
use pennylane_lightning.Lm.Rounds.{IsBase, base_or-IsAddress}
use pennylane_lightning.Lm.CorrectN.{AreCells}

-- The test of one digit.
digit_test : (x i : ℕ) → i < 64 → (bit_and x (shl 1 i) == 0) ≡ not (bit x i)
digit_test x i h = elim (Bool-cases (bit x i)) [
  | inl one ↦
      let here : bit (bit_and x (shl 1 i)) i ≡ true =
        ground (arith, bit-bit_and x (shl 1 i) i, bit-shl_one i i) in
      ground (arith, bit-zero i, ap (λ t. bit t i) {x = bit_and x (shl 1 i)} {y = 0})
  | inr none ↦
      let same : bit_and x (shl 1 i) ≡ 0 = bit_ext _ _ λ q. ground (
        arith,
        bit-bit_and x (shl 1 i) q,
        bit-shl_one i q,
        bit-zero q,
        ap (bit x) {x = q} {y = i},
      ) in
      ground (arith, same)
]

-- The shifts of the wires at which `inner` has a one are or-ed in.
bit-inner_index :
    (inner s d x : ℕ) (ts : List ℕ) (q : ℕ)
    → IsDistinct 64 ts
    → s + length ts ≤ 64
    → ((p : ℕ) → bit d p ≡ bit inner (p + s))
    → bit (inner_index inner s x (wire_shifts [] ts)) q
      ≡ (bit x q || (ltb q 64 && placed ts (digits (length ts) d) q false))
unfolding inner_index bit
bit-inner_index inner s d x [] q dist h e = ground arith
bit-inner_index inner s d x (t ∷ ts) q dist h e =
    let chosen = if bit_and inner (shl 1 s) == 0 then x else bit_or x (shl 1 t) in
    bit-inner_index inner (s + 1) (d / 2) chosen ts q dist.2 (omega arith)
      (λ p. e (suc p) ∙ ap (bit inner) {x = suc p + s} {y = p + (s + 1)} (omega arith))
    ∙ ground (
      arith,
      digit_test inner s (omega arith),
      e 0,
      bit-bit_or x (shl 1 t) q,
      bit-shl_one t q,
      placed_miss ts (digits (length ts) (d / 2)) q false,
      ap (λ r. elem r ts) {x = q} {y = t},
      dist.1,
    )

placed_zero : (ts : List ℕ) (q : ℕ) → placed ts (digits (length ts) 0) q false ≡ false
placed_zero [] q = refl
placed_zero (t ∷ ts) q = ground (arith, placed_zero ts q)

-- The base of block k with the shifts of its digits: an entry of parity2indices.
abbrev pub entry : ℕ → List ℕ → ℕ → ℕ
entry first shifts zero = first
entry first shifts (suc i) = inner_index (suc i) 0 first shifts

module _ (n : ℕ) (hn : n < 64) (rs : List ℕ) (vs : List Bool) (ts : List ℕ)
    (distinct : IsDistinct n (rs ++ ts)) (paired : length vs ≡ length rs) (k x : ℕ)
    (hk : k < 2 ^ (n - length (rs ++ ts))) (base : IsBase rs vs ts k x) where
  pub entry-AreCells : AreCells rs vs ts k (entry x (wire_shifts [] ts))
  entry-AreCells zero h =
      base_or-IsAddress n rs vs ts hn distinct paired k x hk base (digits (length ts) 0) x
        (length-digits (length ts) 0) λ q. ground (arith, placed_zero ts q)
  entry-AreCells (suc i) h =
      base_or-IsAddress n rs vs ts hn distinct paired k x hk base (digits (length ts) (suc i)) _
        (length-digits (length ts) (suc i))
        λ q.
          bit-inner_index (suc i) 0 (suc i) x ts q
            (IsDistinct-weaken n 64 ts (omega arith) (IsDistinct-right n rs ts distinct))
            (omega (arith, length_wires-le n (rs ++ ts) distinct, length-append rs ts))
            (λ p. ap (bit (suc i)) {x = p} {y = p + 0} (omega arith))

get_or-map_range : (f : ℕ → ℕ) (i m p : ℕ) → p < m → get_or (map f (range_from i m)) p 0 ≡ f (i + p)
get_or-map_range f i zero p h = absurd (omega arith)
get_or-map_range f i (suc m) zero h = ap f (omega arith)
get_or-map_range f i (suc m) (suc p) h =
    get_or-map_range f (suc i) m p (omega arith)
    ∙ ap f {x = suc i + p} {y = i + suc p} (omega arith)

drop-wire_shifts :
    (rs ts : List ℕ) (vs : List Bool)
    → length vs ≡ length rs
    → drop (length rs) (wire_shifts vs (rs ++ ts)) ≡ wire_shifts [] ts
drop-wire_shifts [] ts [] e = refl
drop-wire_shifts [] ts (v ∷ vs) e = absurd (omega arith)
drop-wire_shifts (r ∷ rs) ts [] e = absurd (omega arith)
drop-wire_shifts (r ∷ rs) ts (v ∷ vs) e = drop-wire_shifts rs ts vs (omega arith)

pub length-wire_shifts : (vs : List Bool) (ts : List ℕ) → length (wire_shifts vs ts) ≡ length ts
length-wire_shifts vs [] = ground arith
length-wire_shifts [] (t ∷ ts) = ap suc (length-wire_shifts [] ts)
length-wire_shifts (v ∷ vs) (t ∷ ts) = ap suc (length-wire_shifts vs ts)

-- What parity2indices lists, from its first entry.
pub get_or-parity2indices :
    (k : ℕ) (parity : List ℕ) (rs ts : List ℕ) (vs : List Bool) (rev_wires : List ℕ) (i : ℕ)
    → length vs ≡ length rs
    → length ts < 64
    → i < 2 ^ length ts
    → get_or (parity2indices k parity (wire_shifts vs (rs ++ ts)) (length rs) rev_wires) i 0
      ≡ entry
          (preset (length rs) rev_wires (wire_shifts vs (rs ++ ts)) (or_masks k 0 0 parity))
          (wire_shifts [] ts)
          i
unfolding parity2indices
get_or-parity2indices k parity rs ts vs rev_wires zero e hm h = refl
get_or-parity2indices k parity rs ts vs rev_wires (suc i) e hm h =
    let shifts = wire_shifts vs (rs ++ ts) in
    let first = preset (length rs) rev_wires shifts (or_masks k 0 0 parity) in
    let dim : shl 1 (length shifts - length rs) ≡ 2 ^ length ts =
      ap (shl 1) {x = length shifts - length rs} {y = length ts}
        (omega (arith, length-wire_shifts vs (rs ++ ts), length-append rs ts))
      ∙ shl_one (length ts) hm in
    get_or-map_range (λ inner. inner_index inner 0 first (drop (length rs) shifts)) 1
      (shl 1 (length shifts - length rs) - 1) i (omega (arith, dim))
    ∙ ap (λ t. inner_index t 0 first (drop (length rs) shifts)) {x = 1 + i} {y = suc i}
        (omega arith)
    ∙ ap (inner_index (suc i) 0 first) (drop-wire_shifts rs ts vs e)
