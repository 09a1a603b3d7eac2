-- ===== src/Lm/ControlMask.antt =====
-- The mask of control values that the generators compare with the high digits of an entry's number.
use pennylane_lightning.Prelude.{
  ℕ, zero, suc, ◌+◌, ◌-◌, ◌*◌, ◌/◌, ◌^◌, ◌<◌, ◌≤◌, ◌≡◌, refl, ap, sym, ◌∙◌, Bool, true, false, ◌&&◌,
  ◌||◌, List, [], ◌∷◌, ◌++◌, arith, ltb, leb, ◌==◌, if◌then◌else◌, length, get_or, range_from,
  reversed, bit_or, lt_or_le, inl, inr,
}
use pennylane_lightning.Word.{shl, sub}
use pennylane_lightning.Word.Bit.{bit, bit_ext, bit-zero, bit-bit_or, bit-pow}
use pennylane_lightning.Memory.{for_each}
use pennylane_lightning.Blocks.{spelled}
use pennylane_lightning.Lm.Index.{to_word}
use pennylane_lightning.Lm.Wires.{length-reversed}
use pennylane_lightning.Lm.PatternCells.{bit-add_pow}
use pennylane_lightning.Lm.Presets.{bit-shifted_value}
use pennylane_lightning.Lm.Generate.{control_mask}

-- Or-ing a digit in for each round.
bit-or_loop :
    (f : ℕ → Bool) (i m x q : ℕ)
    → i + m ≤ 64
    → bit (for_each (range_from i m) (λ k mask. bit_or mask (shl (to_word (f k)) k)) x) q
      ≡ (bit x q || (leb i q && (ltb q (i + m) && f q)))
unfolding for_each
bit-or_loop f i zero x q h = ground arith
bit-or_loop f i (suc m) x q h =
    bit-or_loop f (suc i) m (bit_or x (shl (to_word (f i)) i)) q (omega arith)
    ∙ ground (
      arith,
      bit-bit_or x (shl (to_word (f i)) i) q,
      bit-shifted_value (f i) i q,
      ap f {x = i} {y = q},
    )

bit-spelled : (vs : List Bool) (q : ℕ) → bit (spelled vs) q ≡ get_or vs q false
unfolding bit
bit-spelled [] q = bit-zero q
bit-spelled (true ∷ vs) zero = ground arith
bit-spelled (false ∷ vs) zero = ground arith
bit-spelled (true ∷ vs) (suc q) =
    ap (λ t. bit t q) {x = (1 + 2 * spelled vs) / 2} {y = spelled vs} (omega arith)
    ∙ bit-spelled vs q
bit-spelled (false ∷ vs) (suc q) =
    ap (λ t. bit t q) {x = (0 + 2 * spelled vs) / 2} {y = spelled vs} (omega arith)
    ∙ bit-spelled vs q

get_or-snoc :
    (vs : List Bool) (v : Bool) (k : ℕ)
    → get_or (vs ++ v ∷ []) k false ≡ (if k == length vs then v else get_or vs k false)
get_or-snoc [] v zero = refl
get_or-snoc [] v (suc k) = ground arith
get_or-snoc (w ∷ vs) v zero = ground arith
get_or-snoc (w ∷ vs) v (suc k) = get_or-snoc vs v k ∙ ground arith

get_or-reversed :
    (vs : List Bool) (k : ℕ)
    → k < length vs
    → get_or (reversed vs) k false ≡ get_or vs (length vs - 1 - k) false
get_or-reversed [] k h = absurd (omega arith)
get_or-reversed (v ∷ vs) k h = get_or-snoc (reversed vs) v k ∙ elim (lt_or_le k (length vs)) [
  | inl below ↦
      ground (arith, length-reversed {0} vs, get_or-reversed vs k)
      ∙ ap (λ t. get_or (v ∷ vs) t false) {x = suc (length vs - 1 - k)}
          {y = suc (length vs) - 1 - k} (omega arith)
  | inr last ↦ ground (
    arith,
    length-reversed {0} vs,
    ap (λ t. get_or (v ∷ vs) t false) {x = 0} {y = suc (length vs) - 1 - k},
  )
]

get_or-beyond : (vs : List Bool) (k : ℕ) → length vs ≤ k → get_or vs k false ≡ false
get_or-beyond [] k h = refl
get_or-beyond (v ∷ vs) zero h = absurd (omega arith)
get_or-beyond (v ∷ vs) (suc k) h = get_or-beyond vs k (omega arith)

sub_place : (n k : ℕ) → n < 64 → k < n → sub (sub n 1) k ≡ n - 1 - k
unfolding sub
sub_place n k hn h = omega arith

-- The mask is the number that the control values spell, the last the lowest digit.
pub control_mask-spelled :
    (vs : List Bool) → length vs < 64 → control_mask (length vs) vs ≡ spelled (reversed vs)
unfolding control_mask
control_mask-spelled vs h = bit_ext _ _ λ q.
    bit-or_loop (λ k. get_or vs (sub (sub (length vs) 1) k) false) 0 (length vs) 0 q (omega arith)
    ∙ elim (lt_or_le q (length vs)) [
      | inl below ↦ ground (
        arith,
        bit-zero q,
        ap (λ t. get_or vs t false) (sub_place (length vs) q h below),
        get_or-reversed vs q below,
        bit-spelled (reversed vs) q,
      )
      | inr above ↦ ground (
        arith,
        bit-zero q,
        bit-spelled (reversed vs) q,
        get_or-beyond (reversed vs) q (omega (arith, length-reversed {0} vs)),
      )
    ]

-- Or-ing a power of two in where a number has a zero adds it.
pub bit_or-pow : (p x : ℕ) → bit x p ≡ false → bit_or x (2 ^ p) ≡ x + 2 ^ p
bit_or-pow p x h =
    bit_ext _ _
      λ q. bit-bit_or x (2 ^ p) q ∙ ap (λ b. bit x q || b) (bit-pow p q) ∙ sym (bit-add_pow p x q h)
