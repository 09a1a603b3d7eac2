-- ===== src/Blocks/Address.antt =====
-- An address is spelled by its digits at the wires and by its block.
use pennylane_lightning.Prelude.{
  ℕ, zero, suc, ◌+◌, ◌-◌, ◌*◌, ◌^◌, ◌≤◌, ◌<◌, ◌≡◌, refl, ap, sym, ◌∙◌, Bool, true, false, ◌&&◌,
  List, [], ◌∷◌, arith, ltb, ◌==◌, if◌then◌else◌, elem, length, lt_or_le, inl, inr, Bool-cases,
}
use pennylane_lightning.Word.Bit.{bit, bit-zero, bit_ext, bit_above, lt-pow_of_bits}
use pennylane_lightning.BitUtil.Sort.{
  sort, Ascends, IsDistinct, rank, sort-Ascends, elem-sort, rank-sort, length-sort,
}
use pennylane_lightning.Blocks.Skip.{
  skip, elem-skip, skip-rank, skip_sub_rank, rank-le, rank_above, rank_room, length-le,
}

-- The number below 2 ^ n with the digits f.
unfoldable pub of_bits : ℕ → (ℕ → Bool) → ℕ
of_bits zero f = 0
of_bits (suc n) f = 2 * of_bits n (λ i. f (suc i)) + (if f 0 then 1 else 0)

double-bit-suc : (d : ℕ) (b : Bool) (i : ℕ) → bit (2 * d + (if b then 1 else 0)) (suc i) ≡ bit d i
unfolding bit
double-bit-suc d true i = ap (λ t. bit t i) {y = d} (omega arith)
double-bit-suc d false i = ap (λ t. bit t i) {y = d} (omega arith)

double-bit_zero : (d : ℕ) (b : Bool) → bit (2 * d + (if b then 1 else 0)) 0 ≡ b
unfolding bit
double-bit_zero d b = ground arith

pub bit-of_bits : (n : ℕ) (f : ℕ → Bool) (i : ℕ) → bit (of_bits n f) i ≡ (ltb i n && f i)
unfolding of_bits
bit-of_bits zero f i = bit-zero i ∙ ground arith
bit-of_bits (suc n) f zero = double-bit_zero _ (f 0) ∙ ground arith
bit-of_bits (suc n) f (suc i) =
    double-bit-suc (of_bits n (λ j. f (suc j))) (f 0) i
    ∙ bit-of_bits n (λ j. f (suc j)) i
    ∙ ground arith

pub of_bits-lt : (n : ℕ) (f : ℕ → Bool) → of_bits n f < 2 ^ n
of_bits-lt n f = lt-pow_of_bits n _ (λ i h. bit-of_bits n f i ∙ ground arith)

-- The value that `values` give the position q by the list of wires; `d` if q is none of them.
abbrev pub placed : List ℕ → List Bool → ℕ → Bool → Bool
placed [] values q d = d
placed (w ∷ ws) [] q d = d
placed (w ∷ ws) (v ∷ values) q d = if q == w then v else placed ws values q d

-- The digits of x at the wires.
abbrev pub bits_at : List ℕ → ℕ → List Bool
bits_at [] x = []
bits_at (w ∷ ws) x = bit x w ∷ bits_at ws x

placed-bits_at :
    (q x : ℕ) (ws : List ℕ) → elem q ws ≡ true → placed ws (bits_at ws x) q false ≡ bit x q
placed-bits_at q x [] h = cc
placed-bits_at q x (w ∷ ws) h = ground (arith, placed-bits_at q x ws)

-- The block of an address of n digits: the number that its digits off the wires spell.
unfoldable pub block : ℕ → List ℕ → ℕ → ℕ
block n wires x = of_bits (n - length wires) (λ p. bit x (skip (sort wires) p))

-- x is the address of block k with `values` at the wires.
pub record IsAddress (wires : List ℕ) (values : List Bool) (k x : ℕ) : Type 0 where
  pub on_wires : (q : ℕ) → elem q wires ≡ true → bit x q ≡ placed wires values q false
  pub off_wires : (q : ℕ) → elem q wires ≡ false → bit x q ≡ bit k (q - rank wires q)

-- Two addresses of one block with the same digits at the wires are equal.
pub IsAddress-unique :
    (wires : List ℕ) (values : List Bool) (k x y : ℕ)
    → IsAddress wires values k x
    → IsAddress wires values k y
    → x ≡ y
IsAddress-unique wires values k x y a b = bit_ext x y λ q. elim (Bool-cases (elem q wires)) [
  | inl on ↦ a.on_wires q on ∙ sym (b.on_wires q on)
  | inr off ↦ a.off_wires q off ∙ sym (b.off_wires q off)
]

module _ (n : ℕ) (wires : List ℕ) (distinct : IsDistinct n wires) where
  ascends : Ascends 0 n (sort wires)
  ascends = sort-Ascends n wires distinct

  pub length_wires-le : length wires ≤ n
  length_wires-le = omega (arith, length-le 0 n (sort wires) ascends, length-sort wires)

  pub block-lt : (x : ℕ) → block n wires x < 2 ^ (n - length wires)
  unfolding block
  block-lt x = of_bits-lt (n - length wires) _

  -- No wire is at a position from n on.
  pub above_wires : (q : ℕ) → n ≤ q → (rank wires q ≡ length wires) × (elem q wires ≡ false)
  above_wires q h =
      let both = rank_above 0 n (sort wires) q ascends h in
      (sym (rank-sort q wires) ∙ both.0 ∙ length-sort wires, sym (elem-sort q wires) ∙ both.1)

  -- Every block has its addresses below 2 ^ n.
  pub address-lt :
      (values : List Bool) (k x : ℕ)
      → k < 2 ^ (n - length wires)
      → IsAddress wires values k x
      → x < 2 ^ n
  address-lt values k x hk a = lt-pow_of_bits n x λ q h.
      let above = above_wires q h in
      a.off_wires q above.1
      ∙ bit_above (n - length wires) k _ hk (omega (arith, above.0, length_wires-le))

  bit-skip :
      (values : List Bool) (k x : ℕ)
      → IsAddress wires values k x
      → (p : ℕ) → bit x (skip (sort wires) p) ≡ bit k p
  bit-skip values k x a p =
      let q : ℕ = skip (sort wires) p in
      a.off_wires q (sym (elem-sort q wires) ∙ elem-skip 0 n (sort wires) p ascends (omega arith))
      ∙ ap (bit k)
          (omega (arith, skip-rank 0 n (sort wires) p ascends (omega arith), rank-sort q wires))

  -- The block that an address of block k has is k.
  pub block-IsAddress :
      (values : List Bool) (k x : ℕ)
      → k < 2 ^ (n - length wires)
      → IsAddress wires values k x
      → block n wires x ≡ k
  unfolding block
  block-IsAddress values k x hk a = bit_ext _ _ λ p. ground (
    arith,
    bit-of_bits (n - length wires) (λ r. bit x (skip (sort wires) r)) p,
    bit-skip values k x a p,
    bit_above (n - length wires) k p hk,
  )

  -- Every address below 2 ^ n is one of its block.
  pub IsAddress-block : (x : ℕ) → x < 2 ^ n → IsAddress wires (bits_at wires x) (block n wires x) x
  unfolding block
  IsAddress-block x hx = record {
    on_wires = λ q on. sym (placed-bits_at q x wires on);
    off_wires = λ q off. elim (lt_or_le q n) [
      | inl inside ↦
          let sorted_off : elem q (sort wires) ≡ false = elem-sort q wires ∙ off in
          let room : q - rank wires q < n - length wires = omega (
            arith,
            rank_room 0 n (sort wires) q ascends inside sorted_off,
            rank-sort q wires,
            length-sort wires,
            rank-le 0 n (sort wires) q ascends,
          ) in
          ground (
            arith,
            bit-of_bits (n - length wires) (λ r. bit x (skip (sort wires) r)) (q - rank wires q),
            ap (λ t. bit x (skip (sort wires) (q - t))) (rank-sort q wires),
            ap (bit x) (skip_sub_rank 0 n (sort wires) q ascends (omega arith) sorted_off),
          )
      | inr outside ↦ ground (
        arith,
        above_wires q outside,
        bit_above n x q hx outside,
        bit-of_bits (n - length wires) (λ r. bit x (skip (sort wires) r)) (q - rank wires q),
      )
    ];
  }

-- The digits at distinct wires of an address are the values that it was given.
pub bits_at-IsAddress :
    (n : ℕ) (wires : List ℕ) (values : List Bool) (k x : ℕ)
    → IsDistinct n wires
    → length values ≡ length wires
    → IsAddress wires values k x
    → bits_at wires x ≡ values
bits_at-IsAddress n wires values k x d e a = go wires values d e (λ q h. a.on_wires q h)
  where
    go :
        (ws : List ℕ) (vs : List Bool)
        → IsDistinct n ws
        → length vs ≡ length ws
        → ((q : ℕ) → elem q ws ≡ true → bit x q ≡ placed ws vs q false)
        → bits_at ws x ≡ vs
    go [] [] d e h = refl
    go [] (v ∷ vs) d e h = absurd (omega arith)
    go (w ∷ ws) [] d e h = absurd (omega arith)
    go (w ∷ ws) (v ∷ vs) d e h =
        let head : bit x w ≡ v = ground (arith, h w) in
        let rest = go ws vs d.2 (omega arith) (λ q on. ground (arith, h q)) in ground arith
