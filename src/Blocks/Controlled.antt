-- ===== src/Blocks/Controlled.antt =====
-- The blocks of a gate with control and target wires: the addresses whose digits at the controls
-- are the control values. The cells of a block differ at the targets only.
use pennylane_lightning.Prelude.{
  ℕ, suc, ◌-◌, ◌^◌, ◌<◌, ◌≡◌, refl, ap, sym, ◌∙◌, Bool, true, false, ◌&&◌, not, xor, Option, none,
  some, List, [], ◌∷◌, ◌++◌, arith, ltb, ◌==◌, if◌then◌else◌, elem, length, elem-append, lt→ltb,
  ltb→lt, lt_or_le, inl, inr, Bool-cases,
}
use mathlib.Core.Path.{subst}
use pennylane_lightning.Word.Bit.{bit, bit_ext, bit_above}
use pennylane_lightning.BitUtil.Sort.{IsDistinct, rank}
use pennylane_lightning.Blocks.Address.{
  of_bits, bit-of_bits, of_bits-lt, placed, bits_at, block, IsAddress, address-lt, block-IsAddress,
  IsAddress-block, block-lt,
}

-- Do the digits of x at the controls have the control values?
abbrev pub controls_match : List ℕ → List Bool → ℕ → Bool
controls_match [] values x = true
controls_match (r ∷ rs) [] x = true
controls_match (r ∷ rs) (v ∷ values) x = not (xor (bit x r) v) && controls_match rs values x

-- The block of a gate that the cell x belongs to: none if the controls do not match.
abbrev pub owner : ℕ → List ℕ → List Bool → List ℕ → ℕ → Option ℕ
owner n controls values targets x =
    if ltb x (2 ^ n) && controls_match controls values x
    then some (block n (controls ++ targets) x)
    else none

-- x with other digits at the given wires.
unfoldable pub with_bits : ℕ → List ℕ → List Bool → ℕ → ℕ
with_bits n wires bs x = of_bits n (λ q. placed wires bs q (bit x q))

pub bit-with_bits :
    (n : ℕ) (wires : List ℕ) (bs : List Bool) (x q : ℕ)
    → bit (with_bits n wires bs x) q ≡ (ltb q n && placed wires bs q (bit x q))
unfolding with_bits
bit-with_bits n wires bs x q = bit-of_bits n (λ r. placed wires bs r (bit x r)) q

pub with_bits-lt :
    (n : ℕ) (wires : List ℕ) (bs : List Bool) (x : ℕ) → with_bits n wires bs x < 2 ^ n
unfolding with_bits
with_bits-lt n wires bs x = of_bits-lt n (λ r. placed wires bs r (bit x r))

pub placed-append :
    (rs ts : List ℕ) (vs bs : List Bool) (q : ℕ) (d : Bool)
    → length vs ≡ length rs
    → placed (rs ++ ts) (vs ++ bs) q d ≡ placed rs vs q (placed ts bs q d)
placed-append [] ts [] bs q d e = refl
placed-append [] ts (v ∷ vs) bs q d e = absurd (omega arith)
placed-append (r ∷ rs) ts [] bs q d e = absurd (omega arith)
placed-append (r ∷ rs) ts (v ∷ vs) bs q d e = ground (arith, placed-append rs ts vs bs q d)

-- What is placed at a wire does not depend on the default, and off the wires it is the default.
pub placed_miss :
    (rs : List ℕ) (vs : List Bool) (q : ℕ) (d : Bool) → elem q rs ≡ false → placed rs vs q d ≡ d
placed_miss [] vs q d h = refl
placed_miss (r ∷ rs) [] q d h = refl
placed_miss (r ∷ rs) (v ∷ vs) q d h = ground (arith, placed_miss rs vs q d)

pub placed_hit :
    (rs : List ℕ) (vs : List Bool) (q : ℕ) (d d' : Bool)
    → length vs ≡ length rs
    → elem q rs ≡ true
    → placed rs vs q d ≡ placed rs vs q d'
placed_hit [] vs q d d' e h = cc
placed_hit (r ∷ rs) [] q d d' e h = absurd (omega arith)
placed_hit (r ∷ rs) (v ∷ vs) q d d' e h = ground (arith, placed_hit rs vs q d d')

pub placed-match :
    (rs : List ℕ) (vs : List Bool) (x q : ℕ) (d : Bool)
    → length vs ≡ length rs
    → controls_match rs vs x ≡ true
    → elem q rs ≡ true
    → placed rs vs q d ≡ bit x q
placed-match [] vs x q d e m h = cc
placed-match (r ∷ rs) [] x q d e m h = absurd (omega arith)
placed-match (r ∷ rs) (v ∷ vs) x q d e m h = ground (arith, placed-match rs vs x q d)

pub match-placed :
    (n : ℕ) (rs : List ℕ) (vs : List Bool) (x : ℕ)
    → IsDistinct n rs
    → ((q : ℕ) → elem q rs ≡ true → bit x q ≡ placed rs vs q false)
    → controls_match rs vs x ≡ true
match-placed n [] vs x d h = refl
match-placed n (r ∷ rs) [] x d h = refl
match-placed n (r ∷ rs) (v ∷ vs) x d h =
    let rest = match-placed n rs vs x d.2 (λ q on. ground (arith, h q)) in ground (arith, h r)

pub IsDistinct-left : (n : ℕ) (xs ys : List ℕ) → IsDistinct n (xs ++ ys) → IsDistinct n xs
IsDistinct-left n [] ys d = tt
IsDistinct-left n (x ∷ xs) ys d =
    (d.0, ground (arith, elem-append x xs ys), IsDistinct-left n xs ys d.2)

pub IsDistinct-right : (n : ℕ) (xs ys : List ℕ) → IsDistinct n (xs ++ ys) → IsDistinct n ys
IsDistinct-right n [] ys d = d
IsDistinct-right n (x ∷ xs) ys d = IsDistinct-right n xs ys d.2

pub IsDistinct-below : (n q : ℕ) (xs : List ℕ) → IsDistinct n xs → elem q xs ≡ true → q < n
IsDistinct-below n q [] d h = cc
IsDistinct-below n q (x ∷ xs) d h = ground (arith, IsDistinct-below n q xs d.2)

pub IsDistinct-apart :
    (n : ℕ) (xs ys : List ℕ) (q : ℕ)
    → IsDistinct n (xs ++ ys)
    → elem q xs ≡ true
    → elem q ys ≡ false
IsDistinct-apart n [] ys q d h = cc
IsDistinct-apart n (x ∷ xs) ys q d h = elim (Bool-cases (q == x)) [
  | inl same ↦
      ap (λ t. elem t ys) {x = q} {y = x} (ground arith) ∙ ground (arith, d.1, elem-append x xs ys)
  | inr other ↦ IsDistinct-apart n xs ys q d.2 (ground arith)
]

pub below_digit : (n x q : ℕ) → x < 2 ^ n → (ltb q n && bit x q) ≡ bit x q
below_digit n x q h = elim (lt_or_le q n) [
  | inl below ↦ ground arith
  | inr above ↦ ground (arith, bit_above n x q h above)
]

placed_self : (ws : List ℕ) (x q : ℕ) → placed ws (bits_at ws x) q (bit x q) ≡ bit x q
placed_self [] x q = refl
placed_self (w ∷ ws) x q = ground (arith, placed_self ws x q)

-- Writing its own digits at wires changes no address.
pub with_bits_self : (n : ℕ) (ws : List ℕ) (x : ℕ) → x < 2 ^ n → with_bits n ws (bits_at ws x) x ≡ x
unfolding with_bits
with_bits_self n ws x h =
    bit_ext _ _
      λ q. bit-of_bits n _ q ∙ ap (λ t. ltb q n && t) (placed_self ws x q) ∙ below_digit n x q h

length-bits_at : (ws : List ℕ) (x : ℕ) → length (bits_at ws x) ≡ length ws
length-bits_at [] x = refl
length-bits_at (w ∷ ws) x = ap suc (length-bits_at ws x)

absurd_bool : {A : Type 0} → true ≡ false → A
absurd_bool e = cc

module _ (n : ℕ) (controls : List ℕ) (values : List Bool) (targets : List ℕ)
    (distinct : IsDistinct n (controls ++ targets)) (paired : length values ≡ length controls) where
  -- A cell of the block k with any digits at the targets belongs to the block k.
  pub owner-IsAddress :
      (bs : List Bool) (k x : ℕ)
      → k < 2 ^ (n - length (controls ++ targets))
      → IsAddress (controls ++ targets) (values ++ bs) k x
      → owner n controls values targets x ≡ some k
  owner-IsAddress bs k x hk a =
      let small = address-lt n (controls ++ targets) distinct (values ++ bs) k x hk a in
      let of_block = block-IsAddress n (controls ++ targets) distinct (values ++ bs) k x hk a in
      let match =
        match-placed n controls values x (IsDistinct-left n controls targets distinct) λ q on.
          a.on_wires q (ground (arith, elem-append q controls targets))
          ∙ placed-append controls targets values bs q false paired
          ∙ placed_hit controls values q _ false paired on in
      ground (arith, lt→ltb x (2 ^ n))

  -- A cell of block k is an address, has the control values, and has the block number k.
  pub owned :
      (k x : ℕ)
      → owner n controls values targets x ≡ some k
      → (x < 2 ^ n)
        × (controls_match controls values x ≡ true)
        × (block n (controls ++ targets) x ≡ k)
  owned k x own = (ltb→lt x (2 ^ n) (ground arith), ground arith, ground arith)

  -- Changing the digits at the targets of a cell leads to a cell of the same block.
  pub IsAddress-with_bits :
      (bs : List Bool) (k x : ℕ)
      → length bs ≡ length targets
      → owner n controls values targets x ≡ some k
      → IsAddress (controls ++ targets) (values ++ bs) k (with_bits n targets bs x)
  IsAddress-with_bits bs k x e own = record {
    on_wires = λ q on. elim (Bool-cases (elem q controls)) [
      | inl control ↦
          let apart = IsDistinct-apart n controls targets q distinct control in
          bit-with_bits n targets bs x q
          ∙ ground (
            arith,
            IsDistinct-below n q (controls ++ targets) distinct on,
            placed_miss targets bs q (bit x q) apart,
            placed-append controls targets values bs q false paired,
            placed-match controls values x q (placed targets bs q false) paired (owned k x own).1
                control,
          )
      | inr free ↦
          let target : elem q targets ≡ true = ground (arith, elem-append q controls targets) in
          bit-with_bits n targets bs x q
          ∙ ground (
            arith,
            IsDistinct-below n q (controls ++ targets) distinct on,
            placed-append controls targets values bs q false paired,
            placed_miss controls values q (placed targets bs q false) free,
            placed_hit targets bs q (bit x q) false e target,
          )
    ];
    off_wires = λ q off.
        let facts = owned k x own in
        let a = IsAddress-block n (controls ++ targets) distinct x facts.0 in
        let free : elem q targets ≡ false = ground (arith, elem-append q controls targets) in
        bit-with_bits n targets bs x q
        ∙ ap (λ t. ltb q n && t) (placed_miss targets bs q (bit x q) free)
        ∙ below_digit n x q facts.0
        ∙ a.off_wires q off
        ∙ ap (λ t. bit t (q - rank (controls ++ targets) q)) facts.2;
  }

  -- A cell is the one of its block with its own digits at the targets.
  pub IsAddress-own :
      (k x : ℕ)
      → owner n controls values targets x ≡ some k
      → IsAddress (controls ++ targets) (values ++ bits_at targets x) k x
  IsAddress-own k x own =
      subst (λ y. IsAddress (controls ++ targets) (values ++ bits_at targets x) k y)
        (with_bits_self n targets x (owned k x own).0)
        (IsAddress-with_bits (bits_at targets x) k x (length-bits_at targets x) own)

  -- Block numbers are below the number of blocks.
  pub owned-lt :
      (k x : ℕ)
      → owner n controls values targets x ≡ some k
      → k < 2 ^ (n - length (controls ++ targets))
  owned-lt k x own = rw (sym (owned k x own).2) (block-lt n (controls ++ targets) distinct x)

  -- The other cells of a block belong to it.
  pub owner-with_bits :
      (bs : List Bool) (k x : ℕ)
      → length bs ≡ length targets
      → owner n controls values targets x ≡ some k
      → owner n controls values targets (with_bits n targets bs x) ≡ some k
  owner-with_bits bs k x e own =
      owner-IsAddress bs k _ (owned-lt k x own) (IsAddress-with_bits bs k x e own)

  -- The digits at the targets of a cell.
  pub bit-target :
      (bs : List Bool) (k x q : ℕ)
      → IsAddress (controls ++ targets) (values ++ bs) k x
      → elem q targets ≡ true
      → bit x q ≡ placed targets bs q false
  bit-target bs k x q a h =
      let free : elem q controls ≡ false = elim (Bool-cases (elem q controls)) [
        | inl on ↦ absurd_bool (sym h ∙ IsDistinct-apart n controls targets q distinct on)
        | inr off ↦ off
      ] in
      a.on_wires q (ground (arith, elem-append q controls targets))
      ∙ placed-append controls targets values bs q false paired
      ∙ placed_miss controls values q (placed targets bs q false) free
