-- ===== src/Lm/PatternCells.antt =====
-- The index patterns of the targets, with the offset of a round added, are the cells of its block.
use mathlib.Core.List.{map-append}
use native.Mathlib.Nat.{pow-suc}
use pennylane_lightning.Prelude.{
  ℕ, zero, suc, ◌+◌, ◌-◌, ◌/◌, ◌%◌, ◌^◌, ◌<◌, ◌≡◌, refl, ap, sym, ◌∙◌, Bool, true, false, ◌&&◌,
  ◌||◌, List, [], ◌∷◌, ◌++◌, map, arith, ◌==◌, elem, length, get_or, inl, inr, reversed, length-map,
  elem-append, lt_or_le,
}
use pennylane_lightning.Word.Bit.{bit}
use pennylane_lightning.BitUtil.Sort.{IsDistinct}
use pennylane_lightning.Blocks.{placed, placed-append, placed_miss, digits, length-digits}
use pennylane_lightning.Gate.{position, positions, targets}
use pennylane_lightning.Util.Patterns.{patterns, length-patterns}
use pennylane_lightning.Lm.Wires.{length-reversed, elem-positions}

-- Adding a power of two where a number has a zero sets that digit.
pub bit-add_pow : (p x q : ℕ) → bit x p ≡ false → bit (x + 2 ^ p) q ≡ (bit x q || (q == p))
unfolding bit
bit-add_pow zero x zero h = ground arith
bit-add_pow zero x (suc q) h =
    ap (λ t. bit t q) {x = (x + 1) / 2} {y = x / 2} (ground arith) ∙ ground arith
bit-add_pow (suc p) x zero h = ground (arith, pow-suc 2 p)
bit-add_pow (suc p) x (suc q) h =
    ap (λ t. bit t q) {x = (x + 2 ^ suc p) / 2} {y = x / 2 + 2 ^ p} (omega (arith, pow-suc 2 p))
    ∙ bit-add_pow p (x / 2) q h
    ∙ ground arith

-- The digits of a number with one more digit above.
digits-low : (m i : ℕ) → i < 2 ^ m → digits (suc m) i ≡ digits m i ++ false ∷ []
digits-low zero i h = ground arith
digits-low (suc m) i h =
    ap (λ bs. (i % 2 == 1) ∷ bs) (digits-low m (i / 2) (omega (arith, pow-suc 2 m)))

digits-high : (m i : ℕ) → i < 2 ^ m → digits (suc m) (i + 2 ^ m) ≡ digits m i ++ true ∷ []
digits-high zero i h = ground arith
digits-high (suc m) i h =
    ap (λ b. b ∷ digits (suc m) ((i + 2 ^ suc m) / 2)) {x = (i + 2 ^ suc m) % 2 == 1}
      {y = i % 2 == 1} (ap (λ t. t == 1) (omega (arith, pow-suc 2 m)))
    ∙ ap (λ t. (i % 2 == 1) ∷ digits (suc m) t) {x = (i + 2 ^ suc m) / 2} {y = i / 2 + 2 ^ m}
        (omega (arith, pow-suc 2 m))
    ∙ ap (λ bs. (i % 2 == 1) ∷ bs) (digits-high m (i / 2) (omega (arith, pow-suc 2 m)))

get_or-append_low : (xs ys : List ℕ) (i : ℕ) → i < length xs → get_or (xs ++ ys) i 0 ≡ get_or xs i 0
get_or-append_low [] ys i h = absurd (omega arith)
get_or-append_low (x ∷ xs) ys zero h = refl
get_or-append_low (x ∷ xs) ys (suc i) h = get_or-append_low xs ys i (omega arith)

get_or-map :
    (f : ℕ → ℕ) (ys : List ℕ) (i : ℕ) → i < length ys → get_or (map f ys) i 0 ≡ f (get_or ys i 0)
get_or-map f [] i h = absurd (omega arith)
get_or-map f (y ∷ ys) zero h = refl
get_or-map f (y ∷ ys) (suc i) h = get_or-map f ys i (omega arith)

get_or-append_map :
    (f : ℕ → ℕ) (xs ys : List ℕ) (i : ℕ)
    → i < length ys
    → get_or (xs ++ map f ys) (i + length xs) 0 ≡ f (get_or ys i 0)
get_or-append_map f [] ys i h =
    ap (λ t. get_or (map f ys) t 0) {x = i + 0} {y = i} (omega arith) ∙ get_or-map f ys i h
get_or-append_map f (x ∷ xs) ys i h =
    ap (λ t. get_or (x ∷ xs ++ map f ys) t 0) {x = i + suc (length xs)} {y = suc (i + length xs)}
      (omega arith)
    ∙ get_or-append_map f xs ys i h

pub length-targets : (n : ℕ) (ws : List ℕ) → length (targets n ws) ≡ length ws
length-targets n ws = omega (arith, length-map (reversed ws) (position n), length-reversed {0} ws)

targets_cons : (n w : ℕ) (ws : List ℕ) → targets n (w ∷ ws) ≡ targets n ws ++ position n w ∷ []
targets_cons n w ws = map-append (position n) (reversed ws) (w ∷ [])

-- A new highest digit of the targets.
placed_top :
    (n w : ℕ) (ws : List ℕ) (i : ℕ) (b : Bool) (q : ℕ)
    → placed (targets n (w ∷ ws)) (digits (length ws) i ++ b ∷ []) q false
      ≡ placed (targets n ws) (digits (length ws) i) q (q == position n w && b)
placed_top n w ws i b q =
    ap (λ ts. placed ts (digits (length ws) i ++ b ∷ []) q false) (targets_cons n w ws)
    ∙ placed-append (targets n ws) (position n w ∷ []) (digits (length ws) i) (b ∷ []) q false
        (length-digits (length ws) i ∙ sym (length-targets n ws))
    ∙ ap (placed (targets n ws) (digits (length ws) i) q) (ground arith)

pub elem-all_positions :
    (n q : ℕ) (ws : List ℕ) → elem q (positions n (reversed ws)) ≡ elem q (positions n ws)
elem-all_positions n q [] = refl
elem-all_positions n q (w ∷ ws) =
    ap (elem q) (targets_cons n w ws)
    ∙ ground (arith, elem-append q (targets n ws) (position n w ∷ []), elem-all_positions n q ws)

-- A pattern added to a number with zeros at the wires writes the digits of its number there.
pub bit-pattern :
    (n : ℕ) (ws : List ℕ) (i x q : ℕ)
    → IsDistinct n ws
    → i < 2 ^ length ws
    → ((p : ℕ) → elem p (positions n ws) ≡ true → bit x p ≡ false)
    → bit (get_or (patterns n ws) i 0 + x) q
      ≡ (bit x q || placed (targets n ws) (digits (length ws) i) q false)
bit-pattern n [] i x q d h zeros =
    ap (λ t. bit (get_or (0 ∷ []) t 0 + x) q) {x = i} {y = 0} (omega arith)
    ∙ ap (λ t. bit t q) {x = 0 + x} {y = x} (omega arith)
    ∙ ground arith
bit-pattern n (w ∷ ws) i x q d h zeros = elim (lt_or_le i (2 ^ length ws)) [
  | inl low ↦
      ap (λ t. bit (t + x) q)
        (get_or-append_low (patterns n ws) _ i (omega (arith, length-patterns n ws)))
      ∙ bit-pattern n ws i x q d.2 low (λ r on. zeros r (ground arith))
      ∙ ap (λ b. bit x q || b)
          (ap (placed (targets n ws) (digits (length ws) i) q) (ground arith)
            ∙ sym (placed_top n w ws i false q)
            ∙ ap (λ bs. placed (targets n (w ∷ ws)) bs q false)
                (sym (digits-low (length ws) i low)))
  | inr high ↦
      let m = length ws in
      let p = position n w in
      let top = i - 2 ^ m in
      let lt : top < 2 ^ m = omega (arith, pow-suc 2 m) in
      let is_top : i ≡ top + 2 ^ m = omega arith in
      let fresh : elem p (positions n ws) ≡ false = elem-positions n w ws d.0 d.2 ∙ d.1 in
      let zero_here : bit x p ≡ false = zeros p (ground arith) in
      ap (λ t. bit (get_or (patterns n (w ∷ ws)) t 0 + x) q) {x = i}
        {y = top + length (patterns n ws)} (omega (arith, length-patterns n ws))
      ∙ ap (λ t. bit (t + x) q)
          (get_or-append_map (λ t. t + 2 ^ p) (patterns n ws) (patterns n ws) top
            (omega (arith, length-patterns n ws)))
      ∙ ap (λ t. bit t q) {x = get_or (patterns n ws) top 0 + 2 ^ p + x}
          {y = get_or (patterns n ws) top 0 + (x + 2 ^ p)} (omega arith)
      ∙ bit-pattern n ws top (x + 2 ^ p) q d.2 lt (λ r on.
        bit-add_pow p x r zero_here
        ∙ ground (arith, zeros r, ap (λ t. elem t (positions n ws)) {x = r} {y = p}, fresh))
      ∙ ap (λ b. b || placed (targets n ws) (digits m top) q false) (bit-add_pow p x q zero_here)
      ∙ ground (
        arith,
        placed_miss (targets n ws) (digits m top) q false,
        placed_miss (targets n ws) (digits m top) q true,
        ap (λ t. elem t (targets n ws)) {x = q} {y = p},
        elem-all_positions n p ws,
        fresh,
      )
      ∙ ap (λ b. bit x q || b)
          (sym (placed_top n w ws top true q)
            ∙ ap (λ bs. placed (targets n (w ∷ ws)) bs q false)
                (sym (digits-high m top lt) ∙ ap (digits (suc m)) (sym is_top)))
]
