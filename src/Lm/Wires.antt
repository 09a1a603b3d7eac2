-- ===== src/Lm/Wires.antt =====
-- The positions that reverseWires computes: those of the wires, distinct if the wires are.
use mathlib.Core.List.{map-append}
use pennylane_lightning.Prelude.{
  ℕ, ◌^◌, ◌<◌, ◌≡◌, refl, ap, ◌∙◌, Bool, false, ◌&&◌, not, xor, List, [], ◌∷◌, ◌++◌, map, arith,
  elem, length, length-map, length-append, elem-append, reversed,
}
use native.Mathlib.Nat.{pow-le-pow_right, mod-eq_of_lt}
use pennylane_lightning.Word.{shl, sub}
use pennylane_lightning.Word.Bit.{bit}
use pennylane_lightning.BitUtil.Sort.{IsDistinct}
use pennylane_lightning.Blocks.{controls_match}
use pennylane_lightning.Gate.{position, positions}
use pennylane_lightning.Lm.Index.{reverse_wires, wire_shifts}

pub shl_one : (m : ℕ) → m < 64 → shl 1 m ≡ 2 ^ m
unfolding shl
shl_one m h =
    mod-eq_of_lt
      (omega (arith, pow-le-pow_right {n = 2} (omega arith) {i = m} {j = 63} (omega arith)))
    ∙ omega arith

pub rev_position : (n w : ℕ) → n < 64 → w < n → sub (sub n 1) w ≡ position n w
unfolding sub
rev_position n w hn h = omega arith

pub rev_position' : (n w : ℕ) → n < 64 → w < n → sub (sub n w) 1 ≡ position n w
unfolding sub
rev_position' n w hn h = omega arith

map-rev :
    (n : ℕ) (ws : List ℕ)
    → n < 64
    → IsDistinct n ws
    → map (λ w. sub (sub n 1) w) ws ≡ positions n ws
map-rev n [] hn d = refl
map-rev n (w ∷ ws) hn d = ground (arith, rev_position n w hn d.0, map-rev n ws hn d.2)

pub elem-positions :
    (n w : ℕ) (ws : List ℕ)
    → w < n
    → IsDistinct n ws
    → elem (position n w) (positions n ws) ≡ elem w ws
elem-positions n w [] h d = refl
elem-positions n w (x ∷ ws) h d = ground (arith, elem-positions n w ws h d.2)

pub positions-IsDistinct : (n : ℕ) (ws : List ℕ) → IsDistinct n ws → IsDistinct n (positions n ws)
positions-IsDistinct n [] d = tt
positions-IsDistinct n (w ∷ ws) d =
    (omega arith, elem-positions n w ws d.0 d.2 ∙ d.1, positions-IsDistinct n ws d.2)

pub elem-reversed : (w : ℕ) (ws : List ℕ) → elem w (reversed ws) ≡ elem w ws
elem-reversed w [] = refl
elem-reversed w (x ∷ ws) = ground (arith, elem-append w (reversed ws) (x ∷ []), elem-reversed w ws)

IsDistinct-snoc :
    (n w : ℕ) (ws : List ℕ)
    → w < n
    → elem w ws ≡ false
    → IsDistinct n ws
    → IsDistinct n (ws ++ w ∷ [])
IsDistinct-snoc n w [] h e d = (h, refl, tt)
IsDistinct-snoc n w (x ∷ ws) h e d =
    (d.0, ground (arith, elem-append x ws (w ∷ [])), IsDistinct-snoc n w ws h (ground arith) d.2)

pub reversed-IsDistinct : (n : ℕ) (ws : List ℕ) → IsDistinct n ws → IsDistinct n (reversed ws)
reversed-IsDistinct n [] d = tt
reversed-IsDistinct n (w ∷ ws) d =
    IsDistinct-snoc n w (reversed ws) d.0 (elem-reversed w ws ∙ d.1) (reversed-IsDistinct n ws d.2)

pub length-reversed {ℓ} : {A : Type ℓ} (xs : List A) → length (reversed xs) ≡ length xs
length-reversed [] = refl
length-reversed (x ∷ xs) = omega (arith, length-append (reversed xs) (x ∷ []), length-reversed xs)

pub reverse_wires_lem :
    (n : ℕ) (all : List ℕ) (values : List Bool)
    → n < 64
    → IsDistinct n all
    → reverse_wires n all values
      ≡ (positions n (reversed all), wire_shifts (reversed values) (positions n (reversed all)))
unfolding reverse_wires
reverse_wires_lem n all values hn d =
    ap (λ t. (t, wire_shifts (reversed values) t))
      (map-rev n (reversed all) hn (reversed-IsDistinct n all d))

pub length-reversed_pair :
    (n : ℕ) (cs : List ℕ) (vs : List Bool)
    → length vs ≡ length cs
    → length (reversed vs) ≡ length (positions n (reversed cs))
length-reversed_pair n cs vs e =
    omega
      (arith, length-reversed {0} vs, length-reversed {0} cs, length-map (reversed cs) (position n))

controls_match-snoc :
    (rs : List ℕ) (vs : List Bool) (r : ℕ) (v : Bool) (x : ℕ)
    → length vs ≡ length rs
    → controls_match (rs ++ r ∷ []) (vs ++ v ∷ []) x
      ≡ (not (xor (bit x r) v) && controls_match rs vs x)
controls_match-snoc [] [] r v x e = refl
controls_match-snoc [] (w ∷ vs) r v x e = absurd (omega arith)
controls_match-snoc (q ∷ rs) [] r v x e = absurd (omega arith)
controls_match-snoc (q ∷ rs) (w ∷ vs) r v x e = ground (arith, controls_match-snoc rs vs r v x)

-- The controls match in either order.
pub controls_match-reversed :
    (n : ℕ) (cs : List ℕ) (vs : List Bool) (x : ℕ)
    → length vs ≡ length cs
    → controls_match (positions n (reversed cs)) (reversed vs) x
      ≡ controls_match (positions n cs) vs x
controls_match-reversed n [] [] x e = refl
controls_match-reversed n [] (v ∷ vs) x e = absurd (omega arith)
controls_match-reversed n (c ∷ cs) [] x e = absurd (omega arith)
controls_match-reversed n (c ∷ cs) (v ∷ vs) x e =
    ap (λ t. controls_match t (reversed vs ++ v ∷ []) x)
      (map-append (position n) (reversed cs) (c ∷ []))
    ∙ controls_match-snoc (positions n (reversed cs)) (reversed vs) (position n c) v x
        (length-reversed_pair n cs vs (omega arith))
    ∙ ap (λ t. not (xor (bit x (position n c)) v) && t)
        (controls_match-reversed n cs vs x (omega arith))
