-- ===== src/Gate/Laws.antt =====
-- Laws of the abstract gates: two gates on the same wires compose digit by digit, and a gate on two
-- wires that acts only when the first digit is one is a gate with a control.
use mathlib.Core.Path.{ap₂}
use pennylane_lightning.Prelude.{
  ℕ, ◌^◌, ◌<◌, ◌≡◌, ◌≢◌, refl, ap, sym, ◌∙◌, fun_ext, Bool, true, false, ◌&&◌, not, xor, List, [],
  ◌∷◌, arith, ltb, if◌then◌else◌, elem, inl, inr, Bool-cases, lt→ltb, ltb→lt,
}
use pennylane_lightning.Word.Bit.{bit, bit_ext}
use pennylane_lightning.BitUtil.Sort.{IsDistinct}
use pennylane_lightning.Memory.{Arr}
use pennylane_lightning.Blocks.{controls_match, with_bits, bit-with_bits, with_bits-lt, below_digit}
use pennylane_lightning.Gate.{
  position, positions, active, Update1, flip1, gate1, Update2, flip2, gate2,
}

-- Digits at a position below n that is no control do not change whether the controls match.
controls_match-flip :
    (n t : ℕ) (b : Bool) (rs : List ℕ) (vs : List Bool) (x : ℕ)
    → elem t rs ≡ false
    → IsDistinct n rs
    → controls_match rs vs (with_bits n (t ∷ []) (b ∷ []) x) ≡ controls_match rs vs x
controls_match-flip n t b [] vs x h d = refl
controls_match-flip n t b (r ∷ rs) [] x h d = refl
controls_match-flip n t b (r ∷ rs) (v ∷ vs) x h d =
    ap₂ (λ p q. not (xor p v) && q)
      (bit-with_bits n (t ∷ []) (b ∷ []) x r ∙ ground (arith, lt→ltb r n d.0))
      (controls_match-flip n t b rs vs x (ground arith) d.2)

-- A gate at a basis state whose controls match, and at another.
pub gate1_on :
    {A : Type 0} (n : ℕ) (cs : List ℕ) (vs : List Bool) (w : ℕ) (f : Update1 A) (arr : Arr A)
    (j : ℕ)
    → active n cs vs j ≡ true
    → gate1 n cs vs w f arr j
      ≡ f (bit j (position n w)) (arr (flip1 n w false j)) (arr (flip1 n w true j))
unfolding gate1
gate1_on n cs vs w f arr j h =
    ap
      (λ b.
        if b
        then f (bit j (position n w)) (arr (flip1 n w false j)) (arr (flip1 n w true j))
        else arr j)
      h

pub gate1_off :
    {A : Type 0} (n : ℕ) (cs : List ℕ) (vs : List Bool) (w : ℕ) (f : Update1 A) (arr : Arr A)
    (j : ℕ)
    → active n cs vs j ≡ false
    → gate1 n cs vs w f arr j ≡ arr j
unfolding gate1
gate1_off n cs vs w f arr j h =
    ap
      (λ b.
        if b
        then f (bit j (position n w)) (arr (flip1 n w false j)) (arr (flip1 n w true j))
        else arr j)
      h

-- A basis state with its own digit at a wire.
pub flip1_own :
    (n w : ℕ) (b : Bool) (j : ℕ) → bit j (position n w) ≡ b → j < 2 ^ n → flip1 n w b j ≡ j
flip1_own n w b j e h =
    bit_ext _ _
      λ q. bit-with_bits n (position n w ∷ []) (b ∷ []) j q ∙ ground (arith, below_digit n j q h)

module _ (n w : ℕ) (cs : List ℕ) (vs : List Bool) (hw : w < n)
    (apart : elem (position n w) (positions n cs) ≡ false)
    (below : IsDistinct n (positions n cs)) where
  active-flip : (b : Bool) (j : ℕ) → active n cs vs j ≡ true → active n cs vs (flip1 n w b j) ≡ true
  active-flip b j h =
      ap₂ (λ p q. p && q) (lt→ltb _ (2 ^ n) (with_bits-lt n (position n w ∷ []) (b ∷ []) j))
        (controls_match-flip n (position n w) b (positions n cs) vs j apart below)
      ∙ ground (arith)

  bit-flip1 : (b : Bool) (j : ℕ) → bit (flip1 n w b j) (position n w) ≡ b
  bit-flip1 b j = bit-with_bits n (position n w ∷ []) (b ∷ []) j (position n w) ∙ ground arith

  flip1-flip1 : (b c : Bool) (j : ℕ) → flip1 n w b (flip1 n w c j) ≡ flip1 n w b j
  flip1-flip1 b c j = bit_ext _ _ λ q.
      bit-with_bits n (position n w ∷ []) (b ∷ []) (flip1 n w c j) q
      ∙ ground (
        arith,
        bit-with_bits n (position n w ∷ []) (c ∷ []) j q,
        bit-with_bits n (position n w ∷ []) (b ∷ []) j q,
      )

  gate1-flip1 :
      {A : Type 0} (f : Update1 A) (arr : Arr A) (b : Bool) (j : ℕ)
      → active n cs vs j ≡ true
      → gate1 n cs vs w f arr (flip1 n w b j)
        ≡ f b (arr (flip1 n w false j)) (arr (flip1 n w true j))
  gate1-flip1 f arr b j h =
      gate1_on n cs vs w f arr (flip1 n w b j) (active-flip b j h)
      ∙ cc (bit-flip1 b j, ap arr (flip1-flip1 false b j), ap arr (flip1-flip1 true b j))

  -- Two gates with the same controls and target, one after the other, are the gate whose update
  -- does both.
  pub gate1-gate1 :
      {A : Type 0} (f g : Update1 A) (arr : Arr A)
      → gate1 n cs vs w g (gate1 n cs vs w f arr)
        ≡ gate1 n cs vs w (λ b x y. g b (f false x y) (f true x y)) arr
  gate1-gate1 f g arr = fun_ext λ j. elim (Bool-cases (active n cs vs j)) [
    | inl on ↦
        gate1_on n cs vs w g (gate1 n cs vs w f arr) j on
        ∙ ap₂ (g (bit j (position n w))) (gate1-flip1 f arr false j on)
            (gate1-flip1 f arr true j on)
        ∙ sym (gate1_on n cs vs w (λ b x y. g b (f false x y) (f true x y)) arr j on)
    | inr off ↦
        gate1_off n cs vs w g (gate1 n cs vs w f arr) j off
        ∙ gate1_off n cs vs w f arr j off
        ∙ sym (gate1_off n cs vs w (λ b x y. g b (f false x y) (f true x y)) arr j off)
  ]

-- A gate whose update keeps the amplitude of the digit is the identity.
pub gate1_id :
    {A : Type 0} (n : ℕ) (cs : List ℕ) (vs : List Bool) (w : ℕ) (f : Update1 A) (arr : Arr A)
    → ((b : Bool) (x y : A) → f b x y ≡ (if b then y else x))
    → gate1 n cs vs w f arr ≡ arr
gate1_id n cs vs w f arr same = fun_ext λ j. elim (Bool-cases (active n cs vs j)) [
  | inl on ↦
      gate1_on n cs vs w f arr j on
      ∙ same (bit j (position n w)) (arr (flip1 n w false j)) (arr (flip1 n w true j))
      ∙ own arr j (bit j (position n w)) refl (ltb→lt j (2 ^ n) (ground arith))
  | inr off ↦ gate1_off n cs vs w f arr j off
]
  where
    own :
        {A : Type 0} (arr : Arr A) (j : ℕ) (b : Bool)
        → bit j (position n w) ≡ b
        → j < 2 ^ n
        → (if b then arr (flip1 n w true j) else arr (flip1 n w false j)) ≡ arr j
    own arr j true e h = ap arr (flip1_own n w true j e h)
    own arr j false e h = ap arr (flip1_own n w false j e h)

-- The update of a gate on two wires that applies f to the second when the first has a one.
abbrev pub if_first : {A : Type 0} → Update1 A → Update2 A
if_first f true c a00 a01 a10 a11 = f c a10 a11
if_first f false true a00 a01 a10 a11 = a01
if_first f false false a00 a01 a10 a11 = a00

-- A gate on two wires at a basis state whose controls match.
pub gate2_on :
    {A : Type 0} (n : ℕ) (cs : List ℕ) (vs : List Bool) (w0 w1 : ℕ) (f : Update2 A) (arr : Arr A)
    (j : ℕ)
    → active n cs vs j ≡ true
    → gate2 n cs vs w0 w1 f arr j
      ≡ f
          (bit j (position n w0))
          (bit j (position n w1))
          (arr (flip2 n w0 w1 false false j))
          (arr (flip2 n w0 w1 false true j))
          (arr (flip2 n w0 w1 true false j))
          (arr (flip2 n w0 w1 true true j))
unfolding gate2
gate2_on n cs vs w0 w1 f arr j h =
    ap
      (λ b.
        if b
        then f (bit j (position n w0)) (bit j (position n w1)) (arr (flip2 n w0 w1 false false j))
            (arr (flip2 n w0 w1 false true j)) (arr (flip2 n w0 w1 true false j))
            (arr (flip2 n w0 w1 true true j))
        else arr j)
      h

-- It is the gate of f with a control on the first wire.
pub gate2-if_first :
    {A : Type 0} (n c w : ℕ) (f : Update1 A) (arr : Arr A)
    → position n c ≢ position n w
    → gate2 n [] [] c w (if_first f) arr ≡ gate1 n (c ∷ []) (true ∷ []) w f arr
unfolding gate2 gate1
gate2-if_first n c w f arr apart = fun_ext λ j. elim (Bool-cases (ltb j (2 ^ n))) [
  | inl inside ↦ at j (bit j (position n c)) refl inside
  | inr outside ↦ ground arith
]
  where
    flip :
        (j : ℕ) (b d : Bool)
        → ltb j (2 ^ n) ≡ true
        → bit j (position n c) ≡ b
        → flip2 n c w b d j ≡ flip1 n w d j
    flip j b d inside e = bit_ext _ _ λ q.
        bit-with_bits n (position n w ∷ position n c ∷ []) (d ∷ b ∷ []) j q
        ∙ ground (arith, bit-with_bits n (position n w ∷ []) (d ∷ []) j q)

    own : (j : ℕ) (d : Bool) → ltb j (2 ^ n) ≡ true → bit j (position n w) ≡ d → flip1 n w d j ≡ j
    own j d inside e = flip1_own n w d j e (ltb→lt j (2 ^ n) inside)

    kept :
        (j : ℕ) (d : Bool)
        → bit j (position n w) ≡ d
        → ltb j (2 ^ n) ≡ true
        → bit j (position n c) ≡ false
        → if_first f false d
            (arr (flip2 n c w false false j))
            (arr (flip2 n c w false true j))
            (arr (flip2 n c w true false j))
            (arr (flip2 n c w true true j))
          ≡ arr j
    kept j true e inside off = ap arr (flip j false true inside off ∙ own j true inside e)
    kept j false e inside off = ap arr (flip j false false inside off ∙ own j false inside e)

    at :
        (j : ℕ) (b : Bool)
        → bit j (position n c) ≡ b
        → ltb j (2 ^ n) ≡ true
        → gate2 n [] [] c w (if_first f) arr j ≡ gate1 n (c ∷ []) (true ∷ []) w f arr j
    at j true e inside =
        gate2_on n [] [] c w (if_first f) arr j (ground arith)
        ∙ ap
            (λ b.
              if_first f b (bit j (position n w)) (arr (flip2 n c w false false j))
                (arr (flip2 n c w false true j)) (arr (flip2 n c w true false j))
                (arr (flip2 n c w true true j)))
            e
        ∙ ap₂ (f (bit j (position n w))) (ap arr (flip j true false inside e))
            (ap arr (flip j true true inside e))
        ∙ sym (gate1_on n (c ∷ []) (true ∷ []) w f arr j (ground arith))
    at j false e inside =
        gate2_on n [] [] c w (if_first f) arr j (ground arith)
        ∙ ap
            (λ b.
              if_first f b (bit j (position n w)) (arr (flip2 n c w false false j))
                (arr (flip2 n c w false true j)) (arr (flip2 n c w true false j))
                (arr (flip2 n c w true true j)))
            e
        ∙ kept j (bit j (position n w)) refl inside e
        ∙ sym (gate1_off n (c ∷ []) (true ∷ []) w f arr j (ground arith))
