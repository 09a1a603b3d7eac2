-- ===== src/Blocks/Joined.antt =====
-- The number at a list of wires that is split in two: the low digits and the high ones.
use native.Mathlib.Nat.{pow-suc, mul_assoc}
use mathlib.Core.Path.{ap₂}
use pennylane_lightning.Prelude.{
  ℕ, zero, suc, ◌+◌, ◌*◌, ◌/◌, ◌%◌, ◌^◌, ◌<◌, ◌≡◌, refl, ap, sym, ◌∙◌, Bool, true, false, ◌&&◌,
  List, [], ◌∷◌, ◌++◌, arith, ltb, ◌==◌, not, xor, if◌then◌else◌, elem, length, length-append,
  Bool-cases, inl, inr,
}
use pennylane_lightning.Word.Bit.{bit, bit_ext}
use pennylane_lightning.Blocks.Address.{placed}
use pennylane_lightning.Blocks.Numbers.{digits, number_at, length-digits}
use pennylane_lightning.Blocks.Controlled.{
  controls_match, placed_miss, placed-append, placed-match, with_bits, bit-with_bits,
}

-- The number that a list of digits spells, the first the lowest.
abbrev pub spelled : List Bool → ℕ
spelled [] = 0
spelled (v ∷ vs) = (if v then 1 else 0) + 2 * spelled vs

double_mul : (m x : ℕ) → 2 ^ suc m * x ≡ 2 * (2 ^ m * x)
double_mul m x =
    ap (λ t. t * x) {x = 2 ^ suc m} {y = 2 * 2 ^ m} (omega (arith, pow-suc 2 m))
    ∙ mul_assoc 2 (2 ^ m) x

pub number_at-append :
    (ts rs : List ℕ) (x : ℕ)
    → number_at (ts ++ rs) x ≡ number_at ts x + 2 ^ length ts * number_at rs x
number_at-append [] rs x = omega arith
number_at-append (t ∷ ts) rs x =
    omega (arith, number_at-append ts rs x, double_mul (length ts) (number_at rs x))

digits-join : (m l c x : ℕ) → c < 2 ^ m → digits (m + l) (c + 2 ^ m * x) ≡ digits m c ++ digits l x
digits-join zero l c x h =
    ap (λ t. digits t (c + 2 ^ 0 * x)) {x = 0 + l} {y = l} (omega arith)
    ∙ ap (digits l) {x = c + 2 ^ 0 * x} {y = x} (omega arith)
digits-join (suc m) l c x h =
    ap (λ t. digits t (c + 2 ^ suc m * x)) {x = suc m + l} {y = suc (m + l)} (omega arith)
    ∙ ap₂ (λ b bs. b ∷ bs)
        (ap (λ t. t == 1) {x = (c + 2 ^ suc m * x) % 2} {y = c % 2} (omega (arith, double_mul m x)))
        (ap (digits (m + l)) {x = (c + 2 ^ suc m * x) / 2} {y = c / 2 + 2 ^ m * x}
            (omega (arith, double_mul m x))
          ∙ digits-join m l (c / 2) x (omega (arith, pow-suc 2 m)))

digits-spelled : (vs : List Bool) → digits (length vs) (spelled vs) ≡ vs
digits-spelled [] = refl
digits-spelled (true ∷ vs) =
    ap₂ (λ b bs. b ∷ bs) (ground arith)
      (ap (digits (length vs)) {x = (1 + 2 * spelled vs) / 2} {y = spelled vs} (omega arith)
        ∙ digits-spelled vs)
digits-spelled (false ∷ vs) =
    ap₂ (λ b bs. b ∷ bs) (ground arith)
      (ap (digits (length vs)) {x = (0 + 2 * spelled vs) / 2} {y = spelled vs} (omega arith)
        ∙ digits-spelled vs)

pub spelled-lt : (vs : List Bool) → spelled vs < 2 ^ length vs
spelled-lt [] = omega arith
spelled-lt (v ∷ vs) = ground (arith, spelled-lt vs, pow-suc 2 (length vs))

-- Controls match where the number at them is the one that their values spell.
pub number_at-match :
    (rs : List ℕ) (vs : List Bool) (x : ℕ)
    → length vs ≡ length rs
    → (number_at rs x == spelled vs) ≡ controls_match rs vs x
number_at-match [] [] x e = refl
number_at-match [] (v ∷ vs) x e = absurd (omega arith)
number_at-match (r ∷ rs) [] x e = absurd (omega arith)
number_at-match (r ∷ rs) (v ∷ vs) x e = step (bit x r) v (number_at-match rs vs x (omega arith))
  where
    step :
        (b v : Bool)
        → (number_at rs x == spelled vs) ≡ controls_match rs vs x
        → ((if b then 1 else 0) + 2 * number_at rs x == (if v then 1 else 0) + 2 * spelled vs)
          ≡ (not (xor b v) && controls_match rs vs x)
    step true true h = ground (arith, h)
    step true false h = ground (arith, h)
    step false true h = ground (arith, h)
    step false false h = ground (arith, h)

-- Where the controls match, giving them their values again changes nothing.
pub with_bits-join :
    (n : ℕ) (ts rs : List ℕ) (vs : List Bool) (c x : ℕ)
    → length vs ≡ length rs
    → controls_match rs vs x ≡ true
    → c < 2 ^ length ts
    → with_bits n (ts ++ rs) (digits (length (ts ++ rs)) (c + 2 ^ length ts * spelled vs)) x
      ≡ with_bits n ts (digits (length ts) c) x
with_bits-join n ts rs vs c x e m h =
    ap (λ bs. with_bits n (ts ++ rs) bs x)
      (ap (λ t. digits t (c + 2 ^ length ts * spelled vs)) {x = length (ts ++ rs)}
          {y = length ts + length vs} (omega (arith, length-append ts rs))
        ∙ digits-join (length ts) (length vs) c (spelled vs) h
        ∙ ap (λ t. digits (length ts) c ++ t) (digits-spelled vs))
    ∙ bit_ext _ _ λ q.
      bit-with_bits n (ts ++ rs) (digits (length ts) c ++ vs) x q
      ∙ ap (λ b. ltb q n && b)
          (placed-append ts rs (digits (length ts) c) vs q (bit x q) (length-digits (length ts) c)
            ∙ ap (placed ts (digits (length ts) c) q) (same q))
      ∙ sym (bit-with_bits n ts (digits (length ts) c) x q)
  where
    same : (q : ℕ) → placed rs vs q (bit x q) ≡ bit x q
    same q = elim (Bool-cases (elem q rs)) [
      | inl on ↦ placed-match rs vs x q (bit x q) e m on
      | inr off ↦ placed_miss rs vs q (bit x q) off
    ]
