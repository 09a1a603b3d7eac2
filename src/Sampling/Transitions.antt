-- ===== src/Sampling/Transitions.antt =====
-- Where a transition may lead.
use pennylane_lightning.Prelude.{
  ℕ, zero, suc, ◌+◌, ◌-◌, ◌/◌, ◌%◌, ◌^◌, ◌<◌, ◌≤◌, ◌≡◌, refl, ap, sym, ◌∙◌, Bool, true, false, ◌&&◌,
  ◌||◌, not, List, [], ◌∷◌, ◌++◌, arith, ltb, leb, ◌==◌, if◌then◌else◌, elem, elem-append, length,
  get_or, range_from, bit_and, Bool-cases, inl, inr, ltb→lt, lt_or_le,
}
use mathlib.Core.Path.{subst}
use native.Mathlib.Nat.{pow-suc, pow-le-pow_right}
use pennylane_lightning.Word.{shl, shr}
use pennylane_lightning.Word.Bit.{
  bit, bit_ext, bit-zero, bit-bit_and, bit-mod_pow, bit-pow, bit_above, lt-pow_of_bits,
}
use pennylane_lightning.Word.Shift.{bit-shr}
use pennylane_lightning.Memory.{Arr, for_each}
use pennylane_lightning.Util.{exp2}
use pennylane_lightning.Lm.PatternCells.{bit-add_pow}
use pennylane_lightning.Lm.Wires.{shl_one}
use pennylane_lightning.Sampling.{to_double, local_transition, non_zeros, non_zero_transition}

abbrev digit : Bool → ℕ
digit b = if b then 1 else 0

and_one : (x : ℕ) → bit_and x 1 ≡ digit (bit x 0)
and_one x =
    bit_ext _ _ λ q. bit-bit_and x 1 q ∙ ap (λ b. bit x q && b) (bit-pow 0 q) ∙ low (bit x 0) q refl
  where
    low : (b : Bool) (q : ℕ) → bit x 0 ≡ b → (bit x q && (q == 0)) ≡ bit (digit b) q
    low true zero e = ground (arith, e, bit-pow 0 0)
    low true (suc q) e = ground (arith, bit-pow 0 (suc q))
    low false zero e = ground (arith, e, bit-zero 0)
    low false (suc q) e = ground (arith, bit-zero (suc q))

read_digit : (site x : ℕ) → site < 32 → bit_and (shr (x % 2 ^ 32) site) 1 ≡ digit (bit x site)
read_digit site x h =
    and_one (shr (x % 2 ^ 32) site)
    ∙ ap digit (
        bit-shr (x % 2 ^ 32) site 0
        ∙ ap (bit (x % 2 ^ 32)) {x = 0 + site} {y = site} (omega arith)
        ∙ bit-mod_pow 32 x site
        ∙ ground arith)

pow_le_of_bit : (p x : ℕ) → bit x p ≡ true → 2 ^ p ≤ x
pow_le_of_bit p x h = elim (lt_or_le x (2 ^ p)) [
  | inl below ↦ absurd (ground (arith, bit_above p x p below (omega arith), h))
  | inr above ↦ above
]

-- Taking a power of two away where a number has a one clears that digit.
bit-sub_pow : (p x q : ℕ) → bit x p ≡ true → bit (x - 2 ^ p) q ≡ (bit x q && not (q == p))
unfolding bit
bit-sub_pow zero x zero h = ground arith
bit-sub_pow zero x (suc q) h =
    ap (λ t. bit t q) {x = (x - 1) / 2} {y = x / 2} (ground arith) ∙ ground arith
bit-sub_pow (suc p) x zero h = ground (arith, pow-suc 2 p, pow_le_of_bit p (x / 2) h)
bit-sub_pow (suc p) x (suc q) h =
    ap (λ t. bit t q) {x = (x - 2 ^ suc p) / 2} {y = x / 2 - 2 ^ p}
      (omega (arith, pow-suc 2 p, pow_le_of_bit p (x / 2) h))
    ∙ bit-sub_pow p (x / 2) q h
    ∙ ground arith

to_double-small : (x : ℕ) → x < 2 ^ 53 → to_double x ≡ x
unfolding to_double
to_double-small x h = ground arith

-- A state of at most 53 qubits and its sum with a power of two are doubles as they are.
module _ (n site x : ℕ) (few : n ≤ 53) (on : site < n) (hx : x < 2 ^ n) where
  small : (y : ℕ) → y < 2 ^ n → to_double y ≡ y
  small y h =
      to_double-small y (omega (arith, pow-le-pow_right {n = 2} (omega arith) {i = n} {j = 53} few))

  add_double : bit x site ≡ false → to_double (to_double x + 2 ^ site) ≡ x + 2 ^ site
  add_double e =
      ap (λ t. to_double (t + 2 ^ site)) (small x hx)
      ∙ small (x + 2 ^ site) (
          lt-pow_of_bits n (x + 2 ^ site)
            λ q hq. bit-add_pow site x q e ∙ ground (arith, bit_above n x q hx hq))

  sub_double : to_double (to_double x - 2 ^ site) ≡ x - 2 ^ site
  sub_double = ap (λ t. to_double (t - 2 ^ site)) (small x hx) ∙ small (x - 2 ^ site) (omega arith)

  local_transition-digits :
      (value q : ℕ)
      → site < 32
      → value < 2
      → bit (local_transition site value x) q ≡ (if q == site then value == 1 else bit x q)
  unfolding local_transition
  local_transition-digits value q hs hv =
      ap
        (λ t.
          bit
            (if value == t
              then x
              else if t == 0
              then to_double (to_double x + 2 ^ site)
              else to_double (to_double x - 2 ^ site))
            q)
        (read_digit site x hs)
      ∙ branches (bit x site) value refl hv
    where
      branches :
          (b : Bool) (v : ℕ)
          → bit x site ≡ b
          → v < 2
          → bit
              (if v == digit b
                then x
                else if digit b == 0
                then to_double (to_double x + 2 ^ site)
                else to_double (to_double x - 2 ^ site))
              q
            ≡ (if q == site then v == 1 else bit x q)
      branches true zero e h = ap (λ t. bit t q) sub_double ∙ bit-sub_pow site x q e ∙ ground arith
      branches true (suc zero) e h = ground (arith, e, ap (bit x) {x = q} {y = site})
      branches false zero e h = ground (arith, e, ap (bit x) {x = q} {y = site})
      branches false (suc zero) e h =
          ap (λ t. bit t q) (add_double e) ∙ bit-add_pow site x q e ∙ ground arith
      branches b (suc (suc v)) e h = absurd (omega arith)

-- LocalTransitionKernel, for n at most 53, a site below n and below 32 and the value 0 or 1, leads from a
-- basis state of n qubits to one: its digit at the site is the value, and every other digit is as it
-- was.
pub local_transition_lem :
    (n site value x q : ℕ)
    → n ≤ 53
    → site < n
    → site < 32
    → value < 2
    → x < 2 ^ n
    → (local_transition site value x < 2 ^ n)
      × (bit (local_transition site value x) q ≡ (if q == site then value == 1 else bit x q))
local_transition_lem n site value x q few hn hs hv hx = (
  lt-pow_of_bits n (local_transition site value x) (λ q hq.
      local_transition-digits n site x few hn hx value q hs hv
      ∙ ground (arith, bit_above n x q hx hq)),
  local_transition-digits n site x few hn hx value q hs hv,
)

module _ {A : Type 0} (is_large : A → Bool) (sv : Arr A) where
  elem-non_zeros_from :
      (j i m : ℕ) (found : List ℕ)
      → elem j (
          for_each
            (range_from i m)
            (λ i found. if is_large (sv i) then found ++ i ∷ [] else found)
            found)
        ≡ (elem j found || (leb i j && (ltb j (i + m) && is_large (sv j))))
  unfolding for_each
  elem-non_zeros_from j i zero found = ground arith
  elem-non_zeros_from j i (suc m) found =
      elem-non_zeros_from j (suc i) m (if is_large (sv i) then found ++ i ∷ [] else found)
      ∙ elim (Bool-cases (is_large (sv i))) [
        | inl large ↦
            ground (
              arith,
              large,
              elem-append j found (i ∷ []),
              ap (λ t. is_large (sv t)) {x = j} {y = i},
            )
        | inr small ↦ ground (arith, small, ap (λ t. is_large (sv t)) {x = j} {y = i})
      ]

  elem-non_zeros : (j len : ℕ) → elem j (non_zeros is_large len sv) ≡ (ltb j len && is_large (sv j))
  unfolding non_zeros
  elem-non_zeros j len = elem-non_zeros_from j 0 len [] ∙ ground arith

  elem-get_or : (xs : List ℕ) (i : ℕ) → i < length xs → elem (get_or xs i 0) xs ≡ true
  elem-get_or [] i h = absurd (omega arith)
  elem-get_or (x ∷ xs) zero h = ground arith
  elem-get_or (x ∷ xs) (suc i) h = ground (arith, elem-get_or xs i (omega arith))

  -- NonZeroRandomTransitionKernel, over the state vector of n < 64 qubits and with a number drawn below the
  -- number of large amplitudes, leads from any state to a basis state with a large amplitude.
  pub non_zero_transition-is_large :
      (n trans_idx init_idx : ℕ)
      → n < 64
      → trans_idx < length (non_zeros is_large (exp2 n) sv)
      → (non_zero_transition (non_zeros is_large (exp2 n) sv) trans_idx init_idx < 2 ^ n)
        × (is_large (sv (non_zero_transition (non_zeros is_large (exp2 n) sv) trans_idx init_idx))
            ≡ true)
  unfolding non_zero_transition exp2
  non_zero_transition-is_large n trans_idx init_idx hn h =
      let found = non_zeros is_large (exp2 n) sv in
      let member =
        sym (elem-non_zeros (get_or found trans_idx 0) (exp2 n)) ∙ elem-get_or found trans_idx h in
      let below : ltb (get_or found trans_idx 0) (shl 1 n) ≡ true = ground (arith, member) in
      (
        subst (λ d. get_or found trans_idx 0 < d) (shl_one n hn) (ltb→lt _ _ below),
        ground (arith, member),
      )
