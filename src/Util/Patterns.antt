-- ===== src/Util/Patterns.antt =====
-- generateBitsPatterns gives one index for each pattern of the qubits, in the order of the numbers that
-- the patterns spell.
use pennylane_lightning.Prelude.{
  ℕ, ◌+◌, ◌^◌, ◌<◌, ◌≡◌, refl, ap, ◌∙◌, List, [], ◌∷◌, ◌++◌, map, length, length-append, length-map,
  reversed, Outcome, ok, abort, abort_if, not, ◌>>=◌, arith, lt→ltb,
}
use pennylane_lightning.Lm.Wires.{shl_one, rev_position'}
use pennylane_lightning.BitUtil.Sort.{IsDistinct}
use pennylane_lightning.Word.{sub}
use pennylane_lightning.Gate.{position}
use pennylane_lightning.Util.{exp2, max_decimal_for_qubit, extend_patterns, generate_bits_patterns}

-- The decimal value of a qubit below n < 64 is 2 to its position.
max_decimal_for_qubit_lem :
    (q n : ℕ) → n < 64 → q < n → max_decimal_for_qubit q n ≡ ok (2 ^ position n q)
unfolding max_decimal_for_qubit exp2
max_decimal_for_qubit_lem q n hn hq =
    ap
      (λ b. abort_if (not b) "Assertion failed: qubitIndex < qubits" >>= λ u.
        ok (exp2 (sub (sub n q) 1)))
      (lt→ltb q n hq)
    ∙ ap ok (ap exp2 (rev_position' n q hn hq) ∙ shl_one (position n q) (omega arith))

bind_assoc :
    {A B C : Type 0} (value : Outcome A) (f : A → Outcome C) (g : A → Outcome B) (h : B → Outcome C)
    → ((v : A) → f v ≡ (g v >>= h))
    → (value >>= f) ≡ ((value >>= g) >>= h)
bind_assoc (ok v) f g h e = e v
bind_assoc (abort m) f g h e = refl

extend_patterns-append :
    (qs rs : List ℕ) (n : ℕ) (indices : List ℕ)
    → extend_patterns (qs ++ rs) n indices
      ≡ (extend_patterns qs n indices >>= λ found. extend_patterns rs n found)
unfolding extend_patterns
extend_patterns-append [] rs n indices = refl
extend_patterns-append (q ∷ qs) rs n indices =
    bind_assoc (max_decimal_for_qubit q n)
      (λ v. extend_patterns (qs ++ rs) n (indices ++ map (λ i. i + v) indices))
      (λ v. extend_patterns qs n (indices ++ map (λ i. i + v) indices)) (extend_patterns rs n)
      (λ v. extend_patterns-append qs rs n (indices ++ map (λ i. i + v) indices))

-- The indices of all patterns of the wires, by the digit of the first wire: those without it, then
-- those with it.
abbrev pub patterns : ℕ → List ℕ → List ℕ
patterns n [] = 0 ∷ []
patterns n (q ∷ qubits) =
    let others = patterns n qubits in others ++ map (λ i. i + 2 ^ position n q) others

pub length-patterns : (n : ℕ) (qs : List ℕ) → length (patterns n qs) ≡ 2 ^ length qs
length-patterns n [] = refl
length-patterns n (q ∷ qs) =
    length-append (patterns n qs) (map (λ i. i + 2 ^ position n q) (patterns n qs))
    ∙ grind (arith, length-map (patterns n qs) (λ i. i + 2 ^ position n q), length-patterns n qs)

-- generateBitsPatterns, for distinct qubits below n < 64, succeeds with the indices of all patterns, in
-- the order of the numbers that the patterns spell with the first qubit as the highest digit, and there
-- are 2 to the number of qubits.
pub generate_bits_patterns_lem :
    (qs : List ℕ) (n : ℕ)
    → n < 64
    → IsDistinct n qs
    → (generate_bits_patterns qs n ≡ ok (patterns n qs)) × (length (patterns n qs) ≡ 2 ^ length qs)
unfolding generate_bits_patterns extend_patterns
generate_bits_patterns_lem [] n hn d = (refl, refl)
generate_bits_patterns_lem (q ∷ qs) n hn d =
    let rest = generate_bits_patterns_lem qs n hn d.2 in
    (
      extend_patterns-append (reversed qs) (q ∷ []) n (0 ∷ [])
          ∙ ap (λ out. out >>= λ found. extend_patterns (q ∷ []) n found) rest.0
          ∙ ap (λ value. value >>= λ v. ok (patterns n qs ++ map (λ i. i + v) (patterns n qs)))
              (max_decimal_for_qubit_lem q n hn d.0),
      length-patterns n (q ∷ qs),
    )
