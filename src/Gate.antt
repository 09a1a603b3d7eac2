-- ===== src/Gate.antt =====
-- What a gate does to a state vector, independently of how a kernel finds the amplitudes: the new
-- amplitude of each basis state from those of the states that differ from it at the target wires.
pub mod Laws
use pennylane_lightning.Prelude.{
  ℕ, ◌-◌, ◌^◌, ◌≡◌, ◌≢◌, Bool, true, false, not, ◌&&◌, List, [], ◌∷◌, map, length, reversed, ltb,
  ◌==◌, if◌then◌else◌,
}
use pennylane_lightning.Word.Bit.{bit}
use pennylane_lightning.Memory.{Arr}
use pennylane_lightning.Blocks.{controls_match, with_bits, digits, number_at}

-- The place of a wire's digit in an index: wire 0 has the highest of the n digits.
abbrev pub position : ℕ → ℕ → ℕ
position n w = n - 1 - w

abbrev pub positions : ℕ → List ℕ → List ℕ
positions n ws = map (position n) ws

-- Does the basis state j have the control values at the control wires?
abbrev pub active : ℕ → List ℕ → List Bool → ℕ → Bool
active n controls values j = ltb j (2 ^ n) && controls_match (positions n controls) values j

-- The new amplitude at digit b of the target, from those at the digits 0 and 1.
abbrev pub Update1 : Type 0 → Type 0
Update1 A = Bool → A → A → A

-- The basis state j with the digit b at wire w.
abbrev pub flip1 : ℕ → ℕ → Bool → ℕ → ℕ
flip1 n w b j = with_bits n (position n w ∷ []) (b ∷ []) j

-- A gate with controls on one target wire. Indices from 2 ^ n on are no basis states.
unfoldable pub gate1 : {A : Type 0} → ℕ → List ℕ → List Bool → ℕ → Update1 A → Arr A → Arr A
gate1 n controls values w update arr j =
    if active n controls values j
    then update (bit j (position n w)) (arr (flip1 n w false j)) (arr (flip1 n w true j))
    else arr j

-- The new amplitude at digits b and c of the two targets, from those at 00, 01, 10 and 11.
abbrev pub Update2 : Type 0 → Type 0
Update2 A = Bool → Bool → A → A → A → A → A

-- The basis state j with the digits b at wire w0 and c at wire w1.
abbrev pub flip2 : ℕ → ℕ → ℕ → Bool → Bool → ℕ → ℕ
flip2 n w0 w1 b c j = with_bits n (position n w1 ∷ position n w0 ∷ []) (c ∷ b ∷ []) j

-- A gate with controls on two target wires.
unfoldable pub gate2 : {A : Type 0} → ℕ → List ℕ → List Bool → ℕ → ℕ → Update2 A → Arr A → Arr A
gate2 n controls values w0 w1 update arr j =
    if active n controls values j
    then update (bit j (position n w0)) (bit j (position n w1)) (arr (flip2 n w0 w1 false false j))
        (arr (flip2 n w0 w1 false true j)) (arr (flip2 n w0 w1 true false j))
        (arr (flip2 n w0 w1 true true j))
    else arr j

-- The new amplitude at number i of the targets, from those at all numbers.
abbrev pub UpdateN : Type 0 → Type 0
UpdateN A = ℕ → (ℕ → A) → A

-- The positions of the target wires, the last wire first: it has the lowest digit of their number.
abbrev pub targets : ℕ → List ℕ → List ℕ
targets n ws = positions n (reversed ws)

-- The basis state j with the number i at the positions ts.
abbrev pub with_number : ℕ → List ℕ → ℕ → ℕ → ℕ
with_number n ts i j = with_bits n ts (digits (length ts) i) j

-- A gate with controls on a list of target wires.
unfoldable pub gate_n : {A : Type 0} → ℕ → List ℕ → List Bool → List ℕ → UpdateN A → Arr A → Arr A
gate_n n controls values ws update arr j =
    if active n controls values j
    then update (number_at (targets n ws) j) (λ i. arr (with_number n (targets n ws) i j))
    else arr j

-- The state vector without the amplitudes of the basis states whose controls do not match: a generator
-- with controls is this projection of a gate.
unfoldable pub only_active : {A : Type 0} → A → ℕ → List ℕ → List Bool → Arr A → Arr A
only_active zero n controls values arr j =
    if ltb j (2 ^ n) && not (controls_match (positions n controls) values j) then zero else arr j
