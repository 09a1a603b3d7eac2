-- ===== src/Lm/Index.antt =====
-- reverseWires, parity2indices and the address arithmetic of applyNC1 and applyNC2.
use pennylane_lightning.Prelude.{
  ℕ, zero, suc, ◌+◌, ◌-◌, Bool, true, false, List, [], ◌∷◌, map, bit_and, bit_or, get_or, range,
  range_from, reversed, length, ◌==◌, if◌then◌else◌, ◌≡◌, refl,
}
use pennylane_lightning.Word.{shl, sub, complement}
use pennylane_lightning.BitUtil.{rev_wire_parity}

-- static_cast<std::size_t>(b)
abbrev pub to_word : Bool → ℕ
to_word true = 1
to_word false = 0

-- The value of each wire at its position: the control values, then ones.
abbrev pub wire_shifts : List Bool → List ℕ → List ℕ
wire_shifts values [] = []
wire_shifts [] (r ∷ rs) = shl 1 r ∷ wire_shifts [] rs
wire_shifts (v ∷ values) (r ∷ rs) = shl (to_word v) r ∷ wire_shifts values rs

-- Positions of the wires counted from the last qubit, and their shifted values, both from the last
-- wire of the list to its first.
unfoldable pub reverse_wires : ℕ → List ℕ → List Bool → List ℕ × List ℕ
unfolding sub shl
reverse_wires num_qubits all_wires controlled_values =
    let rev_wires = map (λ w. sub (sub num_qubits 1) w) (reversed all_wires) in
    (rev_wires, wire_shifts (reversed controlled_values) rev_wires)

-- for i, i + 1, ...: idx |= ((k << i) & parity[i])
unfoldable pub or_masks : ℕ → ℕ → ℕ → List ℕ → ℕ
unfolding shl
or_masks k i idx [] = idx
or_masks k i idx (p ∷ ps) = or_masks k (i + 1) (bit_or idx (bit_and (shl k i) p)) ps

-- i0 = (k & parity[0]), then the masks from parity[1] on. The source reads out of range if there
-- is no mask.
unfoldable pub masked : ℕ → List ℕ → ℕ
unfolding or_masks
masked k [] = 0
masked k (p ∷ ps) = or_masks k 1 (bit_and k p) ps

-- for the first n_contr wires: idx &= ~(one << rev_wires[i]); idx |= rev_wire_shifts[i]
unfoldable pub set_controls : ℕ → List ℕ → List ℕ → ℕ → ℕ
unfolding shl complement
set_controls (suc n) (r ∷ rs) (s ∷ ss) idx =
    set_controls n rs ss (bit_or (bit_and idx (complement (shl 1 r))) s)
set_controls n rs ss idx = idx

-- The two addresses of round k in applyNC1 with controls.
unfoldable pub nc1_controlled : List ℕ → List ℕ → List ℕ → ℕ → ℕ → ℕ × ℕ
unfolding masked set_controls
nc1_controlled parity rev_wires rev_wire_shifts n_contr k =
    let i0 = set_controls n_contr rev_wires rev_wire_shifts (masked k parity) in
    (i0, bit_or i0 (get_or rev_wire_shifts n_contr 0))

-- The two addresses of round k in applyNC1 without controls.
unfoldable pub nc1_plain : ℕ → ℕ → ℕ × ℕ
unfolding shl rev_wire_parity
nc1_plain rev_wire k =
    let parity = rev_wire_parity (rev_wire ∷ []) in
    let parity_high = get_or parity 1 0 in
    let parity_low = get_or parity 0 0 in
    let i0 = bit_or (bit_and (shl k 1) parity_high) (bit_and parity_low k) in
    (i0, bit_or i0 (shl 1 rev_wire))

pub record Quad : Type 0 where
  pub i00 : ℕ
  pub i01 : ℕ
  pub i10 : ℕ
  pub i11 : ℕ

-- The four addresses of round k in applyNC2 with controls.
unfoldable pub nc2_controlled : List ℕ → List ℕ → List ℕ → ℕ → ℕ → Quad
unfolding masked set_controls
nc2_controlled parity rev_wires rev_wire_shifts n_contr k =
    let i00 = set_controls n_contr rev_wires rev_wire_shifts (masked k parity) in
    let shift0 = get_or rev_wire_shifts n_contr 0 in
    let shift1 = get_or rev_wire_shifts (n_contr + 1) 0 in
    record {
      i00 = i00;
      i01 = bit_or i00 shift0;
      i10 = bit_or i00 shift1;
      i11 = bit_or (bit_or i00 shift0) shift1;
    }

-- The four addresses of round k in applyNC2 without controls; rev_wire1 is that of the first wire.
unfoldable pub nc2_plain : ℕ → ℕ → ℕ → Quad
unfolding shl rev_wire_parity
nc2_plain rev_wire0 rev_wire1 k =
    let parity = rev_wire_parity (rev_wire0 ∷ rev_wire1 ∷ []) in
    let high = bit_and (shl k 2) (get_or parity 2 0) in
    let middle = bit_and (shl k 1) (get_or parity 1 0) in
    let low = bit_and k (get_or parity 0 0) in
    let i00 = bit_or (bit_or high middle) low in
    let shift0 = shl 1 rev_wire0 in
    let shift1 = shl 1 rev_wire1 in
    record {
      i00 = i00;
      i01 = bit_or i00 shift0;
      i10 = bit_or i00 shift1;
      i11 = bit_or (bit_or i00 shift0) shift1;
    }

-- The address of parity2indices for the digits of inner: the shifts of the wires that have a one.
unfoldable pub inner_index : ℕ → ℕ → ℕ → List ℕ → ℕ
unfolding shl
inner_index inner i idx [] = idx
inner_index inner i idx (s ∷ ss) =
    inner_index inner (i + 1) (if bit_and inner (shl 1 i) == 0 then idx else bit_or idx s) ss

unfoldable pub or_all : ℕ → List ℕ → ℕ → ℕ
or_all zero ss idx = idx
or_all (suc n) [] idx = idx
or_all (suc n) (s ∷ ss) idx = or_all n ss (bit_or idx s)

abbrev pub drop : ℕ → List ℕ → List ℕ
drop zero xs = xs
drop (suc n) [] = []
drop (suc n) (x ∷ xs) = drop n xs

-- The control step of parity2indices; with an empty `rev_wires` the values are only or-ed in.
unfoldable pub preset : ℕ → List ℕ → List ℕ → ℕ → ℕ
unfolding or_all set_controls
preset n_contr [] ss idx = or_all n_contr ss idx
preset n_contr (r ∷ rs) ss idx = set_controls n_contr (r ∷ rs) ss idx

-- parity2indices: the addresses of block k, numbered by the digits at the target wires.
unfoldable pub parity2indices : ℕ → List ℕ → List ℕ → ℕ → List ℕ → List ℕ
unfolding shl or_masks preset inner_index
parity2indices k parity rev_wire_shifts n_contr rev_wires =
    let dim = shl 1 (length rev_wire_shifts - n_contr) in
    let first = preset n_contr rev_wires rev_wire_shifts (or_masks k 0 0 parity) in
    first
    ∷ map (λ inner. inner_index inner 0 first (drop n_contr rev_wire_shifts))
        (range_from 1 (dim - 1))

-- k = 0, 1, 2, 3 on three qubits with wire 1: the pairs differ in the middle digit.
plain_rounds : map (nc1_plain 1) (range 4) ≡ (0, 2) ∷ (1, 3) ∷ (4, 6) ∷ (5, 7) ∷ []
unfolding nc1_plain
plain_rounds = refl
