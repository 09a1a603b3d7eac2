-- ===== src/Lm/Generate.antt =====
-- applyNCGenerator1 and applyNCGenerator2 of GateImplementationsLM.hpp: the loops of the generators with
-- controls. They zero the amplitudes whose controls do not match and give the others to a core function.
use pennylane_lightning.Prelude.{
  ℕ, ◌+◌, ◌-◌, Bool, false, List, [], ◌++◌, map, bit_or, length, get_or, range, reversed, leb, ◌==◌,
  if◌then◌else◌, Outcome, ok, abort_if_not, ◌>>◌,
}
use pennylane_lightning.Word.{shl, shr, sub}
use pennylane_lightning.BitUtil.{rev_wire_parity}
use pennylane_lightning.Memory.{Arr, write, for_each}
use pennylane_lightning.Lm.Index.{to_word, parity2indices}
use pennylane_lightning.Lm.Apply.{Core1, Core2}

-- mask |= static_cast<std::size_t>(controlled_values[n_contr - 1 - k]) << k
unfoldable pub control_mask : ℕ → List Bool → ℕ
unfolding shl sub for_each
control_mask n_contr controlled_values =
    for_each (range (length controlled_values))
      (λ k mask.
        bit_or mask (shl (to_word (get_or controlled_values (sub (sub n_contr 1) k) false)) k))
      0

-- rev_wires and rev_wire_shifts
unfoldable pub reverse_all : ℕ → List ℕ → List ℕ × List ℕ
unfolding sub shl
reverse_all num_qubits all_wires =
    let rev_wires = map (λ w. sub (sub num_qubits 1) w) (reversed all_wires) in
    (rev_wires, map (shl 1) rev_wires)

module _ {A : Type 0} where
  -- if ((i >> shift) == mask) continue; arr[indices[i]] = zero
  unfoldable pub clear_round : A → ℕ → ℕ → List ℕ → ℕ → Arr A → Arr A
  unfolding shr write
  clear_round zero shift mask indices i arr =
      if shr i shift == mask then arr else write arr (get_or indices i 0) zero

  -- The round k of each loop.
  unfoldable pub generator1_round : A → Core1 A → ℕ → ℕ → List ℕ × List ℕ → ℕ → Arr A → Arr A
  unfolding parity2indices for_each clear_round rev_wire_parity shl
  generator1_round zero core dim mask revs k arr =
      let indices = parity2indices k (rev_wire_parity revs.0) revs.1 0 [] in
      let i0 = shl mask 1 in
      let i1 = bit_or i0 1 in
      core (for_each (range dim) (clear_round zero 1 mask indices) arr) (get_or indices i0 0)
        (get_or indices i1 0)

  unfoldable pub generator2_round : A → Core2 A → ℕ → ℕ → List ℕ × List ℕ → ℕ → Arr A → Arr A
  unfolding parity2indices for_each clear_round rev_wire_parity shl
  generator2_round zero core dim mask revs k arr =
      let indices = parity2indices k (rev_wire_parity revs.0) revs.1 0 [] in
      let i00 = shl mask 2 in
      let i01 = bit_or i00 1 in
      let i10 = bit_or i00 2 in
      let i11 = bit_or (bit_or i00 2) 1 in
      core (for_each (range dim) (clear_round zero 2 mask indices) arr) (record {
        i00 = get_or indices i00 0;
        i01 = get_or indices i01 0;
        i10 = get_or indices i10 0;
        i11 = get_or indices i11 0;
      })

  -- applyNCGenerator1
  unfoldable pub apply_nc_generator1 :
      A → Core1 A → ℕ → List ℕ → List Bool → List ℕ → Arr A → Outcome (Arr A)
  unfolding shl for_each generator1_round control_mask reverse_all
  apply_nc_generator1 zero core num_qubits controlled_wires controlled_values wires arr = do
    let n_contr = length controlled_wires
    let nw_tot = n_contr + length wires
    let revs = reverse_all num_qubits (controlled_wires ++ wires)
    let mask = control_mask n_contr controlled_values
    abort_if_not (length wires == 1) "Assertion failed: n_wires == 1"
    abort_if_not (leb nw_tot num_qubits) "Assertion failed: num_qubits >= nw_tot"
    ok (
        for_each (range (shl 1 (num_qubits - nw_tot)))
          (generator1_round zero core (shl 1 nw_tot) mask revs) arr)

  -- applyNCGenerator2
  unfoldable pub apply_nc_generator2 :
      A → Core2 A → ℕ → List ℕ → List Bool → List ℕ → Arr A → Outcome (Arr A)
  unfolding shl for_each generator2_round control_mask reverse_all
  apply_nc_generator2 zero core num_qubits controlled_wires controlled_values wires arr = do
    let n_contr = length controlled_wires
    let nw_tot = n_contr + length wires
    let revs = reverse_all num_qubits (controlled_wires ++ wires)
    let mask = control_mask n_contr controlled_values
    abort_if_not (length wires == 2) "Assertion failed: n_wires == 2"
    abort_if_not (leb nw_tot num_qubits) "Assertion failed: num_qubits >= nw_tot"
    ok (
        for_each (range (shl 1 (num_qubits - nw_tot)))
          (generator2_round zero core (shl 1 nw_tot) mask revs) arr)
