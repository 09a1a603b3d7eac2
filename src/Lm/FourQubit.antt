-- ===== src/Lm/FourQubit.antt =====
-- The four-qubit gates of GateImplementationsLM.hpp: applyNC4 and the double excitations. A core function
-- takes the addresses of 0011 and 1100, or the list of all sixteen; applyNC4 computes the one or the other.
use pennylane_lightning.Prelude.{
  ℕ, ◌+◌, ◌-◌, Bool, true, false, List, [], ◌∷◌, ◌++◌, length, get_or, range, replicate, leb, ◌==◌,
  bit_and, bit_or, if◌then◌else◌, Outcome, ok, abort_if_not, ◌>>◌,
}
use pennylane_lightning.Word.{shl, sub}
use pennylane_lightning.BitUtil.{rev_wire_parity}
use pennylane_lightning.Memory.{Arr, set2, for_each}
use pennylane_lightning.Complex.{Floats, Complex, complex, plus, minus, scaled, cexp}
use pennylane_lightning.Lm.Index.{reverse_wires, masked, set_controls, parity2indices}
use pennylane_lightning.Lm.Apply.{is_empty}
use pennylane_lightning.Lm.OneQubit.{scale_at}
use pennylane_lightning.Lm.Rotations.{signed_sin}

-- A core function on i0011, i1100 and the list of indices.
abbrev pub Core4 : Type 0 → Type 0
Core4 A = Arr A → ℕ → ℕ → List ℕ → Arr A

module _ {A : Type 0} where
  -- The round k of each loop; the template parameter `compute_indices` is an argument.
  unfoldable pub nc4_controlled_round :
      Bool → Core4 A → List ℕ → List ℕ → List ℕ → ℕ → ℕ → Arr A → Arr A
  unfolding parity2indices masked set_controls
  nc4_controlled_round compute_indices core parity rev_wires rev_wire_shifts n_contr k arr =
      let i0000 = set_controls n_contr rev_wires rev_wire_shifts (masked k parity) in
      let i0011 =
        bit_or (bit_or i0000 (get_or rev_wire_shifts (1 + n_contr) 0))
          (get_or rev_wire_shifts (0 + n_contr) 0) in
      let i1100 =
        bit_or (bit_or i0000 (get_or rev_wire_shifts (3 + n_contr) 0))
          (get_or rev_wire_shifts (2 + n_contr) 0) in
      if compute_indices
      then core arr 0 0 (parity2indices k parity rev_wire_shifts n_contr [])
      else core arr i0011 i1100 (replicate 16 0)

  unfoldable pub nc4_plain_round : Bool → Core4 A → List ℕ → ℕ → ℕ → ℕ → ℕ → ℕ → Arr A → Arr A
  unfolding parity2indices shl
  nc4_plain_round compute_indices core parity rev_wire0 rev_wire1 rev_wire2 rev_wire3 k arr =
      let shift0 = shl 1 rev_wire0 in
      let shift1 = shl 1 rev_wire1 in
      let shift2 = shl 1 rev_wire2 in
      let shift3 = shl 1 rev_wire3 in
      let high =
        bit_or (bit_and (shl k 4) (get_or parity 4 0)) (bit_and (shl k 3) (get_or parity 3 0)) in
      let middle =
        bit_or (bit_or high (bit_and (shl k 2) (get_or parity 2 0)))
          (bit_and (shl k 1) (get_or parity 1 0)) in
      let i0000 = bit_or middle (bit_and k (get_or parity 0 0)) in
      let i0011 = bit_or (bit_or i0000 shift1) shift0 in
      let i1100 = bit_or (bit_or i0000 shift3) shift2 in
      if compute_indices
      then core arr 0 0 (parity2indices k parity (shift0 ∷ shift1 ∷ shift2 ∷ shift3 ∷ []) 0 [])
      else core arr i0011 i1100 (replicate 16 0)

  -- applyNC4; the template parameter `has_controls` is an argument too.
  unfoldable pub apply_nc4 :
      Bool → Bool → Core4 A → ℕ → List ℕ → List Bool → List ℕ → Arr A → Outcome (Arr A)
  unfolding shl sub for_each reverse_wires rev_wire_parity nc4_controlled_round nc4_plain_round
  apply_nc4 has_controls compute_indices core num_qubits controlled_wires controlled_values wires
        arr =
      do
        let n_contr = length controlled_wires
        let nw_tot = n_contr + length wires
        let rounds = range (shl 1 (num_qubits - nw_tot))
        let revs = reverse_wires num_qubits (wires ++ controlled_wires) controlled_values
        let rev0 = sub (sub num_qubits (get_or wires 3 0)) 1
        let rev1 = sub (sub num_qubits (get_or wires 2 0)) 1
        let rev2 = sub (sub num_qubits (get_or wires 1 0)) 1
        let rev3 = sub (sub num_qubits (get_or wires 0 0)) 1
        let parity = rev_wire_parity (rev0 ∷ rev1 ∷ rev2 ∷ rev3 ∷ [])
        abort_if_not (length wires == 4) "Assertion failed: n_wires == 4"
        abort_if_not (leb nw_tot num_qubits) "Assertion failed: num_qubits >= nw_tot"
        ok (
            for_each rounds
              (if has_controls
                then nc4_controlled_round compute_indices core (rev_wire_parity revs.0) revs.0
                    revs.1 n_contr
                else nc4_plain_round compute_indices core parity rev0 rev1 rev2 rev3)
              arr)

  unfoldable pub dispatch_nc4 :
      Bool → Core4 A → ℕ → List ℕ → List Bool → List ℕ → Arr A → Outcome (Arr A)
  unfolding apply_nc4
  dispatch_nc4 compute_indices core num_qubits controlled_wires controlled_values wires arr =
      if is_empty controlled_wires
      then apply_nc4 false compute_indices core num_qubits controlled_wires controlled_values wires
          arr
      else apply_nc4 true compute_indices core num_qubits controlled_wires controlled_values wires
          arr

module _ (F : Floats) where
  unfoldable pub double_excitation_core : F.Real → F.Real → Core4 (Complex F)
  unfolding set2
  double_excitation_core cr sj arr i0011 i1100 indices =
      let v3 = arr i0011 in
      let v12 = arr i1100 in
      set2 arr i0011 i1100 (minus F (scaled F cr v3) (scaled F sj v12))
        (plus F (scaled F sj v3) (scaled F cr v12))

  unfoldable pub apply_nc_double_excitation :
      ℕ → List ℕ → List Bool → List ℕ → Bool → F.Real → Arr (Complex F) → Outcome (Arr (Complex F))
  unfolding dispatch_nc4 double_excitation_core
  apply_nc_double_excitation num_qubits controlled_wires controlled_values wires inverse angle arr =
      dispatch_nc4 false
        (double_excitation_core (F.cos (F.half angle)) (signed_sin F inverse angle)) num_qubits
        controlled_wires controlled_values wires arr

  -- e, as std::exp(std::complex<PrecisionT>{0, -angle / 2}) or with angle / 2
  abbrev pub double_phase : Bool → F.Real → Complex F
  double_phase negative angle =
      cexp F (complex F F.zero (F.half (if negative then F.neg angle else angle)))

  -- for (i : indices) arr[i] *= e; then the entries 0011 and 1100 are set.
  unfoldable pub phased_double_core : F.Real → F.Real → Complex F → Core4 (Complex F)
  unfolding for_each scale_at set2
  phased_double_core cr sj e arr i0011 i1100 indices =
      let v3 = arr (get_or indices 3 0) in
      let v12 = arr (get_or indices 12 0) in
      let phased = for_each indices (λ i a. scale_at F a i e) arr in
      set2 phased (get_or indices 3 0) (get_or indices 12 0)
        (minus F (scaled F cr v3) (scaled F sj v12)) (plus F (scaled F sj v3) (scaled F cr v12))

  unfoldable pub apply_nc_double_excitation_minus :
      ℕ → List ℕ → List Bool → List ℕ → Bool → F.Real → Arr (Complex F) → Outcome (Arr (Complex F))
  unfolding dispatch_nc4 phased_double_core
  apply_nc_double_excitation_minus num_qubits controlled_wires controlled_values wires inverse angle
        arr =
      dispatch_nc4 true
        (phased_double_core (F.cos (F.half angle)) (signed_sin F inverse angle)
          (double_phase (if inverse then false else true) angle))
        num_qubits controlled_wires controlled_values wires arr

  unfoldable pub apply_nc_double_excitation_plus :
      ℕ → List ℕ → List Bool → List ℕ → Bool → F.Real → Arr (Complex F) → Outcome (Arr (Complex F))
  unfolding dispatch_nc4 phased_double_core
  apply_nc_double_excitation_plus num_qubits controlled_wires controlled_values wires inverse angle
        arr =
      dispatch_nc4 true
        (phased_double_core (F.cos (F.half angle)) (signed_sin F inverse angle)
          (double_phase inverse angle))
        num_qubits controlled_wires controlled_values wires arr

  unfoldable pub apply_double_excitation :
      ℕ → List ℕ → Bool → F.Real → Arr (Complex F) → Outcome (Arr (Complex F))
  unfolding apply_nc_double_excitation
  apply_double_excitation num_qubits wires inverse angle arr =
      apply_nc_double_excitation num_qubits [] [] wires inverse angle arr

  unfoldable pub apply_double_excitation_minus :
      ℕ → List ℕ → Bool → F.Real → Arr (Complex F) → Outcome (Arr (Complex F))
  unfolding apply_nc_double_excitation_minus
  apply_double_excitation_minus num_qubits wires inverse angle arr =
      apply_nc_double_excitation_minus num_qubits [] [] wires inverse angle arr

  unfoldable pub apply_double_excitation_plus :
      ℕ → List ℕ → Bool → F.Real → Arr (Complex F) → Outcome (Arr (Complex F))
  unfolding apply_nc_double_excitation_plus
  apply_double_excitation_plus num_qubits wires inverse angle arr =
      apply_nc_double_excitation_plus num_qubits [] [] wires inverse angle arr
