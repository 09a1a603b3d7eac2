-- ===== src/Tests/Indices.antt =====
-- The kernels and the pool at concrete inputs: the index lists.
use pennylane_lightning.Prelude.{
  ℕ, ◌^◌, ◌≡◌, refl, not, ◌&&◌, [], ◌∷◌, arith, length, elem, ltb, ok,
}
use pennylane_lightning.BitUtil.Sort.{IsDistinct}
use pennylane_lightning.Util.{get_indices_after_exclusion, generate_bits_patterns}
use pennylane_lightning.Util.Exclusion.{get_indices_after_exclusion_lem}
use pennylane_lightning.Util.Patterns.{patterns, generate_bits_patterns_lem}

-- The patterns of two of four qubits, and the wires that are left.
pattern_run : generate_bits_patterns (2 ∷ 0 ∷ []) 4 ≡ ok (0 ∷ 8 ∷ 2 ∷ 10 ∷ [])
unfolding generate_bits_patterns
pattern_run = refl

exclusion_run : get_indices_after_exclusion (2 ∷ 0 ∷ []) 4 ≡ 1 ∷ 3 ∷ []
unfolding get_indices_after_exclusion
exclusion_run = refl

get_indices_after_exclusion_lem_example :
    IsDistinct 4 (get_indices_after_exclusion (2 ∷ 0 ∷ []) 4)
    × ((q : ℕ)
        → elem q (get_indices_after_exclusion (2 ∷ 0 ∷ []) 4)
          ≡ (ltb q 4 && not (elem q (2 ∷ 0 ∷ []))))
get_indices_after_exclusion_lem_example = get_indices_after_exclusion_lem (2 ∷ 0 ∷ []) 4

generate_bits_patterns_lem_example :
    (generate_bits_patterns (2 ∷ 0 ∷ []) 4 ≡ ok (patterns 4 (2 ∷ 0 ∷ [])))
    × (length (patterns 4 (2 ∷ 0 ∷ [])) ≡ 2 ^ length {A = ℕ} (2 ∷ 0 ∷ []))
generate_bits_patterns_lem_example =
    generate_bits_patterns_lem (2 ∷ 0 ∷ []) 4 (omega arith)
      (omega arith, refl, (omega arith, refl, tt))
