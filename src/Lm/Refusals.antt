-- ===== src/Lm/Refusals.antt =====
-- When applyNC1 and applyNC2 refuse their arguments.
use pennylane_lightning.Prelude.{
  ℕ, suc, ◌+◌, ◌≡◌, ◌∙◌, Bool, true, List, [], ◌∷◌, length, leb, ◌==◌, ◌&&◌, ◌||◌, arith, is_ok,
  is_ok-guards,
}
use pennylane_lightning.Memory.{Arr}
use pennylane_lightning.Lm.Apply.{
  Core1, Core2, apply_nc1, apply_nc2, dispatch_nc1, dispatch_nc2, is_empty, size_mismatch,
}

module _ {A : Type 0} (n : ℕ) (vs : List Bool) (wires : List ℕ) (arr : Arr A) where
  -- A one-qubit gate throws no exception exactly when there is one wire, there are as many qubits as
  -- wires and control wires, and each control wire has a value if there is any.
  pub is_ok-dispatch_nc1 :
      (core : Core1 A) (cs : List ℕ)
      → is_ok (dispatch_nc1 core n cs vs wires arr) ≡ (
          length wires == 1 && (leb (length cs + 1) n && (is_empty cs || (length vs == length cs))))
  unfolding dispatch_nc1 apply_nc1
  is_ok-dispatch_nc1 core [] =
      is_ok-guards (length wires == 1) (leb (0 + length wires) n) true
        "Assertion failed: n_wires == 1" "Assertion failed: num_qubits >= nw_tot" size_mismatch _
      ∙ ground arith
  is_ok-dispatch_nc1 core (c ∷ cs) =
      is_ok-guards (length wires == 1) (leb (suc (length cs) + length wires) n)
        (length vs == suc (length cs)) "Assertion failed: n_wires == 1"
        "Assertion failed: num_qubits >= nw_tot" size_mismatch _
      ∙ ground arith

  -- A two-qubit gate throws no exception exactly when there are two wires, there are as many qubits
  -- as wires and control wires, and each control wire has a value if there is any.
  pub is_ok-dispatch_nc2 :
      (core : Core2 A) (cs : List ℕ)
      → is_ok (dispatch_nc2 core n cs vs wires arr) ≡ (
          length wires == 2 && (leb (length cs + 2) n && (is_empty cs || (length vs == length cs))))
  unfolding dispatch_nc2 apply_nc2
  is_ok-dispatch_nc2 core [] =
      is_ok-guards (length wires == 2) (leb (0 + length wires) n) true
        "Assertion failed: n_wires == 2" "Assertion failed: num_qubits >= nw_tot" size_mismatch _
      ∙ ground arith
  is_ok-dispatch_nc2 core (c ∷ cs) =
      is_ok-guards (length wires == 2) (leb (suc (length cs) + length wires) n)
        (length vs == suc (length cs)) "Assertion failed: n_wires == 2"
        "Assertion failed: num_qubits >= nw_tot" size_mismatch _
      ∙ ground arith
