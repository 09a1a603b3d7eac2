-- ===== src/Lm/AllWires.antt =====
-- The positions of control and target wires together.
use mathlib.Core.List.{map-append, append_assoc, append-nil}
use mathlib.Core.Path.{subst}
use pennylane_lightning.Prelude.{
  ℕ, ◌+◌, ◌≡◌, ap, sym, ◌∙◌, List, [], ◌∷◌, ◌++◌, arith, length, reversed, length-append,
}
use pennylane_lightning.BitUtil.Sort.{IsDistinct}
use pennylane_lightning.Gate.{position, positions, targets}
use pennylane_lightning.Lm.Wires.{positions-IsDistinct, reversed-IsDistinct}
use pennylane_lightning.Lm.PatternCells.{length-targets}

reversed-append : (xs ys : List ℕ) → reversed (xs ++ ys) ≡ reversed ys ++ reversed xs
reversed-append [] ys = sym (append-nil (reversed ys))
reversed-append (x ∷ xs) ys =
    ap (λ t. t ++ x ∷ []) (reversed-append xs ys)
    ∙ append_assoc (reversed ys) (reversed xs) (x ∷ [])

-- The positions of all wires: those of the controls, then the targets.
pub all_positions :
    (n : ℕ) (ws cs : List ℕ)
    → positions n (reversed (ws ++ cs)) ≡ positions n (reversed cs) ++ targets n ws
all_positions n ws cs =
    ap (positions n) (reversed-append ws cs) ∙ map-append (position n) (reversed cs) (reversed ws)

pub all-IsDistinct :
    (n : ℕ) (ws cs : List ℕ)
    → IsDistinct n (ws ++ cs)
    → IsDistinct n (positions n (reversed cs) ++ targets n ws)
all-IsDistinct n ws cs d =
    subst (IsDistinct n) (all_positions n ws cs)
      (positions-IsDistinct n (reversed (ws ++ cs)) (reversed-IsDistinct n (ws ++ cs) d))

pub length-all :
    (n : ℕ) (ws cs : List ℕ)
    → length (positions n (reversed cs) ++ targets n ws) ≡ length cs + length ws
length-all n ws cs =
    length-append (positions n (reversed cs)) (targets n ws)
    ∙ omega (arith, length-targets n ws, length-targets n cs)
