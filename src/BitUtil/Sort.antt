-- ===== src/BitUtil/Sort.antt =====
-- std::sort on wires, and the facts that the masks need of a sorted list of distinct wires.
use pennylane_lightning.Prelude.{
  ℕ, suc, ◌+◌, ◌≤◌, ◌<◌, ◌≡◌, refl, ◌∙◌, false, ◌||◌, List, [], ◌∷◌, arith, ltb, leb, ◌==◌,
  if◌then◌else◌, elem, length,
}

insert_sorted : ℕ → List ℕ → List ℕ
insert_sorted w [] = w ∷ []
insert_sorted w (x ∷ xs) = if leb w x then w ∷ x ∷ xs else x ∷ insert_sorted w xs

unfoldable pub sort : List ℕ → List ℕ
unfolding insert_sorted
sort [] = []
sort (w ∷ ws) = insert_sorted w (sort ws)

-- The wires lie in [lo, hi), each above the one before.
abbrev pub Ascends : ℕ → ℕ → List ℕ → Type 0
Ascends lo hi [] = lo ≤ hi
Ascends lo hi (r ∷ rs) = (lo ≤ r) × (r < hi) × Ascends (suc r) hi rs

-- The wires are below hi, and no two are the same.
abbrev pub IsDistinct : ℕ → List ℕ → Type 0
IsDistinct hi [] = Unit
IsDistinct hi (w ∷ ws) = (w < hi) × (elem w ws ≡ false) × IsDistinct hi ws

-- How many of the wires lie below q.
abbrev pub rank : List ℕ → ℕ → ℕ
rank [] q = 0
rank (r ∷ rs) q = (if ltb r q then 1 else 0) + rank rs q

elem-insert_sorted : (w q : ℕ) (xs : List ℕ) → elem q (insert_sorted w xs) ≡ (q == w || elem q xs)
unfolding insert_sorted
elem-insert_sorted w q [] = refl
elem-insert_sorted w q (x ∷ xs) = ground (arith, elem-insert_sorted w q xs)

rank-insert_sorted : (w q : ℕ) (xs : List ℕ) → rank (insert_sorted w xs) q ≡ rank (w ∷ xs) q
unfolding insert_sorted
rank-insert_sorted w q [] = refl
rank-insert_sorted w q (x ∷ xs) = ground (arith, rank-insert_sorted w q xs)

insert_sorted-Ascends :
    (lo hi w : ℕ) (xs : List ℕ)
    → lo ≤ w
    → w < hi
    → elem w xs ≡ false
    → Ascends lo hi xs
    → Ascends lo hi (insert_sorted w xs)
unfolding insert_sorted
insert_sorted-Ascends lo hi w [] p q e a = omega arith
insert_sorted-Ascends lo hi w (x ∷ xs) p q e a =
    ground (arith, insert_sorted-Ascends (suc x) hi w xs)

length-insert_sorted : (w : ℕ) (xs : List ℕ) → length (insert_sorted w xs) ≡ suc (length xs)
unfolding insert_sorted
length-insert_sorted w [] = refl
length-insert_sorted w (x ∷ xs) = ground (arith, length-insert_sorted w xs)

pub elem-sort : (q : ℕ) (ws : List ℕ) → elem q (sort ws) ≡ elem q ws
unfolding sort
elem-sort q [] = refl
elem-sort q (w ∷ ws) = ground (arith, elem-insert_sorted w q (sort ws), elem-sort q ws)

pub rank-sort : (q : ℕ) (ws : List ℕ) → rank (sort ws) q ≡ rank ws q
unfolding sort
rank-sort q [] = refl
rank-sort q (w ∷ ws) = omega (arith, rank-insert_sorted w q (sort ws), rank-sort q ws)

pub length-sort : (ws : List ℕ) → length (sort ws) ≡ length ws
unfolding sort
length-sort [] = refl
length-sort (w ∷ ws) = omega (arith, length-insert_sorted w (sort ws), length-sort ws)

-- Sorting distinct wires puts each above the one before.
pub sort-Ascends : (hi : ℕ) (ws : List ℕ) → IsDistinct hi ws → Ascends 0 hi (sort ws)
unfolding sort
sort-Ascends hi [] d = omega arith
sort-Ascends hi (w ∷ ws) d =
    insert_sorted-Ascends 0 hi w (sort ws) (omega arith) d.0 (elem-sort w ws ∙ d.1)
      (sort-Ascends hi ws d.2)
