-- ===== src/Memory/Cells.antt =====
-- Loops whose rounds each change one cell: what is in memory after them.
use pennylane_lightning.Prelude.{
  ℕ, zero, suc, ◌<◌, ◌≡◌, ◌≢◌, refl, ap, sym, ◌∙◌, List, [], ◌∷◌, map, arith, if◌then◌else◌, elem,
  length, get_or, range, range_from, inl, inr, eq_or_ne,
}
use pennylane_lightning.BitUtil.Sort.{IsDistinct}
use pennylane_lightning.Memory.{Arr, write, for_each}

-- Different numbers below dim have different addresses.
abbrev pub IsApart : ℕ → (ℕ → ℕ) → Type 0
IsApart dim addr = (i j : ℕ) → i < dim → j < dim → addr i ≡ addr j → i ≡ j

-- Round i makes v i of the cell at addr i and changes no other.
pub record OwnsCell {A : Type 0} (addr : ℕ → ℕ) (v : ℕ → A → A) (body : ℕ → Arr A → Arr A)
    : Type 0 where
  pub here : (i : ℕ) (arr : Arr A) → body i arr (addr i) ≡ v i (arr (addr i))
  pub there : (i : ℕ) (arr : Arr A) (x : ℕ) → x ≢ addr i → body i arr x ≡ arr x

module _ {A : Type 0} (dim : ℕ) (addr : ℕ → ℕ) (apart : IsApart dim addr) (v : ℕ → A → A)
    (body : ℕ → Arr A → Arr A) (owns : OwnsCell addr v body) where
  -- After rounds of different numbers, the cells of these numbers are changed once.
  pub for_each_cells :
      (ks : List ℕ) (arr : Arr A) (i : ℕ)
      → IsDistinct dim ks
      → i < dim
      → for_each ks body arr (addr i) ≡ (if elem i ks then v i (arr (addr i)) else arr (addr i))
  unfolding for_each
  for_each_cells [] arr i d h = refl
  for_each_cells (k ∷ ks) arr i d h = for_each_cells ks (body k arr) i d.2 h ∙ elim (eq_or_ne i k) [
    | inl same ↦ ground (
      arith,
      ap (λ t. elem t ks) same,
      d.1,
      ap (λ t. body k arr (addr t)) same,
      owns.here k arr,
      ap (λ t. v t (arr (addr t))) same,
    )
    | inr other ↦ ground (arith, owns.there k arr (addr i) (λ e. other (apart i k h d.0 e)))
  ]

  pub for_each_others :
      (ks : List ℕ) (arr : Arr A) (x : ℕ)
      → IsDistinct dim ks
      → ((i : ℕ) → i < dim → x ≢ addr i)
      → for_each ks body arr x ≡ arr x
  unfolding for_each
  for_each_others [] arr x d h = refl
  for_each_others (k ∷ ks) arr x d h =
      for_each_others ks (body k arr) x d.2 h ∙ owns.there k arr x (h k d.0)

-- Rounds that all leave a cell alone.
pub for_each_keeps :
    {A : Type 0} (x : ℕ) (body : ℕ → Arr A → Arr A)
    → ((k : ℕ) (arr : Arr A) → body k arr x ≡ arr x)
    → (ks : List ℕ) (arr : Arr A) → for_each ks body arr x ≡ arr x
unfolding for_each
for_each_keeps x body keep [] arr = refl
for_each_keeps x body keep (k ∷ ks) arr = for_each_keeps x body keep ks (body k arr) ∙ keep k arr

-- A cell that one round alone sets.
pub for_each_writer :
    {A : Type 0} (dim x writer : ℕ) (v : A) (body : ℕ → Arr A → Arr A)
    → ((k : ℕ) (arr : Arr A) → k < dim → k ≢ writer → body k arr x ≡ arr x)
    → ((arr : Arr A) → body writer arr x ≡ v)
    → (ks : List ℕ) (arr : Arr A) → IsDistinct dim ks
    → for_each ks body arr x ≡ (if elem writer ks then v else arr x)
unfolding for_each
for_each_writer dim x writer v body miss hit [] arr d = refl
for_each_writer dim x writer v body miss hit (k ∷ ks) arr d =
    for_each_writer dim x writer v body miss hit ks (body k arr) d.2 ∙ elim (eq_or_ne k writer) [
      | inl same ↦ ground (arith, ap (λ t. body t arr x) same, hit arr)
      | inr other ↦ ground (arith, miss k arr d.0 other)
    ]

-- A cell that every round changes alone is the result of a loop over its value.
pub for_each_accumulates :
    {A : Type 0} (x : ℕ) (g : ℕ → A → A) (ks : List ℕ) (arr : Arr A)
    → for_each ks (λ k a. write a x (g k (a x))) arr x ≡ for_each ks g (arr x)
unfolding for_each write
for_each_accumulates x g [] arr = refl
for_each_accumulates x g (k ∷ ks) arr =
    for_each_accumulates x g ks (write arr x (g k (arr x))) ∙ ap (for_each ks g) (ground arith)

-- Rounds that agree below dim.
pub for_each_agree :
    {S : Type 0} (dim : ℕ) (f g : ℕ → S → S)
    → ((k : ℕ) (s : S) → k < dim → f k s ≡ g k s)
    → (ks : List ℕ) (s : S) → IsDistinct dim ks
    → for_each ks f s ≡ for_each ks g s
unfolding for_each
for_each_agree dim f g same [] s d = refl
for_each_agree dim f g same (k ∷ ks) s d =
    for_each_agree dim f g same ks (f k s) d.2 ∙ ap (for_each ks g) (same k s d.0)

-- A loop over the values of a list is one over its places.
for_each-map :
    {S : Type 0} (f : ℕ → ℕ) (ks : List ℕ) (body : ℕ → S → S) (s : S)
    → for_each (map f ks) body s ≡ for_each ks (λ k. body (f k)) s
unfolding for_each
for_each-map f [] body s = refl
for_each-map f (k ∷ ks) body s = for_each-map f ks body (body (f k) s)

range_from-suc : (i m : ℕ) → range_from (suc i) m ≡ map suc (range_from i m)
range_from-suc i zero = refl
range_from-suc i (suc m) = ap (λ t. suc i ∷ t) (range_from-suc (suc i) m)

map_places : (xs : List ℕ) → map (λ i. get_or xs i 0) (range_from 0 (length xs)) ≡ xs
map_places [] = refl
map_places (x ∷ xs) =
    ap (λ t. x ∷ map (λ i. get_or (x ∷ xs) i 0) t) (range_from-suc 0 (length xs))
    ∙ ap (λ t. x ∷ t) (map-map_suc x xs (range_from 0 (length xs)) ∙ map_places xs)
  where
    map-map_suc :
        (x : ℕ) (xs ks : List ℕ)
        → map (λ i. get_or (x ∷ xs) i 0) (map suc ks) ≡ map (λ i. get_or xs i 0) ks
    map-map_suc x xs [] = refl
    map-map_suc x xs (k ∷ ks) = ap (λ t. get_or xs k 0 ∷ t) (map-map_suc x xs ks)

pub for_each_places :
    {S : Type 0} (xs : List ℕ) (body : ℕ → S → S) (s : S)
    → for_each xs body s ≡ for_each (range (length xs)) (λ i. body (get_or xs i 0)) s
for_each_places xs body s =
    sym (ap (λ t. for_each t body s) (map_places xs))
    ∙ for_each-map (λ i. get_or xs i 0) (range_from 0 (length xs)) body s
