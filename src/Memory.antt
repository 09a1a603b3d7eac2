-- ===== src/Memory.antt =====
-- The state vector's memory: `std::complex<PrecisionT> *arr` as the map from an index to the
-- amplitude there, and the counted loops over it.
pub mod Cells
use pennylane_lightning.Prelude.{ℕ, List, [], ◌∷◌, ◌==◌, if◌then◌else◌}

abbrev pub Arr : Type 0 → Type 0
Arr A = ℕ → A

-- arr[i] = v
unfoldable pub write : {A : Type 0} → Arr A → ℕ → A → Arr A
write arr i v j = if j == i then v else arr j

-- std::swap(arr[i], arr[j])
unfoldable pub swap : {A : Type 0} → Arr A → ℕ → ℕ → Arr A
unfolding write
swap arr i j = write (write arr i (arr j)) j (arr i)

-- A loop whose rounds run for the given indices in the given order.
unfoldable pub for_each : {S : Type 0} → List ℕ → (ℕ → S → S) → S → S
for_each [] body s = s
for_each (k ∷ ks) body s = for_each ks body (body k s)

-- arr[i] = a; arr[j] = b
unfoldable pub set2 : {A : Type 0} → Arr A → ℕ → ℕ → A → A → Arr A
unfolding write
set2 arr i j a b = write (write arr i a) j b
