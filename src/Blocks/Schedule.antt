-- ===== src/Blocks/Schedule.antt =====
-- A loop whose rounds update disjoint blocks: what is in memory after it, in whatever order the
-- rounds ran.
use pennylane_lightning.Prelude.{
  ℕ, zero, suc, ◌+◌, ◌≤◌, ◌<◌, ◌≡◌, ◌≢◌, refl, ap, sym, ◌∙◌, true, false, Option, none, some, List,
  [], ◌∷◌, arith, ltb, if◌then◌else◌, elem, range, range_from, inl, inr, eq_or_ne, lt→ltb,
}
use pennylane_lightning.BitUtil.Sort.{IsDistinct}
use pennylane_lightning.Memory.{Arr, for_each}

elem-range_from : (q i n : ℕ) → elem q (range_from i n) ≡ (if ltb q i then false else ltb q (i + n))
elem-range_from q i zero = ground arith
elem-range_from q i (suc n) = ground (arith, elem-range_from q (suc i) n)

range_from-IsDistinct : (i n hi : ℕ) → i + n ≤ hi → IsDistinct hi (range_from i n)
range_from-IsDistinct i zero hi h = tt
range_from-IsDistinct i (suc n) hi h = (
  omega arith,
  ground (arith, elem-range_from i (suc i) n),
  range_from-IsDistinct (suc i) n hi (omega arith),
)

pub elem-range : (q n : ℕ) → elem q (range n) ≡ ltb q n
elem-range q n = ground (arith, elem-range_from q 0 n)

pub range-IsDistinct : (n : ℕ) → IsDistinct n (range n)
range-IsDistinct n = range_from-IsDistinct 0 n n (omega arith)

-- The cells that no block owns stay as they are, and those of a block are updated when its round
-- is among the scheduled ones.
abbrev pub updated : {A : Type 0} → Option ℕ → List ℕ → A → A → A
updated none ks old new = old
updated (some k) ks old new = if elem k ks then new else old

-- The rounds of a loop own disjoint blocks of cells: round k gives the cells of block k their new
-- values, which depend on that block alone, and changes no other cell.
pub record OwnsBlocks {A : Type 0} (rounds : ℕ) (owner : ℕ → Option ℕ) (new : Arr A → ℕ → A)
    (body : ℕ → Arr A → Arr A) : Type 0 where
  pub keeps : (k : ℕ) (arr : Arr A) (j : ℕ) → k < rounds → owner j ≢ some k → body k arr j ≡ arr j
  pub updates :
      (k : ℕ) (arr : Arr A) (j : ℕ) → k < rounds → owner j ≡ some k → body k arr j ≡ new arr j
  pub local :
      (k : ℕ) (arr arr' : Arr A) (j : ℕ)
      → owner j ≡ some k
      → ((i : ℕ) → owner i ≡ some k → arr i ≡ arr' i)
      → new arr j ≡ new arr' j

some_injective : {a b : ℕ} → some a ≡ some b → a ≡ b
some_injective e = ground arith

module _ {A : Type 0} (rounds : ℕ) (owner : ℕ → Option ℕ) (new : Arr A → ℕ → A)
    (body : ℕ → Arr A → Arr A) (owns : OwnsBlocks rounds owner new body) where
  -- A round leaves the new values of the other blocks as they were.
  new-body :
      (k h : ℕ) (arr : Arr A) (j : ℕ)
      → k < rounds
      → h ≢ k
      → owner j ≡ some h
      → new (body k arr) j ≡ new arr j
  new-body k h arr j lt ne e =
      owns.local h (body k arr) arr j e λ i ei. owns.keeps k arr i lt (λ ek. ne (ground arith))

  pub for_each_blocks :
      (ks : List ℕ) (arr : Arr A) (j : ℕ)
      → IsDistinct rounds ks
      → for_each ks body arr j ≡ updated (owner j) ks (arr j) (new arr j)
  unfolding for_each
  for_each_blocks [] arr j d = elim (owner j) as (λ o. arr j ≡ updated o [] (arr j) (new arr j)) [
    | none ↦ refl
    | some h ↦ refl
  ]
  for_each_blocks (k ∷ ks) arr j d = for_each_blocks ks (body k arr) j d.2 ∙ go (owner j) refl
    where
      go :
          (o : Option ℕ)
          → owner j ≡ o
          → updated o ks (body k arr j) (new (body k arr) j)
            ≡ updated o (k ∷ ks) (arr j) (new arr j)
      go none e = owns.keeps k arr j d.0 (λ ek. cc (sym e ∙ ek))
      go (some h) e = elim (eq_or_ne h k) [
        | inl same ↦ ground (arith, owns.updates k arr j d.0 (e ∙ ap some same))
        | inr ne ↦
            let others : owner j ≢ some k = λ ek. ne (some_injective (sym e ∙ ek)) in
            ground (arith, owns.keeps k arr j d.0 others, new-body k h arr j d.0 ne e)
      ]

-- An order of the rounds of a loop, each once, as the threads of a parallel loop may run them.
pub record IsSchedule (rounds : ℕ) (ks : List ℕ) : Type 0 where
  pub once : IsDistinct rounds ks
  pub all : (k : ℕ) → k < rounds → elem k ks ≡ true

pub range-IsSchedule : (n : ℕ) → IsSchedule n (range n)
range-IsSchedule n = record {
  once = range-IsDistinct n;
  all = λ k h. elem-range k n ∙ lt→ltb k n h;
}

-- After the loop, each cell that a block owns has its new value, in whatever order the rounds ran.
pub for_each_schedule :
    {A : Type 0} (rounds : ℕ) (owner : ℕ → Option ℕ) (new : Arr A → ℕ → A)
    (body : ℕ → Arr A → Arr A)
    → OwnsBlocks rounds owner new body
    → (ks : List ℕ) (arr : Arr A) (j : ℕ) → IsSchedule rounds ks
    → (owner j ≡ none → for_each ks body arr j ≡ arr j)
      × ((k : ℕ) → k < rounds → owner j ≡ some k → for_each ks body arr j ≡ new arr j)
for_each_schedule rounds owner new body owns ks arr j schedule =
    let run = for_each_blocks rounds owner new body owns ks arr j schedule.once in
    (
      λ e. run ∙ ap (λ o. updated o ks (arr j) (new arr j)) e,
      λ k h e.
          run
          ∙ ap (λ o. updated o ks (arr j) (new arr j)) e
          ∙ ap (λ b. if b then new arr j else arr j) (schedule.all k h),
    )
