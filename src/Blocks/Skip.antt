-- ===== src/Blocks/Skip.antt =====
-- The positions of a word that are no wires, counted from below.
use pennylane_lightning.Prelude.{
  ℕ, suc, ◌+◌, ◌-◌, ◌≤◌, ◌<◌, ◌≡◌, refl, false, List, [], ◌∷◌, arith, ltb, if◌then◌else◌, elem,
  length, lt_or_le, inl, inr, ap, ◌∙◌,
}
use pennylane_lightning.BitUtil.Sort.{Ascends, rank}
use pennylane_lightning.BitUtil.Parity.{below_all}

-- Position p among those that are none of the ascending wires.
unfoldable pub skip : List ℕ → ℕ → ℕ
skip [] p = p
skip (r ∷ rs) p = if ltb p r then p else skip rs (p + 1)

pub skip-le : (rs : List ℕ) (p : ℕ) → p ≤ skip rs p
unfolding skip
skip-le [] p = omega arith
skip-le (r ∷ rs) p = ground (arith, skip-le rs (p + 1))

pub elem-skip :
    (lo hi : ℕ) (rs : List ℕ) (p : ℕ) → Ascends lo hi rs → lo ≤ p → elem (skip rs p) rs ≡ false
unfolding skip
elem-skip lo hi [] p a h = refl
elem-skip lo hi (r ∷ rs) p a h =
    ground (
      arith,
      below_all p (suc r) hi rs a.2,
      elem-skip (suc r) hi rs (p + 1) a.2,
      skip-le rs (p + 1),
    )

pub skip-rank :
    (lo hi : ℕ) (rs : List ℕ) (p : ℕ)
    → Ascends lo hi rs
    → lo ≤ p
    → skip rs p ≡ p + rank rs (skip rs p)
unfolding skip
skip-rank lo hi [] p a h = omega arith
skip-rank lo hi (r ∷ rs) p a h =
    ground (
      arith,
      below_all p (suc r) hi rs a.2,
      skip-rank (suc r) hi rs (p + 1) a.2,
      skip-le rs (p + 1),
    )

pub rank-le : (lo hi : ℕ) (rs : List ℕ) (q : ℕ) → Ascends lo hi rs → lo ≤ q → lo + rank rs q ≤ q
rank-le lo hi [] q a h = omega arith
rank-le lo hi (r ∷ rs) q a h =
    ground (arith, rank-le (suc r) hi rs q a.2, below_all q (suc r) hi rs a.2)

pub skip_sub_rank :
    (lo hi : ℕ) (rs : List ℕ) (q : ℕ)
    → Ascends lo hi rs
    → lo ≤ q
    → elem q rs ≡ false
    → skip rs (q - rank rs q) ≡ q
unfolding skip
skip_sub_rank lo hi [] q a h e = omega arith
skip_sub_rank lo hi (r ∷ rs) q a h e = elim (lt_or_le q r) [
  | inl below ↦
      let none_below = below_all q (suc r) hi rs a.2 (omega arith) in
      let e0 : q - rank (r ∷ rs) q ≡ q = ground arith in ap (skip (r ∷ rs)) e0 ∙ ground arith
  | inr above ↦
      let ne : r < q = ground arith in
      let room : suc r + rank rs q ≤ q = rank-le (suc r) hi rs q a.2 ne in
      let at : rank (r ∷ rs) q ≡ suc (rank rs q) = ground arith in
      ground (
        arith,
        ap (skip rs) {x = q - rank (r ∷ rs) q + 1} {y = q - rank rs q} (omega arith),
        skip_sub_rank (suc r) hi rs q a.2 ne (ground arith),
      )
]

pub length-le : (lo hi : ℕ) (rs : List ℕ) → Ascends lo hi rs → lo + length rs ≤ hi
length-le lo hi [] a = omega arith
length-le lo hi (r ∷ rs) a = omega (arith, length-le (suc r) hi rs a.2)

-- From hi on every wire is below.
pub rank_above :
    (lo hi : ℕ) (rs : List ℕ) (q : ℕ)
    → Ascends lo hi rs
    → hi ≤ q
    → (rank rs q ≡ length rs) × (elem q rs ≡ false)
rank_above lo hi [] q a h = (refl, refl)
rank_above lo hi (r ∷ rs) q a h =
    let rest = rank_above (suc r) hi rs q a.2 h in (ground arith, ground arith)

pub rank_room :
    (lo hi : ℕ) (rs : List ℕ) (q : ℕ)
    → Ascends lo hi rs
    → q < hi
    → elem q rs ≡ false
    → q + length rs < hi + rank rs q
rank_room lo hi [] q a h e = omega arith
rank_room lo hi (r ∷ rs) q a h e = ground (
  arith,
  rank_room (suc r) hi rs q a.2 h,
  length-le (suc r) hi rs a.2,
  below_all q (suc r) hi rs a.2,
)
