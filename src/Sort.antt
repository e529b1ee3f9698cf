-- ===== src/Sort.antt =====
-- `slice::sort_by`, `sort_unstable` and `dedup_by` of the standard library, over a comparison
-- into Bool. The sort is stable: of two elements that are equal in the order the earlier stays
-- first.
use flywheel.Prelude.{Bool, List, [], ◌∷◌, if◌then◌else◌}
pub mod Sorted
pub mod Filters

module _ {ℓ} {A : Type ℓ} (lt : A → A → Bool) where
  unfoldable pub insert : A → List A → List A
  insert x [] = x ∷ []
  insert x (y ∷ ys) = if lt y x then y ∷ insert x ys else x ∷ y ∷ ys

  unfoldable pub sort : List A → List A
  unfolding insert
  sort [] = []
  sort (x ∷ xs) = insert x (sort xs)

module _ {ℓ} {A : Type ℓ} (same : A → A → Bool) where
  -- The rest of a run that starts at `x`, which is kept.
  unfoldable pub dedup_after : A → List A → List A
  dedup_after x [] = []
  dedup_after x (y ∷ ys) = elim (same x y) [
    | Bool.true ↦ dedup_after x ys
    | Bool.false ↦ y ∷ dedup_after y ys
  ]

  -- `dedup_by`: of consecutive equal elements the first is kept.
  unfoldable pub dedup : List A → List A
  unfolding dedup_after
  dedup [] = []
  dedup (x ∷ xs) = x ∷ dedup_after x xs
