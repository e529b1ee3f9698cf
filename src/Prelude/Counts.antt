-- ===== src/Prelude/Counts.antt =====
-- How often a number occurs in a list, and the removal of one occurrence.
use Prim.Native.Nat.{ℕ, suc, ◌+◌, ◌<◌}
use mathlib.Core.Path.{◌≡◌}
use mathlib.Core.List.{List, [], ◌∷◌}
use native.Mathlib.Omega.{arith}
use flywheel.Prelude.Tests.{if◌then◌else◌, ◌==◌}

abbrev pub count : ℕ → List ℕ → ℕ
count lock [] = 0
count lock (other ∷ others) = if other == lock then suc (count lock others) else count lock others

unfoldable pub remove_one : ℕ → List ℕ → List ℕ
remove_one lock [] = []
remove_one lock (other ∷ others) =
    let kept = remove_one lock others in if other == lock then others else other ∷ kept

pub count-remove_one :
    (k j : ℕ) (xs : List ℕ)
    → 0 < count k xs
    → count j xs ≡ count j (remove_one k xs) + (if k == j then 1 else 0)
unfolding remove_one
count-remove_one k j [] h = absurd (omega arith)
count-remove_one k j (x ∷ xs) h = ground (arith, count-remove_one k j xs)
