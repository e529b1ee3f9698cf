-- ===== src/Sort/Sorted.antt =====
-- Sorted lists, and what sorting keeps.
use flywheel.Prelude.{
  ◌≡◌, inl, inr, Bool, true, false, List, [], ◌∷◌, All, All-map, Bool-cases, if◌then◌else◌,
}
use flywheel.Sort.{insert, sort}

-- A strict order whose incomparability is transitive, as `Ord::cmp` promises.
pub record Order {ℓ} {A : Type ℓ} (lt : A → A → Bool) : Type ℓ where
  pub asym : (a b : A) → lt a b ≡ true → lt b a ≡ false
  pub neg_trans : (a b c : A) → lt b a ≡ false → lt c b ≡ false → lt c a ≡ false

-- No element is below an earlier one.
abbrev pub IsSorted {ℓ} : {A : Type ℓ} → (A → A → Bool) → List A → Type 0
IsSorted lt [] = Unit
IsSorted lt (x ∷ xs) = All (λ y. lt y x ≡ false) xs × IsSorted lt xs

-- Every element is above the earlier ones.
abbrev pub IsStrict {ℓ} : {A : Type ℓ} → (A → A → Bool) → List A → Type 0
IsStrict lt [] = Unit
IsStrict lt (x ∷ xs) = All (λ y. lt x y ≡ true) xs × IsStrict lt xs

module _ {ℓ} {A : Type ℓ} (lt : A → A → Bool) where
  pub All-insert {κ} :
      (P : A → Type κ) (x : A) (xs : List A) → P x → All P xs → All P (insert lt x xs)
  unfolding insert
  All-insert P x [] p h = (p, tt)
  All-insert P x (y ∷ ys) p h =
      elim (lt y x) as (λ b. All P (if b then y ∷ insert lt x ys else x ∷ y ∷ ys)) [
        | true ↦ (h.0, All-insert P x ys p h.1)
        | false ↦ (p, h)
      ]

  pub All-sort {κ} : (P : A → Type κ) (xs : List A) → All P xs → All P (sort lt xs)
  unfolding sort
  All-sort P [] h = tt
  All-sort P (x ∷ xs) h = All-insert P x (sort lt xs) h.0 (All-sort P xs h.1)

  module _ (order : Order lt) where
    pub insert-IsSorted : (x : A) (xs : List A) → IsSorted lt xs → IsSorted lt (insert lt x xs)
    unfolding insert
    insert-IsSorted x [] h = (tt, tt)
    insert-IsSorted x (y ∷ ys) h = elim (Bool-cases (lt y x)) [
      | inl below ↦ rw below (
        All-insert (λ z. lt z y ≡ false) x ys (order.asym y x below) h.0,
        insert-IsSorted x ys h.1,
      )
      | inr above ↦ rw above ((above, All-map (λ z q. order.neg_trans x y z above q) ys h.0), h)
    ]

    pub sort-IsSorted : (xs : List A) → IsSorted lt (sort lt xs)
    unfolding sort
    sort-IsSorted [] = tt
    sort-IsSorted (x ∷ xs) = insert-IsSorted x (sort lt xs) (sort-IsSorted xs)
