-- ===== src/Sort/Filters.antt =====
-- Sorting and deduplication against dropping elements and relabelling them.
use flywheel.Prelude.{
  ◌≡◌, refl, ap, ◌∙◌, Bool, true, false, List, [], ◌∷◌, map, All, All-map, All-filter, arith,
  Bool-cases, filter, if◌then◌else◌, inl, inr,
}
use flywheel.Sort.{insert, sort, dedup_after, dedup}
use flywheel.Sort.Sorted.{Order, IsSorted, IsStrict, All-sort, sort-IsSorted}

module _ {ℓ} {A : Type ℓ} (lt : A → A → Bool) where
  -- An element that nothing is below goes to the front.
  insert_front : (x : A) (xs : List A) → All (λ y. lt y x ≡ false) xs → insert lt x xs ≡ x ∷ xs
  unfolding insert
  insert_front x [] h = refl
  insert_front x (y ∷ ys) h = rw (h.0)

  module _ (order : Order lt) (p : A → Bool) where
    above-filter :
        (x : A) (xs : List A)
        → All (λ y. lt y x ≡ false) xs
        → All (λ y. lt y x ≡ false) (filter p xs)
    above-filter x [] h = tt
    above-filter x (y ∷ ys) h =
        elim (p y)
          as (λ b. All (λ y. lt y x ≡ false) (if b then y ∷ filter p ys else filter p ys)) [
            | true ↦ (h.0, above-filter x ys h.1)
            | false ↦ above-filter x ys h.1
          ]

    filter-insert_drop :
        (x : A) (xs : List A) → p x ≡ false → filter p (insert lt x xs) ≡ filter p xs
    unfolding insert
    filter-insert_drop x [] h = rw h
    filter-insert_drop x (y ∷ ys) h = ground (arith, filter-insert_drop x ys h)

    filter-insert_keep :
        (x : A) (xs : List A)
        → p x ≡ true
        → IsSorted lt xs
        → filter p (insert lt x xs) ≡ insert lt x (filter p xs)
    unfolding insert
    filter-insert_keep x [] h s = rw h
    filter-insert_keep x (y ∷ ys) h s = elim (Bool-cases (lt y x)) [
      | inl below ↦ rw below (ground (arith, filter-insert_keep x ys h s.1))
      | inr above ↦
          let late = above-filter x ys (All-map (λ z q. order.neg_trans x y z above q) ys s.0) in
          rw above (ground (arith, insert_front x (filter p ys) late))
    ]

    pub filter-sort : (xs : List A) → filter p (sort lt xs) ≡ sort lt (filter p xs)
    unfolding sort
    filter-sort [] = refl
    filter-sort (x ∷ xs) = elim (Bool-cases (p x)) [
      | inl keep ↦ rw keep (
          filter-insert_keep x (sort lt xs) keep (sort-IsSorted lt order xs)
          ∙ ap (insert lt x) (filter-sort xs))
      | inr drops ↦ rw drops (filter-insert_drop x (sort lt xs) drops ∙ filter-sort xs)
    ]

module _ {ℓ κ ν} {A : Type ℓ} {B : Type κ} (P : A → Type ν) (lt : A → A → Bool) (lt' : B → B → Bool)
    (f : A → B) (mono : (x y : A) → P x → P y → lt' (f x) (f y) ≡ lt x y) where
  map-insert :
      (x : A) (xs : List A) → P x → All P xs → map f (insert lt x xs) ≡ insert lt' (f x) (map f xs)
  unfolding insert
  map-insert x [] p h = refl
  map-insert x (y ∷ ys) p h = rw (mono y x h.0 p) (ground (arith, map-insert x ys p h.1))

  -- A relabelling that keeps the comparison commutes with the sort.
  pub map-sort : (xs : List A) → All P xs → map f (sort lt xs) ≡ sort lt' (map f xs)
  unfolding sort
  map-sort [] h = refl
  map-sort (x ∷ xs) h =
      map-insert x (sort lt xs) h.0 (All-sort lt P xs h.1) ∙ ap (insert lt' (f x)) (map-sort xs h.1)

module _ {ℓ} {A : Type ℓ} (same : A → A → Bool) where
  -- Where nothing equals `x`, there is nothing to drop behind it.
  dedup_after-dedup :
      (x : A) (xs : List A) → All (λ z. same x z ≡ false) xs → dedup_after same x xs ≡ dedup same xs
  unfolding dedup_after dedup
  dedup_after-dedup x [] h = refl
  dedup_after-dedup x (y ∷ ys) h = rw (h.0, dedup_after)

  module _ (lt : A → A → Bool) (p : A → Bool) (respects : (x y : A) → same x y ≡ true → p x ≡ p y)
      (later : (x y z : A)
        → same x y ≡ false
        → lt y x ≡ false
        → lt z y ≡ false
        → same x z ≡ false) where
    filter-dedup_after :
        (x : A) (xs : List A)
        → All (λ y. lt y x ≡ false) xs
        → IsSorted lt xs
        → filter p (dedup_after same x xs)
          ≡ (if p x then dedup_after same x (filter p xs) else dedup same (filter p xs))
    unfolding dedup_after dedup
    filter-dedup_after x [] h s = ground arith
    filter-dedup_after x (y ∷ ys) h s = elim (Bool-cases (same x y)) [
      | inl twin ↦
          rw (twin, dedup_after)
            (ground (arith, respects x y twin, filter-dedup_after x ys h.1 s.1))
      | inr other ↦
          let rest = filter-dedup_after y ys s.0 s.1 in
          let apart = dedup_after-dedup x (filter p ys) (
            All-filter (λ z. same x z ≡ false) p ys
              (All-map (λ z q. later x y z other h.0 q) ys s.0)) in
          rw (other, dedup_after) (ground (arith, rest, apart))
    ]

    pub filter-dedup :
        (xs : List A) → IsSorted lt xs → filter p (dedup same xs) ≡ dedup same (filter p xs)
    unfolding dedup
    filter-dedup [] s = refl
    filter-dedup (x ∷ xs) s = ground (arith, filter-dedup_after x xs s.0 s.1)

module _ {ℓ} {A : Type ℓ} (lt same : A → A → Bool)
    (trans : (a b c : A) → lt a b ≡ true → lt b c ≡ true → lt a c ≡ true)
    (apart : (a b : A) → same a b ≡ false → lt b a ≡ false → lt a b ≡ true) where
  dedup_after-IsStrict :
      (x : A) (xs : List A)
      → All (λ y. lt y x ≡ false) xs
      → IsSorted lt xs
      → IsStrict lt (x ∷ dedup_after same x xs)
  unfolding dedup_after
  dedup_after-IsStrict x [] h s = (tt, tt)
  dedup_after-IsStrict x (y ∷ ys) h s = elim (Bool-cases (same x y)) [
    | inl twin ↦ rw (twin, dedup_after) (dedup_after-IsStrict x ys h.1 s.1)
    | inr other ↦
        let below = apart x y other h.0 in
        let rest = dedup_after-IsStrict y ys s.0 s.1 in
        rw (other, dedup_after)
          ((below, All-map (λ z q. trans x y z below q) (dedup_after same y ys) rest.0), rest)
  ]

  -- What is sorted and deduplicated rises strictly.
  pub dedup-IsStrict : (xs : List A) → IsSorted lt xs → IsStrict lt (dedup same xs)
  unfolding dedup
  dedup-IsStrict [] s = tt
  dedup-IsStrict (x ∷ xs) s = dedup_after-IsStrict x xs s.0 s.1

module _ {ℓ κ} {A : Type ℓ} {B : Type κ} (same : A → A → Bool) (same' : B → B → Bool) (f : A → B)
    (agree : (x y : A) → same' (f x) (f y) ≡ same x y) where
  map-dedup_after :
      (x : A) (xs : List A) → map f (dedup_after same x xs) ≡ dedup_after same' (f x) (map f xs)
  unfolding dedup_after
  map-dedup_after x [] = refl
  map-dedup_after x (y ∷ ys) = elim (Bool-cases (same x y)) [
    | inl twin ↦
        let twin' = agree x y ∙ twin in rw (twin, twin', dedup_after) (map-dedup_after x ys)
    | inr other ↦
        let other' = agree x y ∙ other in
        rw (other, other', dedup_after) (ap (◌∷◌ (f y)) (map-dedup_after y ys))
  ]

  -- A relabelling that keeps equality commutes with the deduplication.
  pub map-dedup : (xs : List A) → map f (dedup same xs) ≡ dedup same' (map f xs)
  unfolding dedup
  map-dedup [] = refl
  map-dedup (x ∷ xs) = ap (◌∷◌ (f x)) (map-dedup_after x xs)

module _ {ℓ κ} {A : Type ℓ} (same : A → A → Bool) (P : A → Type κ) where
  All-dedup_after : (x : A) (xs : List A) → All P xs → All P (dedup_after same x xs)
  unfolding dedup_after
  All-dedup_after x [] h = tt
  All-dedup_after x (y ∷ ys) h = elim (Bool-cases (same x y)) [
    | inl twin ↦ rw (twin, dedup_after) (All-dedup_after x ys h.1)
    | inr other ↦ rw (other, dedup_after) (h.0, All-dedup_after y ys h.1)
  ]

  pub All-dedup : (xs : List A) → All P xs → All P (dedup same xs)
  unfolding dedup
  All-dedup [] h = tt
  All-dedup (x ∷ xs) h = (h.0, All-dedup_after x xs h.1)
