-- ===== src/Cacheprog/Capped.antt =====
-- src/cacheprog/session.rs: the cap on a merged manifest.
use flywheel.Prelude.{
  ℕ, zero, suc, ◌+◌, ◌-◌, ◌≡◌, ◌≤◌, refl, ap, ◌∙◌, ◌⊎◌, true, false, Option, List, [], ◌∷◌, filter,
  take, length, length-map, All, All-map, ltb, arith, Bool-cases, inl, inr,
}
use flywheel.Bytes.{Bytes, bytes_eq}
use flywheel.Bytes.Order.{bytes_eq→eq, bytes_eq_refl}
use flywheel.Sort.{sort, insert}
use flywheel.Sort.Sorted.{All-sort, All-insert}
use flywheel.Cacheprog.{
  ManifestEntry, Manifest, Map, UsedEntry, manifest_max_entries, insert_key, remove_key,
}
use flywheel.Cacheprog.Merge.{
  stored_entries, is_recent, seen_now, insert_used, older, by_age, remove_all, cap_entries,
  merge_manifest,
}
use flywheel.Cacheprog.Merged.{Fresh, IsMap, Fresh-filter}

-- Another action than `a`.
abbrev Apart : ℕ × Bytes → ℕ × Bytes → Type 0
Apart (_, a) (_, b) = bytes_eq a b ≡ false

-- No action twice.
abbrev Distinct : List (ℕ × Bytes) → Type 0
Distinct [] = Unit
Distinct (x ∷ xs) = All (Apart x) xs × Distinct xs

bytes_eq_sym : (a b : Bytes) → bytes_eq a b ≡ false → bytes_eq b a ≡ false
bytes_eq_sym a b h = ground (arith, bytes_eq→eq b a, bytes_eq_refl a)

-- The entry is in the map.
abbrev Holds : Bytes → Map ManifestEntry → Type 0
Holds key [] = ⊥
Holds key ((k, _) ∷ rest) = (bytes_eq k key ≡ true) ⊎ Holds key rest

insert-Distinct :
    (x : ℕ × Bytes) (xs : List (ℕ × Bytes))
    → All (Apart x) xs
    → Distinct xs
    → Distinct (insert older x xs)
unfolding insert
insert-Distinct x [] a d = (tt, tt)
insert-Distinct x (z ∷ zs) a d = elim (Bool-cases (older z x)) [
  | inl e ↦
      rw (e, insert)
        (
          All-insert older (Apart z) x zs (bytes_eq_sym x.1 z.1 a.0) d.0,
          insert-Distinct x zs a.1 d.1,
        )
  | inr e ↦ rw (e, insert) (a, d)
]

sort-Distinct : (xs : List (ℕ × Bytes)) → Distinct xs → Distinct (sort older xs)
unfolding sort
sort-Distinct [] d = tt
sort-Distinct (x ∷ xs) d =
    insert-Distinct x (sort older xs) (All-sort older (Apart x) xs d.0) (sort-Distinct xs d.1)

length-insert : (x : ℕ × Bytes) (xs : List (ℕ × Bytes)) → length (insert older x xs) ≡ length xs + 1
unfolding insert
length-insert x [] = refl
length-insert x (z ∷ zs) = ground (arith, length-insert x zs)

length-sort : (xs : List (ℕ × Bytes)) → length (sort older xs) ≡ length xs
unfolding sort
length-sort [] = refl
length-sort (x ∷ xs) = omega (arith, length-insert x (sort older xs), length-sort xs)

by_age-Holds : (es : Map ManifestEntry) → All (λ p. Holds p.1 es) (by_age es)
by_age-Holds [] = tt
by_age-Holds ((k, e) ∷ es) =
    (inl (bytes_eq_refl k), All-map (λ p h. inr h) (by_age es) (by_age-Holds es))

Fresh-Apart :
    (k : Bytes) (t : ℕ) (es : Map ManifestEntry) → Fresh k es → All (Apart (t, k)) (by_age es)
Fresh-Apart k t [] h = tt
Fresh-Apart k t ((i, e) ∷ es) h = (bytes_eq_sym i k h.0, Fresh-Apart k t es h.1)

by_age-Distinct : (es : Map ManifestEntry) → IsMap es → Distinct (by_age es)
by_age-Distinct [] h = tt
by_age-Distinct ((k, e) ∷ es) h = (Fresh-Apart k e.last_seen es h.0, by_age-Distinct es h.1)

take-All {κ} :
    (P : ℕ × Bytes → Type κ) (n : ℕ) (xs : List (ℕ × Bytes)) → All P xs → All P (take n xs)
take-All P zero xs h = tt
take-All P (suc n) [] h = tt
take-All P (suc n) (x ∷ xs) h = (h.0, take-All P n xs h.1)

take-Distinct : (n : ℕ) (xs : List (ℕ × Bytes)) → Distinct xs → Distinct (take n xs)
take-Distinct zero xs h = tt
take-Distinct (suc n) [] h = tt
take-Distinct (suc n) (x ∷ xs) h = (take-All (Apart x) n xs h.0, take-Distinct n xs h.1)

length-take : (n : ℕ) (xs : List (ℕ × Bytes)) → n ≤ length xs → length (take n xs) ≡ n
length-take zero xs h = refl
length-take (suc n) [] h = absurd (omega arith)
length-take (suc n) (x ∷ xs) h = ap suc (length-take n xs (omega arith))

length-remove_key :
    (k : Bytes) (m : Map ManifestEntry) → Holds k m → length (remove_key k m) + 1 ≡ length m
unfolding remove_key
length-remove_key k [] h = elim h [ ]
length-remove_key k ((i, e) ∷ m) h = elim (Bool-cases (bytes_eq i k)) [
  | inl same ↦ rw (same, remove_key) (omega arith)
  | inr other ↦
      rw (other, remove_key)
        (elim h [
          | inl same ↦ absurd (ground arith)
          | inr rest ↦ omega (arith, length-remove_key k m rest)
        ])
]

remove_key-Holds :
    (k j : Bytes) (m : Map ManifestEntry)
    → bytes_eq k j ≡ false
    → Holds j m
    → Holds j (remove_key k m)
unfolding remove_key
remove_key-Holds k j [] n h = h
remove_key-Holds k j ((i, e) ∷ m) n h = elim (Bool-cases (bytes_eq i k)) [
  | inr other ↦
      rw (other, remove_key)
        (elim h [ inl same ↦ inl same | inr rest ↦ inr (remove_key-Holds k j m n rest) ])
  | inl same ↦
      rw (same, remove_key)
        (elim h [ inl here ↦ absurd (ground (arith, bytes_eq→eq i k)) | inr rest ↦ rest ])
]

remove_key-All-Holds :
    (k : Bytes) (t : ℕ) (vs : List (ℕ × Bytes)) (m : Map ManifestEntry)
    → All (Apart (t, k)) vs
    → All (λ p. Holds p.1 m) vs
    → All (λ p. Holds p.1 (remove_key k m)) vs
remove_key-All-Holds k t [] m a h = tt
remove_key-All-Holds k t ((s, j) ∷ vs) m a h =
    (remove_key-Holds k j m a.0 h.0, remove_key-All-Holds k t vs m a.1 h.1)

length-remove_all :
    (vs : List (ℕ × Bytes)) (m : Map ManifestEntry)
    → Distinct vs
    → All (λ p. Holds p.1 m) vs
    → length (remove_all vs m) + length vs ≡ length m
unfolding remove_all
length-remove_all [] m d h = omega arith
length-remove_all ((t, k) ∷ vs) m d h = omega (
  arith,
  length-remove_all vs (remove_key k m) d.1 (remove_key-All-Holds k t vs m d.0 h.1),
  length-remove_key k m h.0,
)

length-cap_entries :
    (limit : ℕ) (m : Map ManifestEntry) → IsMap m → length (cap_entries limit m) ≤ limit
unfolding cap_entries
length-cap_entries limit m h =
    let aged = sort older (by_age m) in
    let excess = length m - limit in
    let whole : length aged ≡ length m =
      length-sort (by_age m) ∙ length-map (λ (e : Bytes × ManifestEntry). (e.1.last_seen, e.0)) m in
    elim (Bool-cases (ltb limit (length m))) [
      | inr under ↦ rw (under, cap_entries) (ground arith)
      | inl over ↦
          let removed =
            length-remove_all (take excess aged) m
              (take-Distinct excess aged (sort-Distinct (by_age m) (by_age-Distinct m h)))
              (take-All (λ p. Holds p.1 m) excess aged
                (All-sort older (λ p. Holds p.1 m) (by_age m) (by_age-Holds m))) in
          let all : length (take excess aged) ≡ excess =
            length-take excess aged (omega (arith, whole)) in
          rw (over, cap_entries) (ground (arith, removed, all))
    ]

insert_key-Fresh :
    (j k : Bytes) (v : ManifestEntry) (m : Map ManifestEntry)
    → bytes_eq k j ≡ false
    → Fresh j m
    → Fresh j (insert_key k v m)
unfolding insert_key
insert_key-Fresh j k v [] n h = (n, tt)
insert_key-Fresh j k v ((i, e) ∷ m) n h = elim (Bool-cases (bytes_eq i k)) [
  | inl same ↦ rw (same, insert_key) h
  | inr other ↦ rw (other, insert_key) (h.0, insert_key-Fresh j k v m n h.1)
]

insert_key-IsMap :
    (k : Bytes) (v : ManifestEntry) (m : Map ManifestEntry) → IsMap m → IsMap (insert_key k v m)
unfolding insert_key
insert_key-IsMap k v [] h = (tt, tt)
insert_key-IsMap k v ((i, e) ∷ m) h = elim (Bool-cases (bytes_eq i k)) [
  | inl same ↦ rw (same, insert_key) h
  | inr other ↦
      rw (other, insert_key)
        (insert_key-Fresh i k v m (bytes_eq_sym i k other) h.0, insert_key-IsMap k v m h.1)
]

insert_used-IsMap :
    (now : ℕ) (used : Map UsedEntry) (m : Map ManifestEntry)
    → IsMap m
    → IsMap (insert_used now used m)
unfolding insert_used
insert_used-IsMap now [] m h = h
insert_used-IsMap now ((k, u) ∷ used) m h =
    insert_used-IsMap now used (insert_key k (seen_now now u) m)
      (insert_key-IsMap k (seen_now now u) m h)

filter-IsMap : (now : ℕ) (m : Map ManifestEntry) → IsMap m → IsMap (filter (is_recent now) m)
filter-IsMap now [] h = tt
filter-IsMap now ((k, e) ∷ m) h = elim (Bool-cases (is_recent now (k, e))) [
  | inl kept ↦ rw kept (Fresh-filter now k m h.0, filter-IsMap now m h.1)
  | inr gone ↦ rw gone (filter-IsMap now m h.1)
]

-- A merged manifest never has more entries than the cap, however many were stored and used, if an
-- action occurs once in the stored ones.
pub length-merge_manifest :
    (stored : Option Manifest) (used : Map UsedEntry) (now : ℕ)
    → IsMap (stored_entries stored)
    → length (merge_manifest stored used now).entries ≤ manifest_max_entries
unfolding merge_manifest
length-merge_manifest stored used now h =
    let kept = filter (is_recent now) (stored_entries stored) in
    length-cap_entries manifest_max_entries (insert_used now used kept)
      (insert_used-IsMap now used kept (filter-IsMap now (stored_entries stored) h))
