-- ===== src/Cacheprog/Merged.antt =====
-- src/cacheprog/session.rs: what a merged manifest knows of an action.
use flywheel.Prelude.{
  ℕ, ◌-◌, ◌≡◌, ◌≤◌, refl, ap, ◌∙◌, false, Option, none, some, [], ◌∷◌, filter, length, ltb, leb,
  if◌then◌else◌, arith, Bool-cases, inl, inr,
}
use flywheel.Bytes.{Bytes, bytes_eq}
use flywheel.Bytes.Order.{bytes_eq→eq, bytes_eq_refl}
use flywheel.Cacheprog.{
  ManifestEntry, Manifest, Map, UsedEntry, manifest_max_entries, manifest_max_age_seconds, lookup,
  insert_key,
}
use flywheel.Cacheprog.Merge.{
  stored_entries, is_recent, seen_now, insert_used, cap_entries, merge_manifest,
}

module _ {A : Type 0} where
  pub lookup-insert_key :
      (j k : Bytes) (v : A) (m : Map A)
      → lookup j (insert_key k v m) ≡ (if bytes_eq k j then some v else lookup j m)
  unfolding lookup insert_key
  lookup-insert_key j k v [] = refl
  lookup-insert_key j k v ((i, old) ∷ rest) = ground (
    arith,
    lookup-insert_key j k v rest,
    bytes_eq→eq i k,
    bytes_eq→eq i j,
    bytes_eq→eq k j,
    bytes_eq_refl i,
  )

  -- Every key occurs once.
  abbrev pub Fresh : Bytes → Map A → Type 0
  Fresh key [] = Unit
  Fresh key ((k, _) ∷ rest) = (bytes_eq k key ≡ false) × Fresh key rest

  abbrev pub IsMap : Map A → Type 0
  IsMap [] = Unit
  IsMap ((k, _) ∷ rest) = Fresh k rest × IsMap rest

  pub lookup-Fresh : (j : Bytes) (m : Map A) → Fresh j m → lookup j m ≡ none
  unfolding lookup
  lookup-Fresh j [] h = refl
  lookup-Fresh j ((k, v) ∷ rest) h = ground (arith, lookup-Fresh j rest)

-- An entry of the build, or else the other one.
abbrev pub used_or : ℕ → Option UsedEntry → Option ManifestEntry → Option ManifestEntry
used_or now none other = other
used_or now (some used) other = some (seen_now now used)

lookup-insert_used :
    (now : ℕ) (j : Bytes) (used : Map UsedEntry) (m : Map ManifestEntry)
    → IsMap used
    → lookup j (insert_used now used m) ≡ used_or now (lookup j used) (lookup j m)
unfolding insert_used
lookup-insert_used now j [] m h = unfold lookup in refl
lookup-insert_used now j ((k, u) ∷ used) m (fresh, h) =
    lookup-insert_used now j used (insert_key k (seen_now now u) m) h
    ∙ elim (Bool-cases (bytes_eq k j)) [
      | inl same ↦
          let gone : lookup j used ≡ none =
            lookup-Fresh j used (rw (← (bytes_eq→eq k j same)) fresh) in
          rw (lookup-insert_key j k (seen_now now u) m) (rw gone (unfold lookup in (rw same refl)))
      | inr other ↦ rw (lookup-insert_key j k (seen_now now u) m) (unfold lookup in (rw other refl))
    ]

-- An entry that is kept by its age.
abbrev pub if_recent : ℕ → Option ManifestEntry → Option ManifestEntry
if_recent now none = none
if_recent now (some e) = if leb (now - e.last_seen) manifest_max_age_seconds then some e else none

pub Fresh-filter :
    (now : ℕ) (k : Bytes) (m : Map ManifestEntry) → Fresh k m → Fresh k (filter (is_recent now) m)
Fresh-filter now k [] h = tt
Fresh-filter now k ((i, e) ∷ rest) h = elim (Bool-cases (is_recent now (i, e))) [
  | inl kept ↦ rw kept (h.0, Fresh-filter now k rest h.1)
  | inr gone ↦ rw gone (Fresh-filter now k rest h.1)
]

lookup-filter :
    (now : ℕ) (j : Bytes) (m : Map ManifestEntry)
    → IsMap m
    → lookup j (filter (is_recent now) m) ≡ if_recent now (lookup j m)
unfolding lookup
lookup-filter now j [] h = refl
lookup-filter now j ((i, e) ∷ rest) (fresh, h) =
    let ih = lookup-filter now j rest h in
    elim (Bool-cases (bytes_eq i j)) [
      | inr other ↦ elim (Bool-cases (is_recent now (i, e))) [
        | inl kept ↦ rw (kept, lookup) (rw (other, lookup) ih)
        | inr gone ↦ rw (gone, lookup) (rw other ih)
      ]
      | inl same ↦ elim (Bool-cases (is_recent now (i, e))) [
        | inl kept ↦ rw (kept, lookup) (rw (same, lookup) (rw kept refl))
        | inr gone ↦
            let absent : lookup j (filter (is_recent now) rest) ≡ none =
              lookup-Fresh j (filter (is_recent now) rest)
                (rw (← (bytes_eq→eq i j same)) (Fresh-filter now i rest fresh)) in
            rw (gone, lookup) (rw same (rw (absent) (rw gone refl)))
      ]
    ]

-- Where an action occurs once in the stored entries and once in the build's, and both together are
-- within the cap, a merged manifest knows of each action what the build used, seen now, or else
-- what was stored, if it was last seen within two weeks; it knows of no other action.
pub lookup-merge_manifest :
    (stored : Option Manifest) (used : Map UsedEntry) (now : ℕ) (action : Bytes)
    → IsMap used
    → IsMap (stored_entries stored)
    → length (insert_used now used (filter (is_recent now) (stored_entries stored)))
      ≤ manifest_max_entries
    → lookup action (merge_manifest stored used now).entries
      ≡ used_or now (lookup action used) (if_recent now (lookup action (stored_entries stored)))
unfolding merge_manifest cap_entries
lookup-merge_manifest stored used now action h k few =
    let kept = filter (is_recent now) (stored_entries stored) in
    let under : ltb manifest_max_entries (length (insert_used now used kept)) ≡ false =
      ground (arith, few) in
    rw (under, merge_manifest)
      (lookup-insert_used now action used kept h
        ∙ ap (used_or now (lookup action used))
            (lookup-filter now action (stored_entries stored) k))
