-- ===== src/Cacheprog/Merge.antt =====
-- src/cacheprog/session.rs: `merge_manifest`.
use flywheel.Prelude.{
  ℕ, ◌-◌, Bool, ◌&&◌, ◌||◌, Option, none, some, List, [], ◌∷◌, map, filter, take, length, ltb, leb,
  ◌==◌, if◌then◌else◌,
}
use flywheel.Bytes.{Bytes, bytes_lt}
use flywheel.Sort.{sort}
use flywheel.Cacheprog.{
  ManifestEntry, Manifest, Map, UsedEntry, manifest_version, manifest_max_entries,
  manifest_max_age_seconds, insert_key, remove_key,
}

-- The entries of the stored manifest, if there is one.
abbrev pub stored_entries : Option Manifest → Map ManifestEntry
stored_entries none = []
stored_entries (some manifest) = manifest.entries

-- `retain`
abbrev pub is_recent : ℕ → Bytes × ManifestEntry → Bool
is_recent now (action, entry) = leb (now - entry.last_seen) manifest_max_age_seconds

abbrev pub seen_now : ℕ → UsedEntry → ManifestEntry
seen_now now used = record { output = used.output; size = used.size; last_seen = now }

-- The loop over what the build used.
unfoldable pub insert_used : ℕ → Map UsedEntry → Map ManifestEntry → Map ManifestEntry
unfolding insert_key
insert_used now [] entries = entries
insert_used now ((action, entry) ∷ used) entries =
    insert_used now used (insert_key action (seen_now now entry) entries)

-- The order of `(u64, String)`.
abbrev pub older : ℕ × Bytes → ℕ × Bytes → Bool
older (s, a) (t, b) = ltb s t || (s == t && bytes_lt a b)

abbrev pub by_age : Map ManifestEntry → List (ℕ × Bytes)
by_age = map λ (e : Bytes × ManifestEntry). (e.1.last_seen, e.0)

unfoldable pub remove_all : List (ℕ × Bytes) → Map ManifestEntry → Map ManifestEntry
unfolding remove_key
remove_all [] entries = entries
remove_all ((_, action) ∷ rest) entries = remove_all rest (remove_key action entries)

-- The eviction of the oldest entries beyond the cap.
unfoldable pub cap_entries : ℕ → Map ManifestEntry → Map ManifestEntry
unfolding remove_all
cap_entries limit entries =
    if ltb limit (length entries)
    then remove_all (take (length entries - limit) (sort older (by_age entries))) entries
    else entries

unfoldable pub merge_manifest : Option Manifest → Map UsedEntry → ℕ → Manifest
unfolding insert_used cap_entries
merge_manifest stored used now = record {
  version = manifest_version;
  entries =
      cap_entries manifest_max_entries
        (insert_used now used (filter (is_recent now) (stored_entries stored)));
}
