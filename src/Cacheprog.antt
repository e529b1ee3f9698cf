-- ===== src/Cacheprog.antt =====
-- src/manifest.rs and src/cacheprog: the build helper, which answers the go command from a local
-- directory and the remote cache, and predicts by the manifest of the last build.
pub mod Merge
pub mod Merged
pub mod Capped
pub mod Labels
pub mod Objects
pub mod Integrity
pub mod Found
pub mod Writers
pub mod Plan
pub mod Protocol
use flywheel.Prelude.{ℕ, Bool, true, false, Option, none, some, List, [], ◌∷◌, if◌then◌else◌}
use flywheel.Bytes.{Bytes, codes, bytes_eq}

pub record ManifestEntry : Type 0 where
  pub output : Bytes
  pub size : ℕ
  pub last_seen : ℕ

-- A hash map, as its entries; a key occurs once.
abbrev pub Map : Type 0 → Type 0
Map A = List (Bytes × A)

pub record Manifest : Type 0 where
  pub version : ℕ
  pub entries : Map ManifestEntry

pub record UsedEntry : Type 0 where
  pub output : Bytes
  pub size : ℕ

-- `MANIFEST_VERSION`, `MANIFEST_MAX_ENTRIES`, `MANIFEST_MAX_AGE_SECONDS`
abbrev pub manifest_version : ℕ
manifest_version = 1

abbrev pub manifest_max_entries : ℕ
manifest_max_entries = 32768

abbrev pub manifest_max_age_seconds : ℕ
manifest_max_age_seconds = 1209600

-- `Manifest::empty`
abbrev pub empty_manifest : Manifest
empty_manifest = record { version = manifest_version; entries = [] }

module _ {A : Type 0} where
  unfoldable pub lookup : Bytes → Map A → Option A
  lookup key [] = none
  lookup key ((k, value) ∷ rest) = if bytes_eq k key then some value else lookup key rest

  -- `HashMap::insert`
  unfoldable pub insert_key : Bytes → A → Map A → Map A
  insert_key key value [] = (key, value) ∷ []
  insert_key key value ((k, old) ∷ rest) =
      let kept = insert_key key value rest in
      if bytes_eq k key then (k, value) ∷ rest else (k, old) ∷ kept

  -- `HashMap::remove`
  unfoldable pub remove_key : Bytes → Map A → Map A
  remove_key key [] = []
  remove_key key ((k, old) ∷ rest) =
      let kept = remove_key key rest in if bytes_eq k key then rest else (k, old) ∷ kept
