-- ===== src/Storage/Ids.antt =====
-- src/channel/identity.rs, src/artifact/identity.rs, src/artifact/metadata.rs: what the stored
-- records name. A channel ID is a ULID: its 128 bits are a number, and its canonical text is a
-- parameter, since the `ulid` crate writes it. A digest is its bytes.
use flywheel.Prelude.{ℕ, ◌≡◌, ◌≤◌, Bool, Option, length, [], ◌∷◌, ◌++◌}
use flywheel.Bytes.{Bytes, bytes_eq}

abbrev pub ChannelId : Type 0
ChannelId = ℕ

-- `ChannelId::DEFAULT`, the nil ULID.
abbrev pub default_channel : ChannelId
default_channel = 0

-- `ulid::ULID_LEN`
abbrev pub ulid_len : ℕ
ulid_len = 26

-- `Ulid::array_to_str`: fixed-length text that determines the ID, whose last byte is an ASCII
-- digit or capital letter.
pub record UlidText : Type 0 where
  pub as_key : ChannelId → Bytes
  pub as_key_length : (c : ChannelId) → length (as_key c) ≡ ulid_len
  pub as_key_inj : (c d : ChannelId) → as_key c ≡ as_key d → c ≡ d
  pub front : ChannelId → Bytes
  pub last : ChannelId → ℕ
  pub as_key_split : (c : ChannelId) → as_key c ≡ front c ++ last c ∷ []
  pub last_ascii : (c : ChannelId) → last c ≤ 90

-- `ArtifactId`: its digest.
pub record ArtifactId : Type 0 where
  pub digest : Bytes

abbrev pub artifact_eq : ArtifactId → ArtifactId → Bool
artifact_eq a b = bytes_eq a.digest b.digest

-- `[u8; SHA256_BYTES]`
abbrev pub IsDigest : Bytes → Type 0
IsDigest d = length d ≡ 32

pub data StoredEncoding : Type 0 where
  identity zstd : StoredEncoding

pub record ArtifactMetadata : Type 0 where
  pub content_len : ℕ
  pub content_type : Option Bytes
  pub created_at : ℕ
  pub eligible_at : ℕ
  pub stored_len : ℕ
  pub encoding : StoredEncoding

pub record ReferenceRecord : Type 0 where
  pub artifact : ArtifactId
  pub updated_at : ℕ
  pub etag : Option Bytes
  pub last_modified : Option Bytes

-- src/channel/policy.rs and src/channel/registry.rs; a token is known by its digest.
pub data Access : Type 0 where
  open_access : Access
  token : Bytes → Access

pub data Lifecycle : Type 0 where
  active deleting : Lifecycle

pub record ChannelRecord : Type 0 where
  pub id : ChannelId
  pub access : Access
  pub expiry_seconds : ℕ
  pub state : Lifecycle
  pub created_at : ℕ

-- `Access::is_protected`
unfoldable pub is_protected : Access → Bool
is_protected open_access = Bool.false
is_protected (token _) = Bool.true

pub data Durability : Type 0 where
  durable best_effort : Durability
