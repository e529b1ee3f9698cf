-- ===== src/Identity.antt =====
-- src/artifact/identity.rs, src/channel/identity.rs, src/reference.rs: the texts that name
-- artifacts, channels and references. The `hex` and `ulid` crates are parameters.
use flywheel.Prelude.{
  ℕ, ◌≡◌, refl, Bool, false, not, ◌&&◌, ◌||◌, [], ◌∷◌, ◌++◌, Option, none, some, all, length, ltb,
  leb, ◌==◌, if◌then◌else◌, arith,
}
use flywheel.Bytes.{Bytes, codes, bytes_eq}
use flywheel.Bytes.Order.{bytes_eq→eq}
use flywheel.Storage.Ids.{ArtifactId, ChannelId}
use flywheel.Storage.Errors.{Result, ok, err}

pub data IdentityError : Type 0 where
  unsupported_algorithm invalid_digest : IdentityError

-- `u8::is_ascii_uppercase`, `is_ascii_alphanumeric`
abbrev pub is_uppercase : ℕ → Bool
is_uppercase c = leb 65 c && leb c 90

abbrev pub is_alphanumeric : ℕ → Bool
is_alphanumeric c = (leb 48 c && leb c 57) || (is_uppercase c || (leb 97 c && leb c 122))

-- `bytes().any(|byte| byte.is_ascii_uppercase())`
unfoldable pub any_uppercase : Bytes → Bool
any_uppercase [] = false
any_uppercase (c ∷ cs) = is_uppercase c || any_uppercase cs

-- `MAX_REFERENCE_LEN`
abbrev pub max_reference_len : ℕ
max_reference_len = 512

-- `-`, `_`, `.` and `~`
abbrev pub is_url_safe : ℕ → Bool
is_url_safe c = is_alphanumeric c || (c == 45 || (c == 95 || (c == 46 || c == 126)))

unfoldable pub url_safe : Bytes → Bool
url_safe = all is_url_safe

-- `Reference::is_valid`
unfoldable pub is_valid : Bytes → Bool
unfolding url_safe
is_valid value = ltb 0 (length value) && (leb (length value) max_reference_len && url_safe value)

-- `Reference::parse`; `none` is `ReferenceError`.
unfoldable pub parse_reference : Bytes → Option Bytes
unfolding is_valid
parse_reference value = if is_valid value then some value else none

-- `ArtifactId::ALGORITHM`
abbrev pub algorithm : Bytes
algorithm = codes "sha256"

-- `hex::encode`, `hex::decode_to_slice` into 32 bytes, and `hex::decode`.
pub record Hex : Type 0 where
  pub encode : Bytes → Bytes
  pub decode : Bytes → Option Bytes
  pub decode_all : Bytes → Option Bytes
  pub decode_all-encode : (b : Bytes) → decode_all (encode b) ≡ some b
  pub encode-lowercase : (b : Bytes) → any_uppercase (encode b) ≡ false
  pub decode-encode : (b : Bytes) → length b ≡ 32 → decode (encode b) ≡ some b
  pub length-decode : (v b : Bytes) → decode v ≡ some b → length b ≡ 32

module _ (hex : Hex) where
  -- `Digest::parse`
  unfoldable pub parse_digest : Bytes → Result IdentityError Bytes
  parse_digest value =
      if any_uppercase value
      then err invalid_digest
      else elim (hex.decode value) [ none ↦ err invalid_digest | some bytes ↦ ok bytes ]

  -- `ArtifactId::parse`
  unfoldable pub parse_artifact : Bytes → Bytes → Result IdentityError ArtifactId
  unfolding parse_digest
  parse_artifact name digest =
      if not (bytes_eq name algorithm)
      then err unsupported_algorithm
      else elim (parse_digest digest) [
        | err error ↦ err error
        | ok bytes ↦ ok (record { digest = bytes })
      ]

  -- `Display` of `ArtifactId`, behind the algorithm and a colon.
  unfoldable pub display_artifact : ArtifactId → Bytes
  display_artifact artifact = algorithm ++ 58 ∷ hex.encode artifact.digest

  -- A digest parses back from its text, and what parses is a digest.
  pub parse_artifact-encode :
      (artifact : ArtifactId)
      → length artifact.digest ≡ 32
      → parse_artifact algorithm (hex.encode artifact.digest) ≡ ok artifact
  unfolding parse_artifact bytes_eq
  parse_artifact-encode artifact len =
      rw (hex.encode-lowercase artifact.digest) (rw (hex.decode-encode artifact.digest len) refl)

-- `ChannelId::from_str`: `parse` is `Ulid::from_string`, `text` the canonical text.
module _ (parse : Bytes → Option ChannelId) (text : ChannelId → Bytes) where
  unfoldable pub from_str : Bytes → Option ChannelId
  from_str value = elim (parse value) [
    | none ↦ none
    | some channel ↦ if bytes_eq (text channel) value then some channel else none
  ]

  -- A text that names a channel is the channel's canonical text.
  pub from_str-eq-some : (value : Bytes) (c : ChannelId) → from_str value ≡ some c → text c ≡ value
  unfolding from_str
  from_str-eq-some value c h = ground (arith, bytes_eq→eq (text c) value)
