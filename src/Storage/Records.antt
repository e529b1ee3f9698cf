-- ===== src/Storage/Records.antt =====
-- src/storage/records.rs: a version byte before the `postcard` encoding, which is a library and
-- so a parameter.
use flywheel.Prelude.{
  ℕ, ◌≡◌, Option, none, some, [], ◌∷◌, arith, Option-cases, inl, inr, ◌==◌, if◌then◌else◌,
}
use flywheel.Bytes.{Bytes}
use flywheel.Storage.Errors.{
  RecordError, empty, unsupported_version, encode, decode, Result, ok, err,
}

-- `postcard::to_stdvec` and `from_bytes` at one type: what was encoded decodes to itself.
pub record Codec (A : Type 0) : Type 0 where
  pub to_stdvec : A → Option Bytes
  pub from_bytes : Bytes → Option A
  pub round_trip :
      (a : A) (payload : Bytes) → to_stdvec a ≡ some payload → from_bytes payload ≡ some a

-- `SCHEMA_VERSION`
abbrev pub schema_version : ℕ
schema_version = 1

module _ {A : Type 0} (codec : Codec A) where
  unfoldable pub encode_record : A → Result RecordError Bytes
  encode_record value = elim (codec.to_stdvec value) [
    | none ↦ err encode
    | some payload ↦ ok (schema_version ∷ payload)
  ]

  unfoldable pub decode_record : Bytes → Result RecordError A
  decode_record [] = err empty
  decode_record (version ∷ payload) =
      if version == schema_version
      then (elim (codec.from_bytes payload) [ none ↦ err decode | some a ↦ ok a ])
      else err (unsupported_version version)

  -- What was encoded decodes to itself.
  pub decode_record-encode_record :
      (value : A) (bytes : Bytes) → encode_record value ≡ ok bytes → decode_record bytes ≡ ok value
  unfolding encode_record decode_record
  decode_record-encode_record value bytes h = elim (Option-cases (codec.to_stdvec value)) [
    | inl e ↦ absurd (ground arith)
    | inr (payload, e) ↦ ground (arith, codec.round_trip value payload e)
  ]

  -- A record of another schema version is refused, whatever its payload, and so is no record.
  pub decode_record-version :
      (version : ℕ) (payload : Bytes) {value : A}
      → decode_record (version ∷ payload) ≡ ok value
      → version ≡ schema_version
  unfolding decode_record
  decode_record-version version payload h = ground arith
