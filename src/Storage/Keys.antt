-- ===== src/Storage/Keys.antt =====
-- src/storage/metadata/rocksdb.rs: the keys of the column families.
pub mod Laws
use flywheel.Prelude.{
  ℕ, zero, suc, ◌+◌, ◌≡◌, ◌≤◌, ◌<◌, ◌^◌, refl, sym, ap, subst, ◌∙◌, Bool, true, false, not, ◌&&◌,
  List, [], ◌∷◌, ◌++◌, arith, length, length-append, take, drop, Bool-cases, inl, inr, compare,
  ◌==◌, if◌then◌else◌, IsU64, u64_max,
}
use flywheel.Bytes.{Bytes, codes, bytes_eq, bytes_lt, starts_with, to_be_bytes, from_be_bytes}
use flywheel.Bytes.Order.{
  bytes_eq_refl, bytes_eq→eq, append_inj, bytes_lt-append, bytes_lt-append_left,
}
use flywheel.Bytes.Words.{length-to_be_bytes, from_be_bytes-to_be_bytes, bytes_lt-to_be_bytes}
use flywheel.Storage.Ids.{ChannelId, UlidText, ArtifactId, artifact_eq, ulid_len, IsDigest}
use flywheel.Storage.Errors.{MetadataError, store, Result, ok, err}

-- `prefix_end`: the last byte, incremented.
unfoldable pub prefix_end : Bytes → Bytes
prefix_end [] = []
prefix_end (b ∷ []) = (b + 1) ∷ []
prefix_end (b ∷ c ∷ bs) = b ∷ prefix_end (c ∷ bs)

-- A key is at least a nonempty prefix and below its end exactly if it starts with the prefix.
pub prefix_range :
    (key prefix : Bytes) (last : ℕ)
    → (not (bytes_lt key (prefix ++ last ∷ [])) && bytes_lt key (prefix_end (prefix ++ last ∷ [])))
      ≡ starts_with key (prefix ++ last ∷ [])
unfolding bytes_lt prefix_end starts_with
prefix_range [] [] last = refl
prefix_range (k ∷ []) [] last = ground arith
prefix_range (k ∷ j ∷ ks) [] last = ground arith
prefix_range [] (p ∷ []) last = refl
prefix_range [] (p ∷ q ∷ ps) last = refl
prefix_range (k ∷ ks) (p ∷ []) last = ground (arith, prefix_range ks [] last)
prefix_range (k ∷ ks) (p ∷ q ∷ ps) last = ground (arith, prefix_range ks (q ∷ ps) last)

pub starts_with-append : (prefix rest : Bytes) → starts_with (prefix ++ rest) prefix ≡ true
unfolding starts_with
starts_with-append [] rest = refl
starts_with-append (p ∷ ps) rest = ground (arith, starts_with-append ps rest)

-- Strings of one length: only the prefix itself is a prefix.
pub starts_with-eq :
    (a b rest : Bytes) → length a ≡ length b → starts_with (a ++ rest) b ≡ bytes_eq a b
unfolding starts_with bytes_eq
starts_with-eq [] [] rest e = refl
starts_with-eq [] (_ ∷ b) rest e = absurd (omega arith)
starts_with-eq (_ ∷ a) [] rest e = absurd (omega arith)
starts_with-eq (x ∷ a) (y ∷ b) rest e = ground (arith, starts_with-eq a b rest)

-- `decode_eviction_key`: only a key of the full length is taken apart.
unfoldable pub decode_eviction_key : Bytes → Result MetadataError (ℕ × ArtifactId)
decode_eviction_key key =
    if length key == ulid_len + 8 + 32
    then ok
        (from_be_bytes (take 8 (drop ulid_len key)), record { digest = drop (ulid_len + 8) key })
    else err (store (codes "invalid eviction key"))

module _ (text : UlidText) where
  unfoldable pub artifact_key : ChannelId → ArtifactId → Bytes
  artifact_key channel artifact = text.as_key channel ++ artifact.digest

  unfoldable pub reference_key : ChannelId → Bytes → Bytes
  reference_key channel reference = text.as_key channel ++ reference

  unfoldable pub eviction_key : ChannelId → ℕ → ArtifactId → Bytes
  eviction_key channel eligible_at artifact =
      text.as_key channel ++ (to_be_bytes 8 eligible_at ++ artifact.digest)
