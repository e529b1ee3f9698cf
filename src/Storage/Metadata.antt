-- ===== src/Storage/Metadata.antt =====
-- src/storage/metadata/rocksdb.rs: the operations of `RocksMetadata`. Each reads the database it
-- is given and returns the one that its batch leaves; an error leaves the database as it was.
-- Every operation runs in one blocking closure on one database, so the `spawn_blocking` around
-- it, whose only own error is a panicking task, is left out.
pub mod Queue
pub mod Publish
pub mod Reclaim
pub mod Requeue
pub mod Deletion
use flywheel.Prelude.{
  ℕ, ◌≡◌, ◌≤◌, Bool, true, false, not, ◌||◌, ◌-◌, Option, none, some, List, [], ◌∷◌, ◌++◌, length,
  ltb, leb, ◌==◌, if◌then◌else◌,
}
use flywheel.Bytes.{Bytes, codes, bytes_eq, starts_with}
use flywheel.Storage.Ids.{
  ChannelId, UlidText, ArtifactId, ArtifactMetadata, ReferenceRecord, ChannelRecord, Durability,
  durable, best_effort,
}
use flywheel.Storage.Errors.{
  RecordError, MetadataError, store, incompatible_store, already_exists, record_failed, Result, ok,
  err, ◌>>=◌, map_err,
}
use flywheel.Storage.Records.{Codec, encode_record, decode_record}
use flywheel.Storage.Database.{
  Database, Family, meta, artifacts, references, eviction, channels, Op, put, delete, delete_range,
}
use flywheel.Storage.Keys.{
  artifact_key, reference_key, eviction_key, decode_eviction_key, prefix_end,
}

-- The libraries under the store.
pub record Libraries : Type 1 where
  pub database : Database
  pub text : UlidText
  pub artifact_codec : Codec ArtifactMetadata
  pub reference_codec : Codec ReferenceRecord
  pub channel_codec : Codec ChannelRecord

-- A row of the eviction queue.
pub record Candidate : Type 0 where
  pub eligible_at : ℕ
  pub artifact : ArtifactId

pub data Evicted : Type 0 where
  removed : ℕ → Evicted
  stale : Evicted

-- `STORE_FORMAT_KEY` and `STORE_FORMAT`
abbrev pub store_format_key : Bytes
store_format_key = codes "store-format"

abbrev pub store_format : Bytes
store_format = codes "flywheel-channel-cache-v1"

-- `.map(|bytes| decode_record(&bytes)).transpose()`
unfoldable pub decode_found :
    {A : Type 0} → Codec A → Option Bytes → Result MetadataError (Option A)
decode_found codec none = ok none
decode_found codec (some bytes) = do
  value ← map_err record_failed (decode_record codec bytes)
  ok (some value)

-- `batch.put_cf(family, key, encode_record(value)?)`
unfoldable pub put_record : {A : Type 0} → Codec A → Family → Bytes → A → Result MetadataError Op
put_record codec family key value = do
  bytes ← map_err record_failed (encode_record codec value)
  ok (put family key bytes)

module _ (lib : Libraries) where
  abbrev Db : Type 0
  Db = lib.database.Db

  unfoldable pub get_cf : Db → Family → Bytes → Result MetadataError (Option Bytes)
  get_cf db family key = map_err store (lib.database.get db family key)

  -- `write_sync`
  unfoldable pub write_sync : Db → List Op → Result MetadataError Db
  write_sync db batch = map_err store (lib.database.write db true batch)

  -- `database.write(batch)`
  unfoldable pub write_unsynced : Db → List Op → Result MetadataError Db
  write_unsynced db batch = map_err store (lib.database.write db false batch)

  unfoldable pub write : Db → List Op → Durability → Result MetadataError Db
  unfolding write_sync write_unsynced
  write db batch durable = write_sync db batch
  write db batch best_effort = write_unsynced db batch

  unfoldable pub verify_store_format : Db → Result MetadataError Db
  verify_store_format db = do
    found ← get_cf db meta store_format_key
    elim found [
      | none ↦ write_sync db (put meta store_format_key store_format ∷ [])
      | some recorded ↦
          if bytes_eq recorded store_format then ok db else err (incompatible_store recorded)
    ]

  -- The rows that a new artifact puts.
  unfoldable pub publication_rows :
      ChannelId → ArtifactId → ArtifactMetadata → Option Bytes → Result MetadataError (List Op)
  publication_rows channel artifact metadata (some _) = ok []
  publication_rows channel artifact metadata none = do
    row ← put_record lib.artifact_codec artifacts (artifact_key lib.text channel artifact) metadata
    ok (row ∷ put eviction (eviction_key lib.text channel metadata.eligible_at artifact) [] ∷ [])

  unfoldable pub reference_rows :
      ChannelId → Option (Bytes × ReferenceRecord) → Result MetadataError (List Op)
  reference_rows channel none = ok []
  reference_rows channel (some (name, r)) = do
    row ← put_record lib.reference_codec references (reference_key lib.text channel name) r
    ok (row ∷ [])

  abbrev pub is_none {ℓ} : {A : Type ℓ} → Option A → Bool
  is_none none = true
  is_none (some _) = false

  unfoldable pub commit_publication :
      Db
      → ChannelId
      → ArtifactId
      → ArtifactMetadata
      → Option (Bytes × ReferenceRecord)
      → Durability
      → Result MetadataError (Db × Bool)
  commit_publication db channel artifact metadata reference durability = do
    found ← get_cf db artifacts (artifact_key lib.text channel artifact)
    rows ← publication_rows channel artifact metadata found
    binding ← reference_rows channel reference
    db' ← write db (rows ++ binding) durability
    ok (db', is_none found)

  -- `RocksMetadata::artifact`
  unfoldable pub artifact_metadata :
      Db → ChannelId → ArtifactId → Result MetadataError (Option ArtifactMetadata)
  artifact_metadata db channel artifact = do
    found ← get_cf db artifacts (artifact_key lib.text channel artifact)
    decode_found lib.artifact_codec found

  -- The queue row that `remove_artifact` deletes.
  unfoldable pub removal_rows : ChannelId → ArtifactId → Option ArtifactMetadata → List Op
  removal_rows channel artifact none = []
  removal_rows channel artifact (some metadata) =
      delete eviction (eviction_key lib.text channel metadata.eligible_at artifact) ∷ []

  unfoldable pub remove_artifact : Db → ChannelId → ArtifactId → Result MetadataError Db
  remove_artifact db channel artifact = do
    found ← get_cf db artifacts (artifact_key lib.text channel artifact)
    metadata ← decode_found lib.artifact_codec found
    write_unsynced db (
        removal_rows channel artifact metadata
        ++ delete artifacts (artifact_key lib.text channel artifact) ∷ [])

  unfoldable pub bind_reference :
      Db → ChannelId → Bytes → ReferenceRecord → Durability → Result MetadataError Db
  bind_reference db channel reference r durability = do
    row ← put_record lib.reference_codec references (reference_key lib.text channel reference) r
    write db (row ∷ []) durability

  -- `RocksMetadata::reference`
  unfoldable pub resolve_reference :
      Db → ChannelId → Bytes → Result MetadataError (Option ReferenceRecord)
  resolve_reference db channel reference = do
    found ← get_cf db references (reference_key lib.text channel reference)
    decode_found lib.reference_codec found

  unfoldable pub delete_reference : Db → ChannelId → Bytes → Result MetadataError Db
  delete_reference db channel reference =
      write_sync db (delete references (reference_key lib.text channel reference) ∷ [])

  -- The loop of `reclaim_candidates`, with the candidates that may still be taken.
  unfoldable pub collect_candidates :
      Bytes → ℕ → List (Option (Bytes × Bytes)) → Result MetadataError (List Candidate)
  collect_candidates prefix limit [] = ok []
  collect_candidates prefix limit (none ∷ items) = err (store [])
  collect_candidates prefix limit (some (key, _) ∷ items) =
      let rest = collect_candidates prefix (limit - 1) items in
      if not (starts_with key prefix) || limit == 0 then ok [] else (do
        (deadline, artifact) ← decode_eviction_key key
        candidates ← rest
        ok (record { eligible_at = deadline; artifact = artifact } ∷ candidates))

  unfoldable pub reclaim_candidates : Db → ChannelId → ℕ → Result MetadataError (List Candidate)
  unfolding collect_candidates
  reclaim_candidates db channel limit =
      let prefix = lib.text.as_key channel in
      collect_candidates prefix limit (lib.database.iterate db eviction prefix)

  -- The rest of `requeue`, for the metadata found.
  unfoldable pub requeue_found :
      Db → ChannelId → ArtifactId → ℕ → ℕ → Option ArtifactMetadata → Result MetadataError Db
  requeue_found db channel artifact old_eligible_at new_eligible_at none = ok db
  requeue_found db channel artifact old_eligible_at new_eligible_at (some metadata) =
      if metadata.eligible_at == old_eligible_at
      then (do
        row ←
            put_record lib.artifact_codec artifacts (artifact_key lib.text channel artifact)
              (record metadata { eligible_at = new_eligible_at })
        write_unsynced db (
            delete eviction (eviction_key lib.text channel old_eligible_at artifact)
            ∷ put eviction (eviction_key lib.text channel new_eligible_at artifact) []
            ∷ row
            ∷ []))
      else ok db

  unfoldable pub requeue : Db → ChannelId → ArtifactId → ℕ → ℕ → Result MetadataError Db
  unfolding requeue_found
  requeue db channel artifact old_eligible_at new_eligible_at = do
    found ← get_cf db artifacts (artifact_key lib.text channel artifact)
    known ← decode_found lib.artifact_codec found
    requeue_found db channel artifact old_eligible_at new_eligible_at known

  -- The batch and the outcome of `evict` for the metadata found.
  unfoldable pub eviction_rows :
      ChannelId → ArtifactId → ℕ → Option ArtifactMetadata → List Op × Evicted
  eviction_rows channel artifact eligible_at none =
      (delete eviction (eviction_key lib.text channel eligible_at artifact) ∷ [], stale)
  eviction_rows channel artifact eligible_at (some metadata) =
      if metadata.eligible_at == eligible_at
      then (
        delete artifacts (artifact_key lib.text channel artifact)
            ∷ delete eviction (eviction_key lib.text channel eligible_at artifact)
            ∷ [],
        removed metadata.stored_len,
      )
      else (delete eviction (eviction_key lib.text channel eligible_at artifact) ∷ [], stale)

  unfoldable pub evict : Db → ChannelId → ArtifactId → ℕ → Result MetadataError (Db × Evicted)
  evict db channel artifact eligible_at = do
    found ← get_cf db artifacts (artifact_key lib.text channel artifact)
    metadata ← decode_found lib.artifact_codec found
    let rows = eviction_rows channel artifact eligible_at metadata
    db' ← write_unsynced db rows.0
    ok (db', rows.1)

  unfoldable pub create_channel : Db → ChannelRecord → Result MetadataError Db
  create_channel db channel = do
    found ← get_cf db channels (lib.text.as_key channel.id)
    elim found [
      | some _ ↦ err already_exists
      | none ↦ do
        row ← put_record lib.channel_codec channels (lib.text.as_key channel.id) channel
        write_sync db (row ∷ [])
    ]

  -- `RocksMetadata::channel`
  unfoldable pub channel_record : Db → ChannelId → Result MetadataError (Option ChannelRecord)
  channel_record db id = do
    found ← get_cf db channels (lib.text.as_key id)
    decode_found lib.channel_codec found

  unfoldable pub store_channel : Db → ChannelRecord → Result MetadataError Db
  store_channel db channel = do
    row ← put_record lib.channel_codec channels (lib.text.as_key channel.id) channel
    write_sync db (row ∷ [])

  unfoldable pub decode_channels :
      List (Option (Bytes × Bytes)) → Result MetadataError (List ChannelRecord)
  decode_channels [] = ok []
  decode_channels (none ∷ items) = err (store [])
  decode_channels (some (_, bytes) ∷ items) =
      let rest = decode_channels items in
      do
        channel ← map_err record_failed (decode_record lib.channel_codec bytes)
        more ← rest
        ok (channel ∷ more)

  -- `RocksMetadata::channels`
  unfoldable pub channel_records : Db → Result MetadataError (List ChannelRecord)
  unfolding decode_channels
  channel_records db = decode_channels (lib.database.iterate db channels [])

  unfoldable pub delete_channel_data : Db → ChannelId → Result MetadataError Db
  delete_channel_data db id =
      let prefix = lib.text.as_key id in
      write_sync db (
        delete_range artifacts prefix (prefix_end prefix)
        ∷ delete_range references prefix (prefix_end prefix)
        ∷ delete_range eviction prefix (prefix_end prefix)
        ∷ [])

  unfoldable pub finish_channel_deletion : Db → ChannelId → Result MetadataError Db
  finish_channel_deletion db id = write_sync db (delete channels (lib.text.as_key id) ∷ [])
