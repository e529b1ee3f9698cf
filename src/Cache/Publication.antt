-- ===== src/Cache/Publication.antt =====
-- src/cache/service.rs: `channel_fence` and `commit_staged`, the final mutation of a publication.
-- Other requests may change the store between the fence and the commit, so both are given.
use flywheel.Prelude.{ℕ, Bool, true, false, Option, none, some, saturating_add}
use flywheel.Bytes.{Bytes}
use flywheel.Storage.Ids.{ChannelId, ArtifactId, ArtifactMetadata, ReferenceRecord, Durability}
use flywheel.Storage.Errors.{MetadataError, Result, ok, err}
use flywheel.Storage.Metadata.{Libraries, channel_record, commit_publication}
use flywheel.LocalFiles.Reserver.{Reserver}
use flywheel.LocalFiles.Reservation.{Reservation, Removal, commit_bytes, discard}
use flywheel.LocalFiles.Stage.{LocalError, StagedArtifact}
use flywheel.LocalFiles.Publish.{PublishCalls, FilePublication, created, existing, publish}
use flywheel.Channels.{is_active}

pub data CacheError : Type 0 where
  local : LocalError → CacheError
  metadata : MetadataError → CacheError
  missing_channel : CacheError
  channel_deleting : CacheError
  space_unavailable : CacheError

pub data PublicationOutcome : Type 0 where
  is_created is_existing : PublicationOutcome

pub record Publication : Type 0 where
  pub artifact : ArtifactId
  pub outcome : PublicationOutcome

-- `Commit`: the metadata that a staged body commits.
pub record Commit : Type 0 where
  pub content_type : Option Bytes
  pub reference : Option (Bytes × ReferenceRecord)
  pub durability : Durability

-- The reservation of a publication, and the bytes that it installed.
unfoldable pub to_commit : FilePublication → ℕ → Reservation × ℕ
to_commit (created r) stored_len = (r, stored_len)
to_commit (existing r) stored_len = (r, 0)

unfoldable pub outcome_of : Bool → PublicationOutcome
outcome_of true = is_created
outcome_of false = is_existing

module _ (lib : Libraries) where
  abbrev Db : Type 0
  Db = lib.database.Db

  -- `channel_fence`: the expiry of an active channel.
  unfoldable pub channel_fence : Db → ChannelId → Result CacheError ℕ
  channel_fence db channel = elim (channel_record lib db channel) [
    | err error ↦ err (metadata error)
    | ok none ↦ err missing_channel
    | ok (some r) ↦ elim (is_active r.state) [
      | true ↦ ok r.expiry_seconds
      | false ↦ err channel_deleting
    ]
  ]

  module _ (reserver : Reserver) where
    open reserver use {Ledger}

    -- What an operation leaves of the ledger and the store, and its result.
    abbrev pub Outcome : Type 0 → Type 0
    Outcome A = Ledger × Db × Result CacheError A

    -- The metadata of a body that is published now.
    unfoldable pub new_metadata : StagedArtifact → Commit → ℕ → ℕ → ArtifactMetadata
    new_metadata staged commit now expiry_seconds = record {
      content_len = staged.len;
      content_type = commit.content_type;
      created_at = now;
      eligible_at = saturating_add now expiry_seconds;
      stored_len = staged.stored_len;
      encoding = staged.encoding;
    }

    -- `commit_staged`, from the commit of the metadata on.
    unfoldable pub commit_metadata :
        Db
        → Ledger
        → Removal
        → ChannelId
        → ArtifactId
        → ArtifactMetadata
        → Commit
        → Reservation × ℕ
        → Outcome Publication
    unfolding discard commit_bytes outcome_of
    commit_metadata db ledger removal channel artifact m commit (r, committed_len) =
        elim (commit_publication lib db channel artifact m commit.reference commit.durability) [
          | err error ↦ (discard reserver ledger r removal, db, err (metadata error))
          | ok (db', is_new) ↦ (
            commit_bytes reserver ledger r committed_len,
            db',
            ok (record { artifact = artifact; outcome = outcome_of is_new }),
          )
        ]

    unfoldable pub commit_staged :
        Db
        → Db
        → Ledger
        → PublishCalls
        → ℕ
        → ChannelId
        → ArtifactId
        → StagedArtifact
        → Commit
        → Outcome Publication
    unfolding channel_fence discard publish commit_metadata to_commit new_metadata
    commit_staged at_fence db ledger calls now channel artifact staged commit =
        elim (channel_fence at_fence channel) [
          | err error ↦
              (discard reserver ledger staged.reservation calls.remove_file, db, err error)
          | ok expiry_seconds ↦
              let (ledger', published) =
                publish reserver calls artifact staged commit.durability ledger in
              elim published [
                | err error ↦ (ledger', db, err (local error))
                | ok publication ↦
                    commit_metadata db ledger' calls.remove_file channel artifact
                      (new_metadata staged commit now expiry_seconds) commit
                      (to_commit publication staged.stored_len)
              ]
        ]
