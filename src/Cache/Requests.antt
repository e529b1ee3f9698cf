-- ===== src/Cache/Requests.antt =====
-- src/cache/service.rs: `publish_or_reject`, which stages a body and commits it, and the reference
-- operations behind the channel's gate.
use flywheel.Prelude.{◌≡◌, ◌<◌, sym, subst, ◌∙◌, ℕ, Option, none, some, List}
use flywheel.Bytes.{Bytes}
use flywheel.Storage.Ids.{ChannelId, ArtifactId, ReferenceRecord, StoredEncoding, Durability}
use flywheel.Storage.Errors.{MetadataError, Result, ok, err}
use flywheel.Storage.Metadata.{Libraries, bind_reference, delete_reference}
use flywheel.Storage.Metadata.Queue.{Consistent}
use flywheel.LocalFiles.Reserver.{Reserver}
use flywheel.LocalFiles.Settlement.{Settled}
use flywheel.LocalFiles.Stage.{
  Item, Filesystem, Stop, failed_with, out_of_fuel, StagedArtifact, StageOutcome, ready, rejected,
  stage,
}
use flywheel.LocalFiles.Growth.{joined}
use flywheel.LocalFiles.Staging.{Accounted, stage-Accounted}
use flywheel.LocalFiles.Publish.{PublishCalls}
use flywheel.Cache.Publication.{
  CacheError, local, metadata, Publication, Commit, channel_fence, commit_staged,
}
use flywheel.Cache.Commit.{Backed, commit_staged-Done}

pub data PublicationTarget : Type 0 where
  by_id : ArtifactId → PublicationTarget
  content_addressed : Option Bytes → PublicationTarget

-- A request, its stream apart.
pub record PublishRequest : Type 0 where
  pub channel : ChannelId
  pub target : PublicationTarget
  pub content_type : Option Bytes
  pub content_length : Option ℕ
  pub durability : Durability
  pub encoding : StoredEncoding

-- `Admission`
pub data Admission : Type 0 where
  published : Publication → Admission
  refused : List Item → Admission

-- Why a request ends with no admission: an error, or the model's fuel.
pub data Halt : Type 0 where
  cache_error : CacheError → Halt
  unfinished : Halt

-- The artifact to publish, and the reference to bind to it.
unfoldable pub resolve_target :
    PublicationTarget → Bytes → ℕ → ArtifactId × Option (Bytes × ReferenceRecord)
resolve_target (by_id artifact) digest now = (artifact, none)
resolve_target (content_addressed none) digest now = (record { digest = digest }, none)
resolve_target (content_addressed (some reference)) digest now =
    let artifact : ArtifactId = record { digest = digest } in
    (
      artifact,
      some (
        reference,
        record { artifact = artifact; updated_at = now; etag = none; last_modified = none },
      ),
    )

unfoldable pub admission : Result CacheError Publication → Result Halt Admission
admission (ok publication) = ok (published publication)
admission (err error) = err (cache_error error)

module _ (lib : Libraries) where
  abbrev Db : Type 0
  Db = lib.database.Db

  -- A write of the store behind the fence.
  unfoldable pub fenced :
      Db → Db → ChannelId → Result MetadataError Db → Db × Result {0} CacheError Unit
  unfolding channel_fence
  fenced at_fence db channel written = elim (channel_fence lib at_fence channel) [
    | err error ↦ (db, err error)
    | ok _ ↦ elim written [ err error ↦ (db, err (metadata error)) | ok db' ↦ (db', ok tt) ]
  ]

  -- `bind_reference_with_validators`
  unfoldable pub bind_with_validators :
      Db
      → Db
      → ChannelId
      → Bytes
      → ArtifactId
      → Option Bytes
      → Option Bytes
      → ℕ
      → Durability
      → Db × Result {0} CacheError Unit
  unfolding fenced
  bind_with_validators at_fence db channel reference artifact etag last_modified now durability =
      fenced at_fence db channel (
        bind_reference lib db channel reference
          record {
            artifact = artifact;
            updated_at = now;
            etag = etag;
            last_modified = last_modified;
          }
          durability)

  -- `CacheService::delete_reference`
  unfoldable pub drop_reference : Db → Db → ChannelId → Bytes → Db × Result {0} CacheError Unit
  unfolding fenced
  drop_reference at_fence db channel reference =
      fenced at_fence db channel (delete_reference lib db channel reference)

  module _ (reserver : Reserver) (extent max_bytes : ℕ) (sha256 : Bytes → Bytes) where
    open reserver use {Ledger}

    -- `publish_or_reject`, from the outcome of the staging on.
    unfoldable pub publish_staged :
        Db
        → Db
        → PublishCalls
        → ℕ
        → PublishRequest
        → Ledger × Result Stop StageOutcome
        → Ledger × Db × Result Halt Admission
    unfolding commit_staged resolve_target admission
    publish_staged at_fence db calls now request (ledger, err (failed_with error)) =
        (ledger, db, err (cache_error (local error)))
    publish_staged at_fence db calls now request (ledger, err out_of_fuel) =
        (ledger, db, err unfinished)
    publish_staged at_fence db calls now request (ledger, ok (rejected rest)) =
        (ledger, db, ok (refused rest))
    publish_staged at_fence db calls now request (ledger, ok (ready staged)) =
        let (artifact, reference) = resolve_target request.target staged.digest now in
        let (ledger', db', result) =
          commit_staged lib reserver at_fence db ledger calls now request.channel artifact staged
            record {
              content_type = request.content_type;
              reference = reference;
              durability = request.durability;
            } in
        (ledger', db', admission result)

    unfoldable pub publish_or_reject :
        Db
        → Db
        → Filesystem
        → PublishCalls
        → ℕ
        → PublishRequest
        → List Item
        → Ledger
        → Ledger × Db × Result Halt Admission
    unfolding publish_staged
    publish_or_reject at_fence db fs calls now request items ledger =
        publish_staged at_fence db calls now request (
          stage reserver extent max_bytes sha256 fs request.durability request.encoding
            request.content_length items ledger)

    -- A published body has the digest that its target names; a refused one is handed back whole.
    abbrev pub Answered : PublicationTarget → List Item → Result Halt Admission → Type 0
    Answered (by_id artifact) items (ok (published _)) = sha256 (joined items) ≡ artifact.digest
    Answered (content_addressed _) items (ok (published _)) = Unit
    Answered target items (ok (refused rest)) = rest ≡ items
    Answered target items (err (cache_error error)) = Unit
    Answered target items (err unfinished) = ⊥

    module _ (positive : 0 < extent) where
      admission-Answered :
          (target : PublicationTarget) (items : List Item) (at_fence : Db) (channel : ChannelId)
          (staged : StagedArtifact) (now : ℕ) (result : Result CacheError Publication)
          → staged.digest ≡ sha256 (joined items)
          → Backed lib reserver at_fence channel
              (resolve_target target staged.digest now).0
              staged
              result
          → Answered target items (admission result)
      unfolding resolve_target admission
      admission-Answered (by_id artifact) items at_fence channel staged now (ok publication) whole
            (named, _) =
          sym whole ∙ named
      admission-Answered (content_addressed reference) items at_fence channel staged now
            (ok publication) whole backed =
          tt
      admission-Answered (by_id artifact) items at_fence channel staged now (err error) whole
            backed =
          tt
      admission-Answered (content_addressed reference) items at_fence channel staged now (err error)
            whole backed =
          tt

      publish_staged-Answered :
          (base : ℕ) (at_fence db : Db) (calls : PublishCalls) (now : ℕ) (request : PublishRequest)
          (items : List Item) (before : Ledger) (outcome : Ledger × Result Stop StageOutcome)
          → Settled reserver base before
          → Consistent lib (lib.database.contents db)
          → Accounted reserver extent max_bytes positive sha256 base before items outcome.0
              outcome.1
          → let (ledger', db', result) = publish_staged at_fence db calls now request outcome in
            Settled reserver base ledger'
            × Consistent lib (lib.database.contents db')
            × Answered request.target items result
      unfolding publish_staged
      publish_staged-Answered base at_fence db calls now request items before
            (ledger, err (failed_with error)) s v settled =
          (settled, v, answered request.target)
        where
          answered :
              (target : PublicationTarget) → Answered target items (err (cache_error (local error)))
          answered (by_id _) = tt
          answered (content_addressed _) = tt
      publish_staged-Answered base at_fence db calls now request items before
            (ledger, err out_of_fuel) s v account =
          absurd account
      publish_staged-Answered base at_fence db calls now request items before
            (ledger, ok (rejected rest)) s v (same, whole) =
          (subst (Settled reserver base) (sym same) s, v, answered request.target)
        where
          answered : (target : PublicationTarget) → Answered target items (ok (refused rest))
          answered (by_id _) = whole
          answered (content_addressed _) = whole
      publish_staged-Answered base at_fence db calls now request items before
            (ledger, ok (ready staged)) s v (held, _, _, _, digest, _) =
          let (artifact, reference) = resolve_target request.target staged.digest now in
          let commit : Commit = record {
            content_type = request.content_type;
            reference = reference;
            durability = request.durability;
          } in
          let (settled, kept, backed) =
            commit_staged-Done lib reserver base at_fence db ledger calls now request.channel
              artifact staged commit held v in
          (
            settled,
            kept,
            admission-Answered request.target items at_fence request.channel staged now _ digest
                backed,
          )

      -- With an extent of at least one byte, a publication request on a valid ledger and a
      -- consistent queue ends within the model's fuel, and whatever its outcome, its reservation is
      -- off the ledger and the queue is consistent with the records. A body published under an ID
      -- has the digest that the ID names; a refused stream is handed back whole.
      pub publish_or_reject-Answered :
          (base : ℕ) (at_fence db : Db) (fs : Filesystem) (calls : PublishCalls) (now : ℕ)
          (request : PublishRequest) (items : List Item) (ledger : Ledger)
          → Settled reserver base ledger
          → Consistent lib (lib.database.contents db)
          → let (ledger', db', result) =
              publish_or_reject at_fence db fs calls now request items ledger in
            Settled reserver base ledger'
            × Consistent lib (lib.database.contents db')
            × Answered request.target items result
      unfolding publish_or_reject
      publish_or_reject-Answered base at_fence db fs calls now request items ledger s v =
          publish_staged-Answered base at_fence db calls now request items ledger _ s v (
            stage-Accounted reserver extent max_bytes positive sha256 base fs request.durability
              request.encoding request.content_length items ledger s)
