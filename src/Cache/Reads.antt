-- ===== src/Cache/Reads.antt =====
-- src/cache/service.rs: `locate_local`, which drops the record of a body that is missing, and
-- `reconcile`, which removes bodies that have no record.
use flywheel.Prelude.{
  ◌≡◌, refl, ap, subst, ◌∙◌, ◌⊎◌, inl, inr, Bool, true, false, Bool-cases, ◌&&◌, ◌==◌, Option, none,
  some, List, [], ◌∷◌, ◌++◌, arith,
}
use flywheel.Bytes.{Bytes}
use flywheel.Bytes.Order.{bytes_eq_refl}
use flywheel.Storage.Ids.{ChannelId, ArtifactId, artifact_eq, ArtifactMetadata}
use flywheel.Storage.Errors.{Result, ok, err, Result-cases, >>=-eq-ok}
use flywheel.Storage.Database.{Contents, artifacts, delete, apply, family_eq}
use flywheel.Storage.Keys.{artifact_key}
use flywheel.Storage.Metadata.{
  Libraries, artifact_metadata, get_cf, decode_found, removal_rows, remove_artifact,
}
use flywheel.Storage.Metadata.Queue.{Consistent, artifact_eq→eq}
use flywheel.Storage.Metadata.Publish.{write_unsynced-contents}
use flywheel.Storage.Metadata.Reclaim.{remove_artifact-Consistent}
use flywheel.LocalFiles.Stage.{LocalError, io}
use flywheel.Cache.Publication.{CacheError, local, metadata}
use flywheel.Cache.Reclamation.{Bodies, unlink}

-- How opening a body's file ends.
pub data Opened : Type 0 where
  opened : Opened
  missing : Opened
  open_failed : Bytes → Opened

module _ (lib : Libraries) where
  abbrev pub Db : Type 0
  Db = lib.database.Db

  -- `locate_local`: the store at the read, and under the stripe where the file is missing.
  unfoldable pub locate_local :
      Db → Db → ChannelId → ArtifactId → Opened → Db × Result CacheError (Option ArtifactMetadata)
  locate_local db under_stripe channel artifact file =
      elim (artifact_metadata lib db channel artifact) [
        | err error ↦ (under_stripe, err (metadata error))
        | ok none ↦ (under_stripe, ok none)
        | ok (some m) ↦ elim file [
          | opened ↦ (under_stripe, ok (some m))
          | open_failed message ↦ (under_stripe, err (local (io message)))
          | missing ↦ elim (remove_artifact lib under_stripe channel artifact) [
            | err error ↦ (under_stripe, err (metadata error))
            | ok db' ↦ (db', ok none)
          ]
        ]
      ]

  -- Whether the store has a record, as `reconcile` asks.
  unfoldable pub has_record : Db → ChannelId → ArtifactId → Result CacheError Bool
  has_record db channel artifact = elim (artifact_metadata lib db channel artifact) [
    | err error ↦ err (metadata error)
    | ok none ↦ ok false
    | ok (some _) ↦ ok true
  ]

  -- The removal of a body, unless the second look finds a record.
  unfoldable pub remove_orphan :
      Bodies
      → ChannelId
      → ArtifactId
      → Result {0} LocalError Unit
      → Result CacheError Bool
      → Bodies × Result {0} CacheError Unit
  unfolding unlink
  remove_orphan bodies channel artifact remove (err error) = (bodies, err error)
  remove_orphan bodies channel artifact remove (ok true) = (bodies, ok tt)
  remove_orphan bodies channel artifact (err error) (ok false) = (bodies, err (local error))
  remove_orphan bodies channel artifact (ok _) (ok false) = (unlink bodies channel artifact, ok tt)

  remove_orphan_lem :
      (bodies : Bodies) (channel : ChannelId) (artifact : ArtifactId)
      (remove : Result {0} LocalError Unit) (looked : Result CacheError Bool) (d : ChannelId)
      (b : ArtifactId)
      → bodies d b ≡ true
      → ((remove_orphan bodies channel artifact remove looked).0 d b ≡ true)
        ⊎ ((looked ≡ ok false) × (channel ≡ d) × (artifact ≡ b))
  unfolding remove_orphan unlink
  remove_orphan_lem bodies channel artifact remove (err error) d b present = inl present
  remove_orphan_lem bodies channel artifact remove (ok true) d b present = inl present
  remove_orphan_lem bodies channel artifact (err error) (ok false) d b present = inl present
  remove_orphan_lem bodies channel artifact (ok _) (ok false) d b present =
      elim (Bool-cases (channel == d && artifact_eq artifact b)) [
        | inr other ↦ inl (rw other present)
        | inl same ↦ inr (refl, ground arith, artifact_eq→eq lib artifact b (ground arith))
      ]

  -- The loop of `reconcile` over the files found. `first` is the store at an artifact's first look,
  -- `second` the store under its stripe, `remove` how the removal of its body ends.
  module _ (first second : ChannelId → ArtifactId → Db)
      (remove : ChannelId → ArtifactId → Result {0} LocalError Unit) where
    unfoldable pub reconcile_one :
        Bodies → ChannelId → ArtifactId → Bodies × Result {0} CacheError Unit
    unfolding has_record remove_orphan
    reconcile_one bodies channel artifact =
        elim (has_record (first channel artifact) channel artifact) [
          | err error ↦ (bodies, err error)
          | ok true ↦ (bodies, ok tt)
          | ok false ↦
              remove_orphan bodies channel artifact (remove channel artifact)
                (has_record (second channel artifact) channel artifact)
        ]

    unfoldable pub reconcile_all :
        List (ChannelId × ArtifactId) → Bodies → Bodies × Result {0} CacheError Unit
    unfolding reconcile_one
    reconcile_all [] bodies = (bodies, ok tt)
    reconcile_all ((channel, artifact) ∷ found) bodies =
        let (bodies', result) = reconcile_one bodies channel artifact in
        elim result [ err error ↦ (bodies', err error) | ok _ ↦ reconcile_all found bodies' ]

    -- A body that is gone was one that had no record at the second look.
    abbrev Keeps : Bodies → Bodies → Type 0
    Keeps bodies bodies' =
        (d : ChannelId) (b : ArtifactId)
        → bodies d b ≡ true
        → (bodies' d b ≡ true) ⊎ (has_record (second d b) d b ≡ ok false)

    reconcile_one-Keeps :
        (bodies : Bodies) (channel : ChannelId) (artifact : ArtifactId)
        → Keeps bodies (reconcile_one bodies channel artifact).0
    unfolding reconcile_one
    reconcile_one-Keeps bodies channel artifact d b present =
        elim (Result-cases (has_record (first channel artifact) channel artifact)) [
          | inr (_, e) ↦ inl (rw (e, reconcile_one) present)
          | inl (true, e) ↦ inl (rw (e, reconcile_one) present)
          | inl (false, e) ↦
              elim (remove_orphan_lem bodies channel artifact (remove channel artifact)
                (has_record (second channel artifact) channel artifact) d b present) [
                  | inl still ↦ inl (rw (e, reconcile_one) still)
                  | inr (looked, same_channel, same_artifact) ↦ inr (
                      subst (λ x. has_record (second x b) x b ≡ ok false) same_channel
                        (subst (λ x. has_record (second channel x) channel x ≡ ok false)
                          same_artifact looked))
                ]
        ]

    -- Startup reconciliation, even where it stops at an error, removes no body but one for which the
    -- second look, under its stripe, finds no record.
    pub reconcile_all_keeps :
        (found : List (ChannelId × ArtifactId)) (bodies : Bodies) (d : ChannelId) (b : ArtifactId)
        → bodies d b ≡ true
        → ((reconcile_all found bodies).0 d b ≡ true) ⊎ (has_record (second d b) d b ≡ ok false)
    unfolding reconcile_all
    reconcile_all_keeps [] bodies d b present = inl present
    reconcile_all_keeps ((channel, artifact) ∷ found) bodies d b present =
        let (bodies', result) = reconcile_one bodies channel artifact in
        elim (reconcile_one-Keeps bodies channel artifact d b present) [
          | inr orphan ↦ inr orphan
          | inl still ↦ elim (Result-cases result) [
            | inr (_, e) ↦ rw (e, reconcile_all) (inl still)
            | inl (_, e) ↦ rw (e, reconcile_all) (reconcile_all_keeps found bodies' d b still)
          ]
        ]

  remove_artifact-removes :
      (db db' : Db) (channel : ChannelId) (artifact : ArtifactId)
      → remove_artifact lib db channel artifact ≡ ok db'
      → lib.database.contents db' artifacts (artifact_key lib.text channel artifact) ≡ none
  unfolding remove_artifact removal_rows family_eq
  remove_artifact-removes db db' channel artifact h =
      let key = artifact_key lib.text channel artifact in
      let (found, _, h1) = >>=-eq-ok (get_cf lib db artifacts key) _ h in
      let (known, _, h2) = >>=-eq-ok (decode_found lib.artifact_codec found) _ h1 in
      ap (λ (c : Contents). c artifacts key) (write_unsynced-contents lib db db' _ h2)
      ∙ by_known known
    where
      by_known :
          (known : Option ArtifactMetadata)
          → apply
              (removal_rows lib channel artifact known
                ++ delete artifacts (artifact_key lib.text channel artifact) ∷ [])
              (lib.database.contents db)
              artifacts
              (artifact_key lib.text channel artifact)
            ≡ none
      by_known none = rw (bytes_eq_refl (artifact_key lib.text channel artifact)) refl
      by_known (some m) = rw (bytes_eq_refl (artifact_key lib.text channel artifact)) refl

  -- What a read that is not stopped by an error shows.
  abbrev pub Located :
      Db
      → Db
      → ChannelId
      → ArtifactId
      → Opened
      → Result CacheError (Option ArtifactMetadata)
      → Type 0
  Located db left channel artifact file (ok (some m)) =
      (file ≡ opened) × (artifact_metadata lib db channel artifact ≡ ok (some m))
  Located db left channel artifact file (ok none) =
      (artifact_metadata lib db channel artifact ≡ ok none)
      ⊎ ((file ≡ missing)
          × (lib.database.contents left artifacts (artifact_key lib.text channel artifact) ≡ none))
  Located db left channel artifact file (err error) = Unit

  -- A read keeps the queue consistent with the records. If no error stops it, it returns the stored
  -- record of a body that it could open, or finds nothing, because there is no record or because
  -- the body is missing, and then no record of it is left.
  pub locate_local-Located :
      (db under_stripe : Db) (channel : ChannelId) (artifact : ArtifactId) (file : Opened)
      → Consistent lib (lib.database.contents under_stripe)
      → let (db', result) = locate_local db under_stripe channel artifact file in
        Consistent lib (lib.database.contents db') × Located db db' channel artifact file result
  unfolding locate_local
  locate_local-Located db under_stripe channel artifact file v =
      elim (Result-cases (artifact_metadata lib db channel artifact)) [
        | inr (_, e) ↦ rw (e, locate_local) (v, tt)
        | inl (none, e) ↦ rw (e, locate_local) (v, inl e)
        | inl (some m, e) ↦ by_file file m e
      ]
    where
      by_file :
          (file : Opened) (m : ArtifactMetadata)
          → artifact_metadata lib db channel artifact ≡ ok (some m)
          → let (db', result) = locate_local db under_stripe channel artifact file in
            Consistent lib (lib.database.contents db') × Located db db' channel artifact file result
      by_file opened m e = rw (e, locate_local) (v, (refl, e))
      by_file (open_failed message) m e = rw (e, locate_local) (v, tt)
      by_file missing m e =
          elim (Result-cases (remove_artifact lib under_stripe channel artifact)) [
            | inr (_, r) ↦ rw (e, locate_local, r) (v, tt)
            | inl (db', r) ↦
                rw (e, locate_local, r)
                  (
                    remove_artifact-Consistent lib under_stripe db' channel artifact r v,
                    inr (refl, remove_artifact-removes under_stripe db' channel artifact r),
                  )
          ]
