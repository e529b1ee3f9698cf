-- ===== src/Cache/Commit.antt =====
-- src/cache/service.rs: `commit_staged`, its reservation and the eviction queue.
use flywheel.Prelude.{◌≡◌, subst, inl, inr, ℕ, arith, IsU64}
use flywheel.Storage.Ids.{ChannelId, ArtifactId, ArtifactMetadata}
use flywheel.Storage.Errors.{Result, ok, err, Result-cases}
use flywheel.Storage.Metadata.{Libraries, commit_publication}
use flywheel.Storage.Metadata.Queue.{Consistent}
use flywheel.Storage.Metadata.Publish.{commit_publication-Consistent}
use flywheel.LocalFiles.Reserver.{Reserver}
use flywheel.LocalFiles.Reservation.{Reservation, Removal, Holds}
use flywheel.LocalFiles.Settlement.{Settled, discard-Settled, commit_bytes-Settled}
use flywheel.LocalFiles.Stage.{LocalError, StagedArtifact}
use flywheel.LocalFiles.Publish.{
  PublishCalls, FilePublication, created, existing, publish, Accounted, publish-Accounted,
}
use flywheel.Cache.Publication.{
  CacheError, Publication, Commit, Outcome, to_commit, channel_fence, new_metadata, commit_metadata,
  commit_staged,
}

module _ (lib : Libraries) (reserver : Reserver) where
  open reserver use {Ledger}

  -- What a publication that succeeds shows of its artifact and its channel.
  abbrev pub Backed :
      lib.database.Db
      → ChannelId
      → ArtifactId
      → StagedArtifact
      → Result {0} CacheError Publication
      → Type 0
  Backed at_fence channel artifact staged (ok publication) =
      (staged.digest ≡ artifact.digest)
      × ((expiry : ℕ) × (channel_fence lib at_fence channel ≡ ok expiry))
  Backed at_fence channel artifact staged (err error) = Unit

  -- The ledger is settled and the queue is consistent.
  abbrev Done : ℕ → Outcome lib reserver Publication → Type 0
  Done base (ledger, db, result) =
      Settled reserver base ledger × Consistent lib (lib.database.contents db)

  commit_metadata-Done :
      (base : ℕ) (db : lib.database.Db) (ledger : Ledger) (removal : Removal) (channel : ChannelId)
      (artifact : ArtifactId) (m : ArtifactMetadata) (commit : Commit) (r : Reservation)
      (committed_len : ℕ)
      → Holds reserver base ledger r
      → IsU64 m.eligible_at
      → Consistent lib (lib.database.contents db)
      → Done base (
          commit_metadata lib reserver db ledger removal channel artifact m commit
            (r, committed_len))
  unfolding commit_metadata
  commit_metadata-Done base db ledger removal channel artifact m commit r committed_len v word
        consistent =
      elim (Result-cases
        (commit_publication lib db channel artifact m commit.reference commit.durability)) [
          | inl ((db', is_new), e) ↦
              rw (e, commit_metadata)
                (
                  (commit_bytes-Settled reserver base ledger r committed_len v).0,
                  commit_publication-Consistent lib db db' channel artifact m commit.reference
                      commit.durability is_new e word consistent,
                )
          | inr (_, e) ↦
              rw (e, commit_metadata) (discard-Settled reserver base ledger r removal v, consistent)
        ]

  Backed-any :
      (at_fence : lib.database.Db) (channel : ChannelId) (artifact : ArtifactId)
      (staged : StagedArtifact) (expiry : ℕ) (result : Result {0} CacheError Publication)
      → staged.digest ≡ artifact.digest
      → channel_fence lib at_fence channel ≡ ok expiry
      → Backed at_fence channel artifact staged result
  Backed-any at_fence channel artifact staged expiry (ok publication) digest fence =
      (digest, (expiry, fence))
  Backed-any at_fence channel artifact staged expiry (err error) digest fence = tt

  -- However the publication of a staged body ends whose reservation the ledger holds, the
  -- reservation is off the ledger and the queue is consistent if it was before. It succeeds only if
  -- the artifact names the body's digest and the channel was active under the gate.
  pub commit_staged-Done :
      (base : ℕ) (at_fence db : lib.database.Db) (ledger : Ledger) (calls : PublishCalls) (now : ℕ)
      (channel : ChannelId) (artifact : ArtifactId) (staged : StagedArtifact) (commit : Commit)
      → Holds reserver base ledger staged.reservation
      → Consistent lib (lib.database.contents db)
      → let (ledger', db', result) =
          commit_staged lib reserver at_fence db ledger calls now channel artifact staged commit in
        Settled reserver base ledger'
        × Consistent lib (lib.database.contents db')
        × Backed at_fence channel artifact staged result
  unfolding commit_staged new_metadata to_commit
  commit_staged-Done base at_fence db ledger calls now channel artifact staged commit v consistent =
      let published = publish reserver calls artifact staged commit.durability ledger in
      let account =
        publish-Accounted reserver base calls artifact staged commit.durability ledger v in
      let read : (x : Result LocalError FilePublication)
          → published.1 ≡ x
          → Accounted reserver base artifact staged published.0 x =
        λ x p. subst (Accounted reserver base artifact staged published.0) p account in
      elim (Result-cases (channel_fence lib at_fence channel)) [
        | inr (_, e) ↦
            rw (e, commit_staged)
              (
                discard-Settled reserver base ledger staged.reservation calls.remove_file v,
                consistent,
                tt,
              )
        | inl (expiry, e) ↦ elim (Result-cases published.1) [
          | inr (error, p) ↦ rw (e, commit_staged, p) (read (err error) p, consistent, tt)
          | inl (created r, p) ↦
              let (held, _, _, digest) = read (ok (created r)) p in
              let (settled, kept) =
                commit_metadata-Done base db published.0 calls.remove_file channel artifact
                  (new_metadata lib reserver staged commit now expiry) commit r staged.stored_len
                  held (ground arith) consistent in
              rw (e, commit_staged, p)
                (settled, kept, Backed-any at_fence channel artifact staged expiry _ digest e)
          | inl (existing r, p) ↦
              let (held, _, _, digest) = read (ok (existing r)) p in
              let (settled, kept) =
                commit_metadata-Done base db published.0 calls.remove_file channel artifact
                  (new_metadata lib reserver staged commit now expiry) commit r 0 held
                  (ground arith) consistent in
              rw (e, commit_staged, p)
                (settled, kept, Backed-any at_fence channel artifact staged expiry _ digest e)
        ]
      ]
