-- ===== src/Cache/Bodies.antt =====
-- src/cache/service.rs: the bodies on disk and the metadata records during a maintenance pass.
use flywheel.Prelude.{
  ◌≡◌, ◌≢◌, refl, sym, ap, subst, ◌∙◌, inl, inr, ℕ, true, false, Bool-cases, ◌&&◌, ◌==◌, Option,
  none, some, [], ◌∷◌, arith, if◌then◌else◌,
}
use flywheel.Bytes.{Bytes, bytes_eq}
use flywheel.Storage.Ids.{ChannelId, ArtifactId, artifact_eq, ArtifactMetadata}
use flywheel.Storage.Errors.{Result, ok, err, Result-cases, >>=-eq-ok}
use flywheel.Storage.Database.{Contents, artifacts, eviction, put, delete, apply, family_eq}
use flywheel.Storage.Keys.{artifact_key, eviction_key}
use flywheel.Storage.Keys.Laws.{artifact_key-eq}
use flywheel.Storage.Metadata.{
  Libraries, Candidate, Evicted, decode_found, get_cf, write_unsynced, put_record,
  artifact_metadata, requeue, requeue_found, evict, eviction_rows,
}
use flywheel.Storage.Metadata.Queue.{get_cf-contents}
use flywheel.Storage.Metadata.Publish.{write_unsynced-contents, put_record_lem}
use flywheel.Storage.Metadata.Requeue.{evict_outcome}
use flywheel.LocalFiles.Stage.{LocalError}
use flywheel.Cache.Reclamation.{Bodies, unlink, Step, unlink_current, evict_candidate}

module _ (lib : Libraries) where
  abbrev pub Db : Type 0
  Db = lib.database.Db

  -- Every body has its record.
  abbrev pub Recorded : Db → Bodies → Type 0
  Recorded db bodies =
      (channel : ChannelId) (artifact : ArtifactId)
      → bodies channel artifact ≡ true
      → lib.database.contents db artifacts (artifact_key lib.text channel artifact) ≢ none

  pub requeue_keeps :
      (db db' : Db) (channel : ChannelId) (artifact : ArtifactId) (old new : ℕ) (k : Bytes)
      → requeue lib db channel artifact old new ≡ ok db'
      → lib.database.contents db' artifacts k ≡ none
      → lib.database.contents db artifacts k ≡ none
  unfolding requeue requeue_found family_eq
  requeue_keeps db db' channel artifact old new k h gone =
      let (found, _, h1) =
        >>=-eq-ok (get_cf lib db artifacts (artifact_key lib.text channel artifact)) _ h in
      let (known, _, h2) = >>=-eq-ok (decode_found lib.artifact_codec found) _ h1 in
      by_known known h2
    where
      by_known :
          (known : Option ArtifactMetadata)
          → requeue_found lib db channel artifact old new known ≡ ok db'
          → lib.database.contents db artifacts k ≡ none
      by_known none h =
          let same : db ≡ db' = ground arith in
          ap (λ d. lib.database.contents d artifacts k) same ∙ gone
      by_known (some m) h = elim (Bool-cases (m.eligible_at == old)) [
        | inr other ↦
            let same : db ≡ db' = ground arith in
            ap (λ d. lib.database.contents d artifacts k) same ∙ gone
        | inl due ↦
            let key = artifact_key lib.text channel artifact in
            let (row, made, written) =
              >>=-eq-ok
                (put_record lib.artifact_codec artifacts key (record m { eligible_at = new })) _
                (rw (due, requeue_found) at h) in
            let (bytes, shape, _) =
              put_record_lem lib lib.artifact_codec artifacts key (record m { eligible_at = new })
                row made in
            let after : lib.database.contents db' artifacts k
                ≡ (if bytes_eq key k then some bytes else lib.database.contents db artifacts k) =
              ap (λ (c : Contents). c artifacts k) (write_unsynced-contents lib db db' _ written)
              ∙ ap
                  (λ op.
                    apply
                      (delete eviction (eviction_key lib.text channel old artifact)
                        ∷ put eviction (eviction_key lib.text channel new artifact) []
                        ∷ op
                        ∷ [])
                      (lib.database.contents db) artifacts k)
                  shape in
            ground (arith, gone, after)
      ]

  evict_elsewhere :
      (db db' : Db) (channel : ChannelId) (artifact : ArtifactId) (t : ℕ) (outcome : Evicted)
      (k : Bytes)
      → evict lib db channel artifact t ≡ ok (db', outcome)
      → bytes_eq (artifact_key lib.text channel artifact) k ≡ false
      → lib.database.contents db' artifacts k ≡ lib.database.contents db artifacts k
  unfolding evict eviction_rows family_eq
  evict_elsewhere db db' channel artifact t outcome k h other =
      let (found, _, h1) =
        >>=-eq-ok (get_cf lib db artifacts (artifact_key lib.text channel artifact)) _ h in
      let (known, _, h2) = >>=-eq-ok (decode_found lib.artifact_codec found) _ h1 in
      let rows = eviction_rows lib channel artifact t known in
      let (d, written, h3) = >>=-eq-ok (write_unsynced lib db rows.0) _ h2 in
      let same : d ≡ db' = ground arith in
      ap (λ (c : Contents). c artifacts k)
        (write_unsynced-contents lib db db' rows.0 (written ∙ ap ok same))
      ∙ by_known known
    where
      by_known :
          (known : Option ArtifactMetadata)
          → apply
              (eviction_rows lib channel artifact t known).0
              (lib.database.contents db)
              artifacts
              k
            ≡ lib.database.contents db artifacts k
      by_known none = refl
      by_known (some m) = ground (arith, other)

  -- What holds of a step's store, bodies and result.
  abbrev pub Sound : {A : Type 0} → (A → Type 0) → Step lib A → Type 0
  Sound P (db, bodies, ok a) = Recorded db bodies × P a
  Sound P (db, bodies, err error) = Recorded db bodies

  unlink-Recorded :
      (db db' : Db) (bodies : Bodies) (channel : ChannelId) (artifact : ArtifactId)
      → Recorded db bodies
      → ((k : Bytes)
          → bytes_eq (artifact_key lib.text channel artifact) k ≡ false
          → lib.database.contents db' artifacts k ≡ lib.database.contents db artifacts k)
      → Recorded db' (unlink bodies channel artifact)
  unfolding unlink
  unlink-Recorded db db' bodies channel artifact v elsewhere d b present gone =
      let other : (channel == d && artifact_eq artifact b) ≡ false = ground arith in
      let here : bodies d b ≡ true = ground arith in
      v d b here (
        sym (
          elsewhere (artifact_key lib.text d b)
            (artifact_key-eq lib.text channel d artifact b ∙ other))
        ∙ gone)

  artifact_metadata-contents :
      (db : Db) (channel : ChannelId) (artifact : ArtifactId) (found : Option ArtifactMetadata)
      → artifact_metadata lib db channel artifact ≡ ok found
      → decode_found lib.artifact_codec
          (lib.database.contents db artifacts (artifact_key lib.text channel artifact))
        ≡ ok found
  unfolding artifact_metadata
  artifact_metadata-contents db channel artifact found h =
      let (v, read, decoded) =
        >>=-eq-ok (get_cf lib db artifacts (artifact_key lib.text channel artifact)) _ h in
      ap (decode_found lib.artifact_codec)
        (sym (get_cf-contents lib db artifacts (artifact_key lib.text channel artifact) v read))
      ∙ decoded

  -- The bodies that are left have their records, if no record changes.
  unlink_current-Recorded :
      (db db' : Db) (bodies : Bodies) (channel : ChannelId) (candidate : Candidate)
      (remove : Result {0} LocalError Unit) (found : Option ArtifactMetadata)
      → Recorded db bodies
      → ((k : Bytes) → lib.database.contents db' artifacts k ≡ lib.database.contents db artifacts k)
      → Recorded db' (unlink_current bodies channel candidate remove found).0
  unfolding unlink_current
  unlink_current-Recorded db db' bodies channel candidate remove none v same =
      λ d b present gone. v d b present (sym (same _) ∙ gone)
  unlink_current-Recorded db db' bodies channel candidate remove (some m) v same =
      elim (Bool-cases (m.eligible_at == candidate.eligible_at)) [
        | inr other ↦
            rw (other, unlink_current) (λ d b present gone. v d b present (sym (same _) ∙ gone))
        | inl current ↦ elim (Result-cases remove) [
          | inr (_, e) ↦
              rw (current, unlink_current, e)
                (λ d b present gone. v d b present (sym (same _) ∙ gone))
          | inl (_, e) ↦
              rw (current, unlink_current, e)
                (unlink-Recorded db db' bodies channel candidate.artifact v (λ k _. same k))
        ]
      ]

  -- An eviction after a removal that did not fail.
  evicted-Recorded :
      (db db' : Db) (bodies : Bodies) (channel : ChannelId) (candidate : Candidate)
      (remove : Result {0} LocalError Unit) (found : Option ArtifactMetadata) (outcome : Evicted)
      → Recorded db bodies
      → artifact_metadata lib db channel candidate.artifact ≡ ok found
      → (unlink_current bodies channel candidate remove found).1 ≡ ok tt
      → evict lib db channel candidate.artifact candidate.eligible_at ≡ ok (db', outcome)
      → Recorded db' (unlink_current bodies channel candidate remove found).0
  unfolding unlink_current
  evicted-Recorded db db' bodies channel candidate remove found outcome v known unlinked done =
      elim (evict_outcome lib db db' channel candidate.artifact candidate.eligible_at outcome
        done) [
          | inl (m, decodes, due, _, _) ↦
              let read = artifact_metadata-contents db channel candidate.artifact found known in
              let same : some m ≡ found = ground (arith, read, decodes) in
              let current : (m.eligible_at == candidate.eligible_at) ≡ true = ground arith in
              subst
                (λ x.
                  (unlink_current bodies channel candidate remove x).1 ≡ ok tt
                  → Recorded db' (unlink_current bodies channel candidate remove x).0)
                same
                (elim (Result-cases remove) [
                  | inr (_, e) ↦ rw (current, unlink_current, e) (λ h. absurd (ground arith))
                  | inl (_, e) ↦
                      rw (current, unlink_current, e)
                        (λ _. unlink-Recorded db db' bodies channel candidate.artifact v (λ k other.
                          evict_elsewhere db db' channel candidate.artifact candidate.eligible_at
                            outcome k done other))
                ])
                unlinked
          | inr (_, kept, _) ↦
              unlink_current-Recorded db db' bodies channel candidate remove found v kept
        ]

  pub evict_candidate-Sound :
      (db : Db) (bodies : Bodies) (channel : ChannelId) (candidate : Candidate)
      (remove : Result {0} LocalError Unit)
      → Recorded db bodies
      → Sound (λ _. Unit) (evict_candidate lib db bodies channel candidate remove)
  unfolding evict_candidate
  evict_candidate-Sound db bodies channel candidate remove v =
      elim (Result-cases (artifact_metadata lib db channel candidate.artifact)) [
        | inr (_, e) ↦ rw (e, evict_candidate) v
        | inl (found, e) ↦
            elim (Result-cases (unlink_current bodies channel candidate remove found).1) [
              | inr (_, u) ↦
                  rw (e, evict_candidate, u)
                    (unlink_current-Recorded db db bodies channel candidate remove found v
                      (λ k. refl))
              | inl (_, u) ↦
                  elim (Result-cases
                    (evict lib db channel candidate.artifact candidate.eligible_at)) [
                      | inr (_, d) ↦
                          rw (e, evict_candidate, u, d)
                            (unlink_current-Recorded db db bodies channel candidate remove found v
                              (λ k. refl))
                      | inl ((db', outcome), d) ↦
                          rw (e, evict_candidate, u, d)
                            (
                              evicted-Recorded db db' bodies channel candidate remove found outcome
                                  v e u d,
                              tt,
                            )
                    ]
            ]
      ]
