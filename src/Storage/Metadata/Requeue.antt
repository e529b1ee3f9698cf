-- ===== src/Storage/Metadata/Requeue.antt =====
-- src/storage/metadata/rocksdb.rs: `requeue` and the eviction queue, and what `evict` reports.
use mathlib.Core.Path.{ap₂}
use flywheel.Prelude.{
  ℕ, ◌≡◌, refl, sym, ap, subst, ◌∙◌, ◌⊎◌, inl, inr, Option, none, some, [], ◌∷◌, arith, Bool-cases,
  ◌==◌, IsU64,
}
use flywheel.Bytes.{Bytes}
use flywheel.Bytes.Order.{bytes_eq_refl}
use flywheel.Storage.Ids.{ChannelId, ArtifactId, ArtifactMetadata}
use flywheel.Storage.Errors.{ok, >>=-eq-ok}
use flywheel.Storage.Records.{decode_record}
use flywheel.Storage.Database.{Contents, artifacts, eviction, Op, put, delete, apply, family_eq}
use flywheel.Storage.Keys.{artifact_key, eviction_key}
use flywheel.Storage.Keys.Laws.{artifact_key-eq, eviction_key-eq}
use flywheel.Storage.Metadata.{
  Libraries, Evicted, removed, stale, get_cf, decode_found, put_record, write_unsynced,
  requeue_found, requeue, eviction_rows, evict,
}
use flywheel.Storage.Metadata.Queue.{Consistent, SameElsewhere-Consistent, get_cf-contents}
use flywheel.Storage.Metadata.Publish.{write_unsynced-contents, put_record_lem}
use flywheel.Storage.Metadata.Reclaim.{Known, read_Known}

module _ (lib : Libraries) where
  abbrev moved : Contents → ChannelId → ArtifactId → ℕ → ℕ → Bytes → Contents
  moved c channel artifact old new bytes =
      apply
        (delete eviction (eviction_key lib.text channel old artifact)
          ∷ put eviction (eviction_key lib.text channel new artifact) []
          ∷ put artifacts (artifact_key lib.text channel artifact) bytes
          ∷ [])
        c

  moved-Consistent :
      (c : Contents) (channel : ChannelId) (artifact : ArtifactId) (m : ArtifactMetadata) (new : ℕ)
      (bytes : Bytes)
      → Known lib c channel artifact (some m)
      → IsU64 new
      → decode_record lib.artifact_codec bytes ≡ ok (record m { eligible_at = new })
      → Consistent lib c
      → Consistent lib (moved c channel artifact m.eligible_at new bytes)
  unfolding family_eq
  moved-Consistent c channel artifact m new bytes (word, rows) hn decodes v =
      SameElsewhere-Consistent lib c (moved c channel artifact m.eligible_at new bytes) channel
        artifact
        (record {
          same_records = λ d b other. ground (arith, artifact_key-eq lib.text channel d artifact b);
          same_queue = λ d u b hu other. ground (
            arith,
            eviction_key-eq lib.text channel d m.eligible_at u artifact b word hu,
            eviction_key-eq lib.text channel d new u artifact b hn hu,
          );
        })
        (inr (
          bytes,
          record m { eligible_at = new },
          ground (arith, bytes_eq_refl (artifact_key lib.text channel artifact)),
          decodes,
          hn,
          λ u hu. ground (
            arith,
            eviction_key-eq lib.text channel channel m.eligible_at u artifact artifact word hu,
            eviction_key-eq lib.text channel channel new u artifact artifact hn hu,
            bytes_eq_refl artifact.digest,
            rows u hu,
          ),
        ))
        v

  requeue_found-Consistent :
      (db db' : lib.database.Db) (channel : ChannelId) (artifact : ArtifactId) (old new : ℕ)
      (known : Option ArtifactMetadata)
      → requeue_found lib db channel artifact old new known ≡ ok db'
      → Known lib (lib.database.contents db) channel artifact known
      → IsU64 new
      → Consistent lib (lib.database.contents db)
      → Consistent lib (lib.database.contents db')
  unfolding requeue_found
  requeue_found-Consistent db db' channel artifact old new none h k hn v =
      let same : db ≡ db' = ground arith in
      subst (λ d. Consistent lib (lib.database.contents d)) same v
  requeue_found-Consistent db db' channel artifact old new (some m) h k hn v =
      elim (Bool-cases (m.eligible_at == old)) [
        | inl current ↦
            let due : m.eligible_at ≡ old = ground arith in
            let key = artifact_key lib.text channel artifact in
            let (row, made, written) =
              >>=-eq-ok
                (put_record lib.artifact_codec artifacts key (record m { eligible_at = new })) _
                (rw (current, requeue_found) at h) in
            let (bytes, shape, decodes) =
              put_record_lem lib lib.artifact_codec artifacts key (record m { eligible_at = new })
                row made in
            let batch = λ (t : ℕ) (op : Op).
              delete eviction (eviction_key lib.text channel t artifact)
              ∷ put eviction (eviction_key lib.text channel new artifact) []
              ∷ op
              ∷ [] in
            let after : lib.database.contents db'
                ≡ moved (lib.database.contents db) channel artifact m.eligible_at new bytes =
              write_unsynced-contents lib db db' _ written
              ∙ ap₂ (λ t op. apply (batch t op) (lib.database.contents db)) (sym due) shape in
            subst (Consistent lib) (sym after) (
              moved-Consistent (lib.database.contents db) channel artifact m new bytes k hn decodes
                v)
        | inr other ↦
            let same : db ≡ db' = ground arith in
            subst (λ d. Consistent lib (lib.database.contents d)) same v
      ]

  -- Requeueing to a 64-bit deadline keeps the queue consistent, whether the row is moved or the
  -- request is stale.
  pub requeue-Consistent :
      (db db' : lib.database.Db) (channel : ChannelId) (artifact : ArtifactId) (old new : ℕ)
      → requeue lib db channel artifact old new ≡ ok db'
      → IsU64 new
      → Consistent lib (lib.database.contents db)
      → Consistent lib (lib.database.contents db')
  unfolding requeue
  requeue-Consistent db db' channel artifact old new h hn v =
      let key = artifact_key lib.text channel artifact in
      let (found, read, h1) = >>=-eq-ok (get_cf lib db artifacts key) _ h in
      let (known, decoded, h2) = >>=-eq-ok (decode_found lib.artifact_codec found) _ h1 in
      requeue_found-Consistent db db' channel artifact old new known h2
        (read_Known lib db channel artifact found known read decoded v) hn v

  eviction_rows_outcome :
      (c : Contents) (channel : ChannelId) (artifact : ArtifactId) (t : ℕ)
      (known : Option ArtifactMetadata)
      → let (rows, outcome) = eviction_rows lib channel artifact t known in
        ((m : ArtifactMetadata) × (known ≡ some m)
          × (m.eligible_at ≡ t)
          × (outcome ≡ removed m.stored_len)
          × (apply rows c artifacts (artifact_key lib.text channel artifact) ≡ none))
        ⊎ ((outcome ≡ stale)
            × ((k : Bytes) → apply rows c artifacts k ≡ c artifacts k)
            × (apply rows c eviction (eviction_key lib.text channel t artifact) ≡ none))
  unfolding eviction_rows family_eq
  eviction_rows_outcome c channel artifact t none =
      inr
        (refl, λ k. refl, ground (arith, bytes_eq_refl (eviction_key lib.text channel t artifact)))
  eviction_rows_outcome c channel artifact t (some m) = elim (Bool-cases (m.eligible_at == t)) [
    | inl due ↦ rw due (
        inl (
          m,
          refl,
          ground arith,
          refl,
          ground (arith, bytes_eq_refl (artifact_key lib.text channel artifact)),
        ))
    | inr moved_on ↦ rw moved_on (
        inr (
          refl,
          λ k. refl,
          ground (arith, bytes_eq_refl (eviction_key lib.text channel t artifact)),
        ))
  ]

  -- An eviction either removes the record that was read, when its deadline is the candidate's, and
  -- reports its size on disk; or it reports that the candidate is stale, changes no artifact
  -- record, and leaves no queue row for the candidate.
  pub evict_outcome :
      (db db' : lib.database.Db) (channel : ChannelId) (artifact : ArtifactId) (t : ℕ)
      (outcome : Evicted)
      → evict lib db channel artifact t ≡ ok (db', outcome)
      → let c = lib.database.contents db in
        let c' = lib.database.contents db' in
        let key = artifact_key lib.text channel artifact in
        ((m : ArtifactMetadata) × (decode_found lib.artifact_codec (c artifacts key) ≡ ok (some m))
          × (m.eligible_at ≡ t)
          × (outcome ≡ removed m.stored_len)
          × (c' artifacts key ≡ none))
        ⊎ ((outcome ≡ stale)
            × ((k : Bytes) → c' artifacts k ≡ c artifacts k)
            × (c' eviction (eviction_key lib.text channel t artifact) ≡ none))
  unfolding evict
  evict_outcome db db' channel artifact t outcome h =
      let key = artifact_key lib.text channel artifact in
      let (found, read, h1) = >>=-eq-ok (get_cf lib db artifacts key) _ h in
      let (known, decoded, h2) = >>=-eq-ok (decode_found lib.artifact_codec found) _ h1 in
      let rows = eviction_rows lib channel artifact t known in
      let (d, written, h3) = >>=-eq-ok (write_unsynced lib db rows.0) _ h2 in
      let same : d ≡ db' = ground arith in
      let says : rows.1 ≡ outcome = ground arith in
      let after = sym (write_unsynced-contents lib db db' rows.0 (written ∙ ap ok same)) in
      let here = get_cf-contents lib db artifacts key found read in
      elim (eviction_rows_outcome (lib.database.contents db) channel artifact t known) [
        | inl (m, is_m, due, size, gone) ↦ inl (
          m,
          ap (decode_found lib.artifact_codec) (sym here) ∙ decoded ∙ ap ok is_m,
          due,
          sym says ∙ size,
          ap (λ (c : Contents). c artifacts key) (sym after) ∙ gone,
        )
        | inr (is_stale, kept, gone) ↦ inr (
          sym says ∙ is_stale,
          λ k. ap (λ (c : Contents). c artifacts k) (sym after) ∙ kept k,
          ap (λ (c : Contents). c eviction (eviction_key lib.text channel t artifact)) (sym after)
              ∙ gone,
        )
      ]
