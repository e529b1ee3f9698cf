-- ===== src/Storage/Metadata/Reclaim.antt =====
-- src/storage/metadata/rocksdb.rs: `remove_artifact` and `evict`, and the eviction queue.
use flywheel.Prelude.{
  ℕ, ◌≡◌, refl, sym, ap, subst, ◌∙◌, inl, inr, false, Option, none, some, [], ◌∷◌, ◌++◌, arith,
  Bool-cases, ◌==◌, if◌then◌else◌, IsU64,
}
use flywheel.Bytes.{Bytes, bytes_eq}
use flywheel.Bytes.Order.{bytes_eq_refl, bytes_eq→eq}
use flywheel.Storage.Ids.{ChannelId, ArtifactId, ArtifactMetadata}
use flywheel.Storage.Errors.{ok, >>=-eq-ok}
use flywheel.Storage.Records.{decode_record}
use flywheel.Storage.Database.{Contents, artifacts, eviction, delete, apply, family_eq}
use flywheel.Storage.Keys.{artifact_key, eviction_key}
use flywheel.Storage.Keys.Laws.{artifact_key-eq, eviction_key-eq}
use flywheel.Storage.Metadata.{
  Libraries, Evicted, get_cf, decode_found, write_unsynced, removal_rows, remove_artifact,
  eviction_rows, evict,
}
use flywheel.Storage.Metadata.Queue.{
  Queued, Consistent, SameElsewhere-Consistent, Queued-same, get_cf-contents,
}
use flywheel.Storage.Metadata.Publish.{write_unsynced-contents}

module _ (lib : Libraries) where
  -- What a read of an artifact's record says in a consistent store.
  abbrev pub Known : Contents → ChannelId → ArtifactId → Option ArtifactMetadata → Type 0
  Known c channel artifact none =
      (c artifacts (artifact_key lib.text channel artifact) ≡ none)
      × ((t : ℕ) → IsU64 t → c eviction (eviction_key lib.text channel t artifact) ≡ none)
  Known c channel artifact (some m) =
      IsU64 m.eligible_at
      × ((t : ℕ)
          → IsU64 t
          → c eviction (eviction_key lib.text channel t artifact)
            ≡ (if t == m.eligible_at then some [] else none))

  decoded-Known :
      (c : Contents) (channel : ChannelId) (artifact : ArtifactId) (found : Option Bytes)
      (known : Option ArtifactMetadata)
      → decode_found lib.artifact_codec found ≡ ok known
      → found ≡ c artifacts (artifact_key lib.text channel artifact)
      → Queued lib c channel artifact
      → Known c channel artifact known
  unfolding decode_found
  decoded-Known c channel artifact none known h e (inl (missing, empty)) =
      let shape : none ≡ known = ground arith in
      subst (Known c channel artifact) shape (missing, empty)
  decoded-Known c channel artifact none known h e (inr (bytes, m, there, decodes, word, rows)) =
      absurd (ground arith)
  decoded-Known c channel artifact (some b) known h e (inl (missing, empty)) = absurd (ground arith)
  decoded-Known c channel artifact (some b) known h e (inr (bytes, m, there, decodes, word, rows)) =
      let same : b ≡ bytes = ground arith in
      let decoded : decode_record lib.artifact_codec b ≡ ok m =
        ap (decode_record lib.artifact_codec) same ∙ decodes in
      let shape : some m ≡ known = ground arith in
      subst (Known c channel artifact) shape (word, rows)

  -- The record and the row at `t` are deleted, where no other row is left.
  deleted-Consistent :
      (c c' : Contents) (channel : ChannelId) (artifact : ArtifactId) (t : ℕ)
      → IsU64 t
      → ((k : Bytes)
          → c' artifacts k
            ≡ (if bytes_eq (artifact_key lib.text channel artifact) k then none else c artifacts k))
      → ((k : Bytes)
          → c' eviction k ≡ (
              if bytes_eq (eviction_key lib.text channel t artifact) k then none else c eviction k))
      → ((u : ℕ)
          → IsU64 u
          → (t == u) ≡ false
          → c eviction (eviction_key lib.text channel u artifact) ≡ none)
      → Consistent lib c
      → Consistent lib c'
  deleted-Consistent c c' channel artifact t word r q last v =
      SameElsewhere-Consistent lib c c' channel artifact
        (record {
          same_records = λ d b other.
              ground (
                arith,
                r (artifact_key lib.text d b),
                artifact_key-eq lib.text channel d artifact b,
              );
          same_queue = λ d u b hu other. ground (
            arith,
            q (eviction_key lib.text d u b),
            eviction_key-eq lib.text channel d t u artifact b word hu,
          );
        })
        (inl (
          ground (
            arith,
            r (artifact_key lib.text channel artifact),
            bytes_eq_refl (artifact_key lib.text channel artifact),
          ),
          λ u hu. ground (
            arith,
            q (eviction_key lib.text channel u artifact),
            eviction_key-eq lib.text channel channel t u artifact artifact word hu,
            bytes_eq_refl artifact.digest,
            last u hu,
          ),
        ))
        v

  -- The row at `t` is deleted, where there is none.
  stale-Consistent :
      (c c' : Contents) (channel : ChannelId) (artifact : ArtifactId) (t : ℕ)
      → IsU64 t
      → ((k : Bytes) → c' artifacts k ≡ c artifacts k)
      → ((k : Bytes)
          → c' eviction k ≡ (
              if bytes_eq (eviction_key lib.text channel t artifact) k then none else c eviction k))
      → c eviction (eviction_key lib.text channel t artifact) ≡ none
      → Consistent lib c
      → Consistent lib c'
  stale-Consistent c c' channel artifact t word r q gone v d b =
      Queued-same lib c c' d b (r (artifact_key lib.text d b))
        (λ u hu. ground (
          arith,
          q (eviction_key lib.text d u b),
          bytes_eq→eq (eviction_key lib.text channel t artifact) (eviction_key lib.text d u b),
          gone,
        ))
        (v d b)

  -- The read at the start of the three operations.
  pub read_Known :
      (db : lib.database.Db) (channel : ChannelId) (artifact : ArtifactId) (found : Option Bytes)
      (known : Option ArtifactMetadata)
      → get_cf lib db artifacts (artifact_key lib.text channel artifact) ≡ ok found
      → decode_found lib.artifact_codec found ≡ ok known
      → Consistent lib (lib.database.contents db)
      → Known (lib.database.contents db) channel artifact known
  read_Known db channel artifact found known read decoded v =
      decoded-Known (lib.database.contents db) channel artifact found known decoded
        (get_cf-contents lib db artifacts (artifact_key lib.text channel artifact) found read)
        (v channel artifact)

  removal-Consistent :
      (c : Contents) (channel : ChannelId) (artifact : ArtifactId) (known : Option ArtifactMetadata)
      → Known c channel artifact known
      → Consistent lib c
      → Consistent lib (
          apply
            (removal_rows lib channel artifact known
              ++ delete artifacts (artifact_key lib.text channel artifact) ∷ [])
            c)
  unfolding removal_rows family_eq
  removal-Consistent c channel artifact none (missing, empty) v =
      deleted-Consistent c
        (apply (delete artifacts (artifact_key lib.text channel artifact) ∷ []) c) channel artifact
        0 (omega arith) (λ k. refl)
        (λ k.
          ground (
            arith,
            bytes_eq→eq (eviction_key lib.text channel 0 artifact) k,
            empty 0 (omega arith),
          ))
        (λ u hu _. empty u hu) v
  removal-Consistent c channel artifact (some m) (word, rows) v =
      deleted-Consistent c
        (apply
          (delete eviction (eviction_key lib.text channel m.eligible_at artifact)
            ∷ delete artifacts (artifact_key lib.text channel artifact)
            ∷ [])
          c)
        channel artifact m.eligible_at word (λ k. refl) (λ k. refl)
        (λ u hu other. ground (arith, rows u hu)) v

  -- Removing an artifact keeps the queue consistent with the records.
  pub remove_artifact-Consistent :
      (db db' : lib.database.Db) (channel : ChannelId) (artifact : ArtifactId)
      → remove_artifact lib db channel artifact ≡ ok db'
      → Consistent lib (lib.database.contents db)
      → Consistent lib (lib.database.contents db')
  unfolding remove_artifact
  remove_artifact-Consistent db db' channel artifact h v =
      let (found, read, h1) =
        >>=-eq-ok (get_cf lib db artifacts (artifact_key lib.text channel artifact)) _ h in
      let (known, decoded, h2) = >>=-eq-ok (decode_found lib.artifact_codec found) _ h1 in
      subst (Consistent lib) (sym (write_unsynced-contents lib db db' _ h2)) (
        removal-Consistent (lib.database.contents db) channel artifact known
          (read_Known db channel artifact found known read decoded v) v)

  eviction-Consistent :
      (c : Contents) (channel : ChannelId) (artifact : ArtifactId) (t : ℕ)
      (known : Option ArtifactMetadata)
      → IsU64 t
      → Known c channel artifact known
      → Consistent lib c
      → Consistent lib (apply (eviction_rows lib channel artifact t known).0 c)
  unfolding eviction_rows family_eq
  eviction-Consistent c channel artifact t none word (missing, empty) v =
      stale-Consistent c (apply (delete eviction (eviction_key lib.text channel t artifact) ∷ []) c)
        channel artifact t word (λ k. refl) (λ k. refl) (empty t word) v
  eviction-Consistent c channel artifact t (some m) word (deadline, rows) v =
      elim (Bool-cases (m.eligible_at == t)) [
        | inl due ↦ rw due (
            deleted-Consistent c
              (apply
                (delete artifacts (artifact_key lib.text channel artifact)
                  ∷ delete eviction (eviction_key lib.text channel t artifact)
                  ∷ [])
                c)
              channel artifact t word (λ k. refl) (λ k. refl)
              (λ u hu other. ground (arith, rows u hu)) v)
        | inr moved ↦ rw moved (
            stale-Consistent c
              (apply (delete eviction (eviction_key lib.text channel t artifact) ∷ []) c) channel
              artifact t word (λ k. refl) (λ k. refl) (ground (arith, rows t word)) v)
      ]

  -- Evicting a candidate with a 64-bit deadline, stale or not, keeps the queue consistent with the
  -- records.
  pub evict-Consistent :
      (db db' : lib.database.Db) (channel : ChannelId) (artifact : ArtifactId) (t : ℕ)
      (outcome : Evicted)
      → evict lib db channel artifact t ≡ ok (db', outcome)
      → IsU64 t
      → Consistent lib (lib.database.contents db)
      → Consistent lib (lib.database.contents db')
  unfolding evict
  evict-Consistent db db' channel artifact t outcome h word v =
      let (found, read, h1) =
        >>=-eq-ok (get_cf lib db artifacts (artifact_key lib.text channel artifact)) _ h in
      let (known, decoded, h2) = >>=-eq-ok (decode_found lib.artifact_codec found) _ h1 in
      let (d, written, h3) =
        >>=-eq-ok (write_unsynced lib db (eviction_rows lib channel artifact t known).0) _ h2 in
      let same : d ≡ db' = ground arith in
      subst (Consistent lib) (sym (write_unsynced-contents lib db db' _ (written ∙ ap ok same))) (
        eviction-Consistent (lib.database.contents db) channel artifact t known word
          (read_Known db channel artifact found known read decoded v) v)
