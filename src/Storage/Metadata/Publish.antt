-- ===== src/Storage/Metadata/Publish.antt =====
-- src/storage/metadata/rocksdb.rs: `commit_publication` and the eviction queue.
use flywheel.Prelude.{
  ℕ, ◌≡◌, refl, sym, ap, subst, ◌∙◌, inl, inr, Bool, true, false, Option, none, some, List, [], ◌∷◌,
  ◌++◌, arith, IsU64,
}
use flywheel.Bytes.{Bytes}
use flywheel.Bytes.Order.{bytes_eq_refl}
use flywheel.Storage.Ids.{
  ChannelId, ArtifactId, ArtifactMetadata, ReferenceRecord, Durability, durable, best_effort,
}
use flywheel.Storage.Errors.{ok, Result-cases, >>=-eq-ok}
use flywheel.Storage.Records.{Codec, encode_record, decode_record, decode_record-encode_record}
use flywheel.Storage.Database.{
  Contents, Family, artifacts, references, eviction, Op, put, apply, apply_op, family_eq,
}
use flywheel.Storage.Keys.{artifact_key, reference_key, eviction_key}
use flywheel.Storage.Keys.Laws.{artifact_key-eq, eviction_key-eq}
use flywheel.Storage.Metadata.{
  Libraries, get_cf, write, write_sync, write_unsynced, put_record, publication_rows,
  reference_rows, commit_publication,
}
use flywheel.Storage.Metadata.Queue.{
  Queued, Consistent, SameElsewhere, SameElsewhere-Consistent, Queued-same, get_cf-contents,
}

apply-append : (xs ys : List Op) (c : Contents) → apply (xs ++ ys) c ≡ apply ys (apply xs c)
apply-append [] ys c = refl
apply-append (x ∷ xs) ys c = apply-append xs ys (apply_op x c)

module _ (lib : Libraries) where
  pub write_sync-contents :
      (db db' : lib.database.Db) (batch : List Op)
      → write_sync lib db batch ≡ ok db'
      → lib.database.contents db' ≡ apply batch (lib.database.contents db)
  unfolding write_sync
  write_sync-contents db db' batch h = elim (Result-cases (lib.database.write db true batch)) [
    | inl (d, e) ↦
        let same : d ≡ db' = ground arith in
        lib.database.write_contents db db' true batch (e ∙ ap ok same)
    | inr (m, e) ↦ absurd (ground arith)
  ]

  pub write_unsynced-contents :
      (db db' : lib.database.Db) (batch : List Op)
      → write_unsynced lib db batch ≡ ok db'
      → lib.database.contents db' ≡ apply batch (lib.database.contents db)
  unfolding write_unsynced
  write_unsynced-contents db db' batch h = elim (Result-cases (lib.database.write db false batch)) [
    | inl (d, e) ↦
        let same : d ≡ db' = ground arith in
        lib.database.write_contents db db' false batch (e ∙ ap ok same)
    | inr (m, e) ↦ absurd (ground arith)
  ]

  pub write-contents :
      (db db' : lib.database.Db) (batch : List Op) (durability : Durability)
      → write lib db batch durability ≡ ok db'
      → lib.database.contents db' ≡ apply batch (lib.database.contents db)
  unfolding write
  write-contents db db' batch durable h = write_sync-contents db db' batch h
  write-contents db db' batch best_effort h = write_unsynced-contents db db' batch h

  -- A record that was put decodes.
  pub put_record_lem :
      {A : Type 0} (codec : Codec A) (family : Family) (key : Bytes) (value : A) (op : Op)
      → put_record codec family key value ≡ ok op
      → (bytes : Bytes) × (op ≡ put family key bytes) × (decode_record codec bytes ≡ ok value)
  unfolding put_record
  put_record_lem codec family key value op h = elim (Result-cases (encode_record codec value)) [
    | inl (bytes, e) ↦ (bytes, ground arith, decode_record-encode_record codec value bytes e)
    | inr (m, e) ↦ absurd (ground arith)
  ]

  -- A reference row touches neither records nor the queue.
  binding_elsewhere :
      (channel : ChannelId) (reference : Option (Bytes × ReferenceRecord)) (binding : List Op)
      (c : Contents) (k : Bytes)
      → reference_rows lib channel reference ≡ ok binding
      → (apply binding c artifacts k ≡ c artifacts k) × (apply binding c eviction k ≡ c eviction k)
  unfolding reference_rows family_eq
  binding_elsewhere channel none binding c k h =
      let e : [] ≡ binding = ground arith in
      subst (λ b. (apply b c artifacts k ≡ c artifacts k) × (apply b c eviction k ≡ c eviction k)) e
        (refl, refl)
  binding_elsewhere channel (some (name, r)) binding c k h =
      let (row, made, last) =
        >>=-eq-ok
          (put_record lib.reference_codec references (reference_key lib.text channel name) r) _ h in
      let (bytes, shape, _) =
        put_record_lem lib.reference_codec references (reference_key lib.text channel name) r row
          made in
      let e : put references (reference_key lib.text channel name) bytes ∷ [] ≡ binding =
        ground arith in
      subst (λ b. (apply b c artifacts k ≡ c artifacts k) × (apply b c eviction k ≡ c eviction k)) e
        (refl, refl)

  -- The rows of a new artifact.
  abbrev inserted : Contents → ChannelId → ArtifactId → ArtifactMetadata → Bytes → Contents
  inserted c channel artifact metadata bytes =
      apply
        (put artifacts (artifact_key lib.text channel artifact) bytes
          ∷ put eviction (eviction_key lib.text channel metadata.eligible_at artifact) []
          ∷ [])
        c

  inserted-elsewhere :
      (c : Contents) (channel : ChannelId) (artifact : ArtifactId) (metadata : ArtifactMetadata)
      (bytes : Bytes)
      → IsU64 metadata.eligible_at
      → SameElsewhere lib c (inserted c channel artifact metadata bytes) channel artifact
  unfolding family_eq
  inserted-elsewhere c channel artifact metadata bytes word = record {
    same_records = λ d b other. ground (arith, artifact_key-eq lib.text channel d artifact b);
    same_queue = λ d t b h other.
        ground (arith, eviction_key-eq lib.text channel d metadata.eligible_at t artifact b word h);
  }

  inserted-Queued :
      (c : Contents) (channel : ChannelId) (artifact : ArtifactId) (metadata : ArtifactMetadata)
      (bytes : Bytes)
      → IsU64 metadata.eligible_at
      → decode_record lib.artifact_codec bytes ≡ ok metadata
      → ((t : ℕ) → IsU64 t → c eviction (eviction_key lib.text channel t artifact) ≡ none)
      → Queued lib (inserted c channel artifact metadata bytes) channel artifact
  unfolding family_eq
  inserted-Queued c channel artifact metadata bytes word decodes free = inr (
    bytes,
    metadata,
    ground (arith, bytes_eq_refl (artifact_key lib.text channel artifact)),
    decodes,
    word,
    λ t h. ground (
      arith,
      eviction_key-eq lib.text channel channel metadata.eligible_at t artifact artifact word h,
      bytes_eq_refl artifact.digest,
      free t h,
    ),
  )

  binding-elsewhere :
      (c c1 : Contents) (channel : ChannelId) (artifact : ArtifactId)
      → ((k : Bytes) → (c1 artifacts k ≡ c artifacts k) × (c1 eviction k ≡ c eviction k))
      → Consistent lib c
      → Consistent lib c1
  binding-elsewhere c c1 channel artifact same v d b =
      Queued-same lib c c1 d b (same (artifact_key lib.text d b)).0
        (λ t h. (same (eviction_key lib.text d t b)).1) (v d b)

  found_rows :
      (channel : ChannelId) (artifact : ArtifactId) (metadata : ArtifactMetadata)
      (found : Option Bytes) (rows : List Op) (c : Contents)
      → publication_rows lib channel artifact metadata found ≡ ok rows
      → found ≡ c artifacts (artifact_key lib.text channel artifact)
      → IsU64 metadata.eligible_at
      → Consistent lib c
      → Consistent lib (apply rows c)
  unfolding publication_rows
  found_rows channel artifact metadata (some old) rows c h e word v =
      let shape : [] ≡ rows = ground arith in subst (λ l. Consistent lib (apply l c)) shape v
  found_rows channel artifact metadata none rows c h e word v =
      let key = artifact_key lib.text channel artifact in
      let (row, made, last) =
        >>=-eq-ok (put_record lib.artifact_codec artifacts key metadata) _ h in
      let (bytes, shape, decodes) =
        put_record_lem lib.artifact_codec artifacts key metadata row made in
      let listed : put artifacts key bytes
            ∷ put eviction (eviction_key lib.text channel metadata.eligible_at artifact) []
            ∷ []
          ≡ rows =
        ground arith in
      let free : (t : ℕ) → IsU64 t → c eviction (eviction_key lib.text channel t artifact) ≡ none =
        elim (v channel artifact) [
          | inl (_, empty) ↦ empty
          | inr (_, _, there, _, _, _) ↦ absurd (ground arith)
        ] in
      subst (λ l. Consistent lib (apply l c)) listed
        (SameElsewhere-Consistent lib c (inserted c channel artifact metadata bytes) channel
          artifact (inserted-elsewhere c channel artifact metadata bytes word)
          (inserted-Queued c channel artifact metadata bytes word decodes free) v)

  -- A publication with a 64-bit deadline keeps the queue consistent with the records, whether the
  -- artifact is new or known and with or without a reference.
  pub commit_publication-Consistent :
      (db db' : lib.database.Db) (channel : ChannelId) (artifact : ArtifactId)
      (metadata : ArtifactMetadata) (reference : Option (Bytes × ReferenceRecord))
      (durability : Durability) (created : Bool)
      → commit_publication lib db channel artifact metadata reference durability ≡ ok (db', created)
      → IsU64 metadata.eligible_at
      → Consistent lib (lib.database.contents db)
      → Consistent lib (lib.database.contents db')
  unfolding commit_publication
  commit_publication-Consistent db db' channel artifact metadata reference durability created h word
        v =
      let c = lib.database.contents db in
      let key = artifact_key lib.text channel artifact in
      let (found, read, h1) = >>=-eq-ok (get_cf lib db artifacts key) _ h in
      let (rows, made, h2) =
        >>=-eq-ok (publication_rows lib channel artifact metadata found) _ h1 in
      let (binding, bound, h3) = >>=-eq-ok (reference_rows lib channel reference) _ h2 in
      let (d, written, h4) = >>=-eq-ok (write lib db (rows ++ binding) durability) _ h3 in
      let same : d ≡ db' = ground arith in
      let after : lib.database.contents db' ≡ apply binding (apply rows c) =
        write-contents db db' (rows ++ binding) durability (written ∙ ap ok same)
        ∙ apply-append rows binding c in
      subst (Consistent lib) (sym after) (
        binding-elsewhere (apply rows c) (apply binding (apply rows c)) channel artifact
          (λ k. binding_elsewhere channel reference binding (apply rows c) k bound)
          (found_rows channel artifact metadata found rows c made
            (get_cf-contents lib db artifacts key found read) word v))
