-- ===== src/Storage/Metadata/Queue.antt =====
-- src/storage/metadata/rocksdb.rs: the invariant between the eviction queue and the artifact
-- records, and the changes that touch one artifact only.
use flywheel.Prelude.{
  ℕ, ◌≡◌, ap, subst, ◌∙◌, ◌⊎◌, inl, inr, true, false, ◌&&◌, Option, none, some, [], arith,
  Bool-cases, ◌==◌, if◌then◌else◌, IsU64,
}
use flywheel.Bytes.{Bytes}
use flywheel.Bytes.Order.{bytes_eq→eq}
use flywheel.Storage.Ids.{ChannelId, ArtifactId, artifact_eq, ArtifactMetadata}
use flywheel.Storage.Errors.{ok, Result-cases}
use flywheel.Storage.Records.{decode_record}
use flywheel.Storage.Database.{Contents, Family, artifacts, eviction}
use flywheel.Storage.Keys.{artifact_key, eviction_key}
use flywheel.Storage.Metadata.{Libraries, get_cf}

module _ (lib : Libraries) where
  -- The entries of one artifact agree: no record and no queue row, or a record that decodes and
  -- one queue row, at its deadline.
  abbrev pub Queued : Contents → ChannelId → ArtifactId → Type 0
  Queued c channel artifact =
      ((c artifacts (artifact_key lib.text channel artifact) ≡ none)
        × ((t : ℕ) → IsU64 t → c eviction (eviction_key lib.text channel t artifact) ≡ none))
      ⊎ ((bytes : Bytes) × (metadata : ArtifactMetadata) × (c artifacts
              (artifact_key lib.text channel artifact)
            ≡ some bytes)
          × (decode_record lib.artifact_codec bytes ≡ ok metadata)
          × IsU64 metadata.eligible_at
          × ((t : ℕ)
              → IsU64 t
              → c eviction (eviction_key lib.text channel t artifact)
                ≡ (if t == metadata.eligible_at then some [] else none)))

  abbrev pub Consistent : Contents → Type 0
  Consistent c = (channel : ChannelId) (artifact : ArtifactId) → Queued c channel artifact

  -- Two contents agree on the rows of all artifacts but one.
  pub record SameElsewhere (c c' : Contents) (channel : ChannelId) (artifact : ArtifactId)
      : Type 0 where
    pub same_records :
        (d : ChannelId) (b : ArtifactId)
        → (channel == d && artifact_eq artifact b) ≡ false
        → c' artifacts (artifact_key lib.text d b) ≡ c artifacts (artifact_key lib.text d b)
    pub same_queue :
        (d : ChannelId) (t : ℕ) (b : ArtifactId)
        → IsU64 t
        → (channel == d && artifact_eq artifact b) ≡ false
        → c' eviction (eviction_key lib.text d t b) ≡ c eviction (eviction_key lib.text d t b)

  pub Queued-same :
      (c c' : Contents) (d : ChannelId) (b : ArtifactId)
      → c' artifacts (artifact_key lib.text d b) ≡ c artifacts (artifact_key lib.text d b)
      → ((t : ℕ)
          → IsU64 t
          → c' eviction (eviction_key lib.text d t b) ≡ c eviction (eviction_key lib.text d t b))
      → Queued c d b
      → Queued c' d b
  Queued-same c c' d b r q (inl (missing, empty)) = inl (r ∙ missing, λ t h. q t h ∙ empty t h)
  Queued-same c c' d b r q (inr (bytes, m, found, decodes, word, rows)) =
      inr (bytes, m, r ∙ found, decodes, word, λ t h. q t h ∙ rows t h)

  pub artifact_eq→eq : (a b : ArtifactId) → artifact_eq a b ≡ true → a ≡ b
  artifact_eq→eq a b h = λ i. record { digest = bytes_eq→eq a.digest b.digest h i }

  -- A change to one artifact keeps all consistent if it keeps that one so.
  pub SameElsewhere-Consistent :
      (c c' : Contents) (channel : ChannelId) (artifact : ArtifactId)
      → SameElsewhere c c' channel artifact
      → Queued c' channel artifact
      → Consistent c
      → Consistent c'
  SameElsewhere-Consistent c c' channel artifact s q v d b =
      elim (Bool-cases (channel == d && artifact_eq artifact b)) [
        | inl same ↦
            let ch : channel ≡ d = ground arith in
            let ar : artifact ≡ b = artifact_eq→eq artifact b (ground arith) in
            subst (λ e. Queued c' e b) ch (subst (λ e. Queued c' channel e) ar q)
        | inr other ↦
            Queued-same c c' d b (s.same_records d b other) (λ t h. s.same_queue d t b h other)
              (v d b)
      ]

  pub get_cf-contents :
      (db : lib.database.Db) (f : Family) (k : Bytes) (v : Option Bytes)
      → get_cf lib db f k ≡ ok v
      → v ≡ lib.database.contents db f k
  unfolding get_cf
  get_cf-contents db f k v h = elim (Result-cases (lib.database.get db f k)) [
    | inl (u, e) ↦
        let same : u ≡ v = ground arith in lib.database.get_contents db f k v (e ∙ ap ok same)
    | inr (m, e) ↦ absurd (ground arith)
  ]
