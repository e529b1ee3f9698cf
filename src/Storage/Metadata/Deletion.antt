-- ===== src/Storage/Metadata/Deletion.antt =====
-- src/storage/metadata/rocksdb.rs: `delete_channel_data`, its range deletes against the keys.
use flywheel.Prelude.{
  ℕ, ◌≡◌, refl, sym, ap, subst, ◌∙◌, inl, inr, Bool, true, false, not, ◌&&◌, none, [], ◌∷◌, arith,
  Bool-cases, ◌==◌, if◌then◌else◌,
}
use flywheel.Bytes.{Bytes, bytes_lt, starts_with}
use flywheel.Storage.Ids.{ChannelId, ArtifactId}
use flywheel.Storage.Errors.{ok}
use flywheel.Storage.Database.{
  Contents, Family, meta, artifacts, references, eviction, channels, delete_range, apply, family_eq,
}
use flywheel.Storage.Keys.{artifact_key, eviction_key, prefix_end, prefix_range}
use flywheel.Storage.Keys.Laws.{starts_with-artifact_key, starts_with-eviction_key}
use flywheel.Storage.Metadata.{Libraries, delete_channel_data}
use flywheel.Storage.Metadata.Queue.{Consistent}
use flywheel.Storage.Metadata.Publish.{write_sync-contents}

-- The families that hold a channel's data.
abbrev pub holds_data : Family → Bool
holds_data meta = false
holds_data channels = false
holds_data _ = true

module _ (lib : Libraries) where
  channel_range :
      (id : ChannelId) (k : Bytes)
      → (not (bytes_lt k (lib.text.as_key id)) && bytes_lt k (prefix_end (lib.text.as_key id)))
        ≡ starts_with k (lib.text.as_key id)
  channel_range id k =
      subst (λ p. (not (bytes_lt k p) && bytes_lt k (prefix_end p)) ≡ starts_with k p)
        (sym (lib.text.as_key_split id)) (prefix_range k (lib.text.front id) (lib.text.last id))

  -- Deleting a channel's data removes, from the artifacts, the references and the queue, exactly
  -- the rows whose key starts with the channel's; all other rows, of these and the other families,
  -- stay.
  pub delete_channel_data_lem :
      (db db' : lib.database.Db) (id : ChannelId) (f : Family) (k : Bytes)
      → delete_channel_data lib db id ≡ ok db'
      → lib.database.contents db' f k ≡ (
          if holds_data f && starts_with k (lib.text.as_key id)
          then none
          else lib.database.contents db f k)
  unfolding delete_channel_data family_eq
  delete_channel_data_lem db db' id f k h =
      ap (λ (c : Contents). c f k) (write_sync-contents lib db db' _ h) ∙ by_family f
    where
      by_family :
          (g : Family)
          → apply
              (delete_range artifacts (lib.text.as_key id) (prefix_end (lib.text.as_key id))
                ∷ delete_range references (lib.text.as_key id) (prefix_end (lib.text.as_key id))
                ∷ delete_range eviction (lib.text.as_key id) (prefix_end (lib.text.as_key id))
                ∷ [])
              (lib.database.contents db)
              g
              k
            ≡ (if holds_data g && starts_with k (lib.text.as_key id)
                then none
                else lib.database.contents db g k)
      by_family meta = refl
      by_family artifacts = rw (channel_range id k)
      by_family references = rw (channel_range id k)
      by_family eviction = rw (channel_range id k)
      by_family channels = refl

  -- After the deletion of a channel's data no artifact of the channel is left, every other
  -- channel's artifacts are as before, and the queue is consistent with the records if it was
  -- before.
  pub delete_channel_data-Consistent :
      (db db' : lib.database.Db) (id : ChannelId)
      → delete_channel_data lib db id ≡ ok db'
      → Consistent lib (lib.database.contents db)
      → Consistent lib (lib.database.contents db')
        × ((d : ChannelId) (a : ArtifactId)
            → lib.database.contents db' artifacts (artifact_key lib.text d a) ≡ (
                if id == d
                then none
                else lib.database.contents db artifacts (artifact_key lib.text d a)))
  delete_channel_data-Consistent db db' id h v = (consistent, record_at)
    where
      record_at :
          (d : ChannelId) (a : ArtifactId)
          → lib.database.contents db' artifacts (artifact_key lib.text d a) ≡ (
              if id == d
              then none
              else lib.database.contents db artifacts (artifact_key lib.text d a))
      record_at d a = ground (
        arith,
        delete_channel_data_lem db db' id artifacts (artifact_key lib.text d a) h,
        starts_with-artifact_key lib.text id d a,
      )

      row_at :
          (d : ChannelId) (t : ℕ) (a : ArtifactId)
          → lib.database.contents db' eviction (eviction_key lib.text d t a) ≡ (
              if id == d
              then none
              else lib.database.contents db eviction (eviction_key lib.text d t a))
      row_at d t a = ground (
        arith,
        delete_channel_data_lem db db' id eviction (eviction_key lib.text d t a) h,
        starts_with-eviction_key lib.text id d t a,
      )

      consistent : Consistent lib (lib.database.contents db')
      consistent d a = elim (Bool-cases (id == d)) [
        | inl here ↦ inl (ground (arith, record_at d a), λ t _. ground (arith, row_at d t a))
        | inr other ↦ elim (v d a) [
          | inl (missing, free) ↦
              inl (ground (arith, record_at d a), λ t ht. ground (arith, row_at d t a, free t ht))
          | inr (bytes, m, there, decodes, word, rows) ↦ inr (
            bytes,
            m,
            ground (arith, record_at d a),
            decodes,
            word,
            λ t ht. ground (arith, row_at d t a, rows t ht),
          )
        ]
      ]
