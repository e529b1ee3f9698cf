-- ===== src/Examples/Store.antt =====
-- A store with one artifact: published, requeued, evicted, and its channel deleted.
use flywheel.Prelude.{◌≡◌, inl, refl, arith, true, none, [], ◌∷◌, replicate}
use flywheel.Bytes.{Bytes, bytes_eq}
use flywheel.Storage.Ids.{ArtifactId, ArtifactMetadata, identity, durable}
use flywheel.Storage.Errors.{ok}
use flywheel.Storage.Records.{encode_record, decode_record}
use flywheel.Storage.Database.{
  Contents, Family, artifacts, eviction, put, delete, delete_range, apply, family_eq,
}
use flywheel.Storage.Keys.{artifact_key, eviction_key, decode_eviction_key, prefix_end}
use flywheel.Storage.Keys.Laws.{decode_eviction_key-eviction_key}
use flywheel.Storage.Metadata.{
  removed, get_cf, write, write_sync, write_unsynced, decode_found, put_record, publication_rows,
  reference_rows, commit_publication, eviction_rows, evict,
}
use flywheel.Storage.Metadata.Queue.{Consistent}
use flywheel.Storage.Metadata.Publish.{commit_publication-Consistent}
use flywheel.Storage.Metadata.Reclaim.{evict-Consistent}
use flywheel.Examples.Library.{example_lib, example_text}

abbrev pub artifact : ArtifactId
artifact = record { digest = 7 ∷ [] }

abbrev pub metadata : ArtifactMetadata
metadata = record {
  content_len = 3;
  content_type = none;
  created_at = 0;
  eligible_at = 50;
  stored_len = 3;
  encoding = identity;
}

abbrev pub nothing : Contents
nothing = λ f k. none

pub nothing-Consistent : Consistent example_lib nothing
nothing-Consistent channel a = inl (refl, λ t _. refl)

abbrev key : Bytes
key = artifact_key example_text 1 artifact

abbrev pub one_artifact : Contents
one_artifact =
    apply
      (put artifacts key (1 ∷ 3 ∷ 0 ∷ 50 ∷ 3 ∷ [])
        ∷ put eviction (eviction_key example_text 1 50 artifact) []
        ∷ [])
      nothing

pub one_artifact-Consistent : Consistent example_lib one_artifact
unfolding commit_publication get_cf publication_rows reference_rows put_record encode_record write
    write_sync
one_artifact-Consistent =
    commit_publication-Consistent example_lib nothing one_artifact 1 artifact metadata none durable
      true refl (omega arith) nothing-Consistent

abbrev requeued : Contents
requeued =
    apply
      (delete eviction (eviction_key example_text 1 50 artifact)
        ∷ put eviction (eviction_key example_text 1 80 artifact) []
        ∷ put artifacts key (1 ∷ 3 ∷ 0 ∷ 80 ∷ 3 ∷ [])
        ∷ [])
      one_artifact

abbrev evicted : Contents
evicted =
    apply (delete artifacts key ∷ delete eviction (eviction_key example_text 1 50 artifact) ∷ [])
      one_artifact

evict-Consistent_example : Consistent example_lib evicted
unfolding evict get_cf decode_found decode_record eviction_rows write_unsynced artifact_key
    eviction_key family_eq bytes_eq
evict-Consistent_example =
    evict-Consistent example_lib one_artifact evicted 1 artifact 50 (removed 3) refl (omega arith)
      one_artifact-Consistent

abbrev dropped : Contents
dropped =
    apply (delete eviction (eviction_key example_text 1 50 artifact) ∷ delete artifacts key ∷ [])
      one_artifact

abbrev prefix : Bytes
prefix = 1 ∷ replicate 25 48

abbrev emptied : Contents
emptied =
    apply
      (delete_range artifacts prefix (prefix_end prefix)
        ∷ delete_range Family.references prefix (prefix_end prefix)
        ∷ delete_range eviction prefix (prefix_end prefix)
        ∷ [])
      one_artifact

abbrev full_artifact : ArtifactId
full_artifact = record { digest = replicate 32 7 }

decode_eviction_key_example :
    decode_eviction_key (eviction_key example_text 1 50 full_artifact) ≡ ok (50, full_artifact)
decode_eviction_key_example =
    decode_eviction_key-eviction_key example_text 1 50 full_artifact (omega arith) refl
