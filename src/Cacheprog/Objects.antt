-- ===== src/Cacheprog/Objects.antt =====
-- src/cacheprog/mod.rs and src/cacheprog/session.rs: the local objects, `put`, `get` and the
-- prefetch. The remote cache's answers and the outcomes of the filesystem's calls are inputs.
use flywheel.Prelude.{
  ℕ, Bool, true, false, not, ◌&&◌, ◌||◌, Option, none, some, List, [], ◌∷◌, length, take, filter,
  ◌-◌, ◌==◌, if◌then◌else◌,
}
use flywheel.Bytes.{Bytes, codes, bytes_eq}
use flywheel.Text.{strip_prefix}
use flywheel.Identity.{Hex}
use flywheel.Cacheprog.{
  ManifestEntry, Manifest, Map, UsedEntry, manifest_version, lookup, insert_key,
}
use flywheel.Cacheprog.Merge.{merge_manifest}
use flywheel.Cacheprog.Labels.{trim_matches}

-- The object directory: what each name's file holds.
abbrev pub Disk : Type 0
Disk = Map Bytes

-- `SessionState`; an output is in flight while its marker lives.
pub record SessionState : Type 0 where
  pub manifest : Option Manifest
  pub used : Map UsedEntry
  pub inflight : List Bytes

unfoldable pub record_used : SessionState → Bytes → Bytes → ℕ → SessionState
unfolding insert_key
record_used s action output size = record s {
  used = insert_key action (record { output = output; size = size }) s.used;
}

unfoldable pub manifest_entry : SessionState → Bytes → Option ManifestEntry
unfolding lookup
manifest_entry s action = elim s.manifest [ none ↦ none | some m ↦ lookup action m.entries ]

unfoldable pub begin_download : SessionState → Bytes → SessionState
begin_download s output = record s { inflight = output ∷ s.inflight }

-- The drop of an `InflightDownload`.
unfoldable pub end_download : SessionState → Bytes → SessionState
end_download s output = record s { inflight = filter (λ o. not (bytes_eq o output)) s.inflight }

unfoldable pub contains_output : Bytes → List Bytes → Bool
contains_output output [] = false
contains_output output (o ∷ os) = bytes_eq o output || contains_output output os

unfoldable pub file_has_size : Disk → Bytes → ℕ → Bool
unfolding lookup
file_has_size disk name size = elim (lookup name disk) [
  | none ↦ false
  | some body ↦ length body == size
]

-- How writing the temporary file ends, and whether its rename succeeds. A write that reports
-- success may still be under way or fail afterwards, so that the file misses the last bytes, `lost`
-- of them, if it is dropped without a flush.
pub record Write : Type 0 where
  pub written : Bool
  pub lost : ℕ
  pub renamed : Bool

-- `publish_temporary`: `none` is an error.
unfoldable pub publish_temporary : Disk → Bytes → Bytes → Bool → Option Disk
unfolding insert_key lookup
publish_temporary disk name body true = some (insert_key name body disk)
publish_temporary disk name body false = elim (lookup name disk) [
  | none ↦ none
  | some _ ↦ some disk
]

-- What of a body is in a file that was dropped without a flush.
abbrev pub landed : Write → Bytes → Bytes
landed io body = take (length body - io.lost) body

-- `write_disk_file`, up to the canonical path; `write_atomic` does not flush.
unfoldable pub write_disk_file : Disk → Bytes → Bytes → Write → Option Disk
unfolding file_has_size publish_temporary
write_disk_file disk name body io =
    if file_has_size disk name (length body)
    then some disk
    else if io.written
    then publish_temporary disk name (landed io body) io.renamed
    else none

-- A request of the go command, its body decoded if that succeeds.
pub record PutRequest : Type 0 where
  pub action_id : Bytes
  pub output_id : Bytes
  pub body_size : ℕ
  pub body : Option Bytes

-- What the helper answers: an error, a miss, a stored object, or a found one with its output ID,
-- its size and its file.
pub data Answer : Type 0 where
  failed missed : Answer
  stored : Bytes → Answer
  found : Bytes → ℕ → Bytes → Answer

pub record Helper : Type 0 where
  pub disk : Disk
  pub session : SessionState

-- What the remote cache answers to a GET.
pub data Remote : Type 0 where
  no_answer absent : Remote
  present : Option Bytes → Bytes → Remote

-- The digest that an entity tag names.
unfoldable pub etag_digest : Option Bytes → Option Bytes
unfolding trim_matches
etag_digest none = none
etag_digest (some etag) = strip_prefix (codes "sha256:") (trim_matches 34 etag)

-- `expected != output`, where a digest is expected.
abbrev pub contradicts : Option Bytes → Bytes → Bool
contradicts none output = false
contradicts (some expected) output = not (bytes_eq expected output)

module _ (hex : Hex) (sha256 : Bytes → Bytes) where
  -- `put`, with whether the upload and the canonical path succeed.
  unfoldable pub put : Helper → PutRequest → Write → Bool → Bool → Helper × Answer
  unfolding write_disk_file record_used
  put h request io canonical sent =
      elim (if request.body_size == 0 then some [] else request.body) [
        | none ↦ (h, failed)
        | some body ↦
            elim (length body == request.body_size && bytes_eq (sha256 body) request.output_id) [
              | false ↦ (h, failed)
              | true ↦
                  let output = hex.encode request.output_id in
                  elim (write_disk_file h.disk output body io) [
                    | none ↦ (h, failed)
                    | some disk ↦ elim (canonical && sent) [
                      | false ↦ (record h { disk = disk }, failed)
                      | true ↦ (
                        record {
                          disk = disk;
                          session =
                              record_used h.session (hex.encode request.action_id) output
                                request.body_size;
                        },
                        stored output,
                      )
                    ]
                  ]
            ]
      ]

  -- A local answer.
  unfoldable pub answer_local : Helper → Bytes → ManifestEntry → Bool → Helper × Answer
  unfolding record_used
  answer_local h action entry canonical = (
    record h { session = record_used h.session action entry.output entry.size },
    elim (hex.decode_all entry.output) [
      | none ↦ failed
      | some id ↦ if canonical then found id entry.size entry.output else failed
    ],
  )

  -- The answer from the remote cache.
  unfoldable pub answer_remote : Helper → Bytes → Remote → Write → Bool → Helper × Answer
  unfolding etag_digest write_disk_file record_used
  answer_remote h action no_answer io canonical = (h, failed)
  answer_remote h action absent io canonical = (h, missed)
  answer_remote h action (present etag body) io canonical =
      let output = hex.encode (sha256 body) in
      elim (contradicts (etag_digest etag) output) [
        | true ↦ (h, missed)
        | false ↦ elim (write_disk_file h.disk output body io) [
          | none ↦ (h, failed)
          | some disk ↦ elim canonical [
            | false ↦ (record h { disk = disk }, failed)
            | true ↦ (
              record { disk = disk; session = record_used h.session action output (length body) },
              elim (hex.decode_all output) [
                | none ↦ failed
                | some id ↦ found id (length body) output
              ],
            )
          ]
        ]
      ]

  -- The wait for a download of the output that is in flight: `settled` is the helper after it.
  unfoldable pub wait_for : Helper → ManifestEntry → Helper → Helper
  unfolding file_has_size contains_output
  wait_for h entry settled =
      if not (file_has_size h.disk entry.output entry.size)
        && contains_output entry.output h.session.inflight
      then settled
      else h

  unfoldable pub get : Helper → Bytes → Helper → Remote → Write → Bool → Helper × Answer
  unfolding manifest_entry wait_for file_has_size answer_local answer_remote
  get h action_id settled remote io canonical =
      let action = hex.encode action_id in
      elim (manifest_entry h.session action) [
        | none ↦ answer_remote h action remote io canonical
        | some entry ↦
            let after = wait_for h entry settled in
            elim (file_has_size after.disk entry.output entry.size) [
              | true ↦ answer_local after action entry canonical
              | false ↦ answer_remote after action remote io canonical
            ]
      ]

  -- `download_object` and `spool_verified`, for the body of the response. This one flushes the file.
  unfoldable pub download_object : Disk → ManifestEntry → Remote → Write → Option (Disk × Bool)
  unfolding file_has_size publish_temporary
  download_object disk entry no_answer io =
      if file_has_size disk entry.output entry.size then some (disk, false) else none
  download_object disk entry absent io = some (disk, false)
  download_object disk entry (present etag body) io =
      elim (file_has_size disk entry.output entry.size) [
        | true ↦ some (disk, false)
        | false ↦
            elim (io.written
              && (length body == entry.size && bytes_eq (hex.encode (sha256 body)) entry.output)) [
                | false ↦ none
                | true ↦ elim (publish_temporary disk entry.output body io.renamed) [
                  | none ↦ none
                  | some disk' ↦ some (disk', true)
                ]
              ]
      ]

-- A manifest of another version is none.
unfoldable pub current_version : Option Manifest → Option Manifest
current_version none = none
current_version (some m) = if m.version == manifest_version then some m else none

-- `finalize`: the manifest that is sent, if the build used something. `answer` is how the GET
-- ends: an error, or what it finds.
unfoldable pub finalize :
    SessionState → Option (Option Manifest) → ℕ → SessionState × Option Manifest
unfolding merge_manifest current_version
finalize s answer now = (
  record s { used = [] },
  elim s.used [
    | [] ↦ none
    | u ∷ used ↦ elim answer [
      | none ↦ none
      | some remote ↦ some (merge_manifest (current_version remote) (u ∷ used) now)
    ]
  ],
)
