-- ===== src/Examples/Builds.antt =====
-- A build client: a manifest of two actions, an object directory, and a session of the protocol.
use flywheel.Prelude.{
  ◌≡◌, ◌≤◌, refl, arith, true, Option, none, some, [], ◌∷◌, length, count, remove_one,
}
use flywheel.Bytes.{Bytes, codes, bytes_eq}
use flywheel.Cacheprog.{
  ManifestEntry, Map, Manifest, UsedEntry, manifest_version, manifest_max_entries, lookup,
  insert_key,
}
use flywheel.Cacheprog.Merge.{stored_entries, insert_used, merge_manifest}
use flywheel.Cacheprog.Merged.{used_or, if_recent, lookup-merge_manifest}
use flywheel.Cacheprog.Capped.{length-merge_manifest}
use flywheel.Cacheprog.Objects.{
  Answer, found, manifest_entry, answer_remote, etag_digest, write_disk_file, file_has_size,
  publish_temporary, Write, PutRequest, Helper, Remote, present, get, put, download_object,
}
use flywheel.Cacheprog.Integrity.{Verified}
use flywheel.Cacheprog.Found.{Sound, get-Sound}
use flywheel.Cacheprog.Writers.{put-download-Verified}
use flywheel.Cacheprog.Protocol.{
  Request, Loop, reply, start, settle, on_request, on_response, Runs, begun, took, responded,
}
use flywheel.Cacheprog.Protocol.Ends.{Ends, complete_all, on_request-Ends}
use flywheel.Cacheprog.Protocol.Answers.{replies, Runs-Closed}
use flywheel.Examples.Transport.{example_hex, shift}

abbrev entry : ManifestEntry
entry = record { output = shift (codes "o"); size = 1; last_seen = 5 }

abbrev stored : Option Manifest
stored =
    some
      record { version = manifest_version; entries = (codes "a", entry) ∷ (codes "b", entry) ∷ [] }

abbrev used : Map UsedEntry
used = (codes "b", record { output = codes "new"; size = 3 }) ∷ []

lookup-merge_manifest_example :
    lookup (codes "a") (merge_manifest stored used 9).entries
    ≡ used_or 9 (lookup (codes "a") used) (if_recent 9 (lookup (codes "a") (stored_entries stored)))
unfolding bytes_eq insert_used insert_key
lookup-merge_manifest_example =
    lookup-merge_manifest stored used 9 (codes "a") (tt, tt) ((refl, tt), (tt, tt)) (omega arith)

length-merge_manifest_example : length (merge_manifest stored used 9).entries ≤ manifest_max_entries
unfolding bytes_eq
length-merge_manifest_example = length-merge_manifest stored used 9 ((refl, tt), (tt, tt))

abbrev plain : Bytes → Bytes
plain b = b

abbrev helper : Helper
helper = record { disk = []; session = record { manifest = stored; used = []; inflight = [] } }

empty-Verified : Verified example_hex plain []
unfolding lookup
empty-Verified name body e = cc

abbrev download : Remote
download = present none (codes "o")

abbrev io : Write
io = record { written = true; lost = 0; renamed = true }

get-Sound_example :
    Sound example_hex plain (get example_hex plain helper [] helper download io true)
get-Sound_example =
    get-Sound example_hex plain helper [] helper download io true refl empty-Verified empty-Verified

-- Where the last byte is lost after the write was reported, the answer names a file without it.
abbrev truncated : Helper × Answer
truncated =
    get example_hex plain helper [] helper download
      record { written = true; lost = 1; renamed = true } true

get_truncated :
    (truncated.1 ≡ found (codes "o") 1 (shift (codes "o")))
    × (lookup (shift (codes "o")) truncated.0.disk ≡ some [])
unfolding get manifest_entry lookup answer_remote etag_digest write_disk_file file_has_size
    publish_temporary insert_key bytes_eq
get_truncated = (refl, refl)

abbrev request : PutRequest
request = record {
  action_id = codes "a";
  output_id = codes "o";
  body_size = 1;
  body = some (codes "o");
}

put-download-Verified_example :
    Verified example_hex plain (put example_hex plain helper request io true true).0.disk
    × (download_object example_hex plain [] entry download io
          ≡ some ((shift (codes "o"), codes "o") ∷ [], true)
        → Verified example_hex plain ((shift (codes "o"), codes "o") ∷ []))
put-download-Verified_example =
    put-download-Verified example_hex plain helper request io true true io entry download
      ((shift (codes "o"), codes "o") ∷ []) true refl empty-Verified

-- A request, the `close` while it is in flight, and its response.
abbrev first : Request
first = record { id = 1; command = codes "get"; body_size = 0 }

abbrev last : Request
last = record { id = 2; command = codes "close"; body_size = 0 }

abbrev waiting : Loop
waiting = on_request (on_request start first) last

abbrev closed : Loop
closed = on_response waiting 1

closed-Runs : Runs (1 ∷ []) closed
unfolding on_request bytes_eq settle
closed-Runs = responded 1 refl (omega arith) (took last refl refl (took first refl refl begun))

Runs-Closed_example : count 1 (1 ∷ []) ≡ replies 1 (reply 1 ∷ [])
unfolding on_request on_response bytes_eq settle remove_one
Runs-Closed_example = Runs-Closed 2 (reply 1 ∷ []) closed-Runs refl 1

on_request-Ends_example :
    Ends 2 (complete_all (3 ∷ 1 ∷ []) (on_request (record start { in_flight = 1 ∷ 3 ∷ [] }) last))
unfolding bytes_eq
on_request-Ends_example =
    on_request-Ends (record start { in_flight = 1 ∷ 3 ∷ [] }) last (3 ∷ 1 ∷ []) refl
      λ j. ground arith
