-- ===== src/Examples/Caches.antt =====
-- A channel with one artifact: staging, publication, reclamation, and the channel's deletion.
use flywheel.Prelude.{
  true, ◌⊎◌, ◌≡◌, ◌≢◌, ◌↔◌, refl, arith, false, ◌&&◌, Option, none, some, List, [], ◌∷◌, replicate,
  ◌==◌,
}
use flywheel.Bytes.{Bytes, bytes_eq}
use flywheel.Space.{State, reclaiming}
use flywheel.Storage.Ids.{
  ArtifactId, artifact_eq, zstd, identity, durable, open_access, active, ChannelRecord,
  default_channel,
}
use flywheel.Storage.Errors.{ok}
use flywheel.Storage.Records.{encode_record, decode_record}
use flywheel.Storage.Database.{
  Database, Contents, Family, artifacts, eviction, channels, put, apply, family_eq,
}
use flywheel.Storage.Keys.{eviction_key}
use flywheel.Storage.Keys.Laws.{artifact_key-eq}
use flywheel.Storage.Metadata.{
  Libraries, channel_record, store_channel, get_cf, decode_found, put_record, write_sync,
}
use flywheel.LocalFiles.Reserver.{Reserver, space_reserver}
use flywheel.LocalFiles.Reservation.{Reservation, temporary, removed, Holds}
use flywheel.LocalFiles.Settlement.{Settled}
use flywheel.LocalFiles.Stage.{Item, chunk, Filesystem, StagedArtifact, stage}
use flywheel.LocalFiles.Staging
use flywheel.LocalFiles.Staging.{stage-Accounted}
use flywheel.LocalFiles.Publish
use flywheel.LocalFiles.Publish.{PublishCalls, renamed, publish, publish-Accounted}
use flywheel.Channels.{
  authorize, authorize_found, authorize_record, authorize_with_lease, stored, update_expiry,
  begin_deletion, finish_deletion, resume_all,
}
use flywheel.Channels.Authorize.{
  Opens, Stored, Keyed, authorize_iff, update_expiry-Stored, begin_deletion-locks,
}
use flywheel.Channels.Deletion.{Finished, Resumed, finish_deletion-Finished, resume_all-Resumed}
use flywheel.Cache.Publication.{commit_staged}
use flywheel.Cache.Requests.{
  PublishRequest, by_id, publish_or_reject, Answered, publish_or_reject-Answered,
}
use flywheel.Cache.Commit.{Backed, commit_staged-Done}
use flywheel.Cache.Reclamation.{Bodies, run_maintenance_once}
use flywheel.Cache.Reads.{
  missing, has_record, reconcile_all, reconcile_all_keeps, locate_local, Located,
  locate_local-Located,
}
use flywheel.Cache.Bodies.{Recorded}
use flywheel.Cache.Passes.{Within, run_maintenance_once-Sound}
use flywheel.Storage.Metadata.Queue.{Consistent}
use flywheel.Examples.Library.{example_lib, example_text}
use flywheel.Examples.Store.{
  artifact, one_artifact, nothing, nothing-Consistent, one_artifact-Consistent,
}

abbrev plain : Bytes → Bytes
plain b = b

abbrev reserver : Reserver
reserver = space_reserver record { low_watermark = 10; high_watermark = 20; emergency_headroom = 5 }

abbrev ledger : State
ledger = record {
  free_observed = 100;
  reserved = 8;
  committed_since = 2;
  degraded = false;
  is_reclaiming = false;
}

ledger-Settled : Settled reserver 8 ledger
ledger-Settled = (refl, (omega arith, omega arith, omega arith))

abbrev fs : Filesystem
fs = record {
  path = 1 ∷ [];
  create_dir = ok tt;
  open_file = ok tt;
  finish = ok tt;
  sync_all = ok tt;
  encoded_len = ok 9;
  remove_file = removed;
}

abbrev items : List Item
items = chunk (1 ∷ 2 ∷ 3 ∷ 4 ∷ 5 ∷ []) (ok tt) ∷ chunk (6 ∷ []) (ok tt) ∷ []

stage-Accounted_example :
    let (after, outcome) = stage reserver 4 50 plain fs durable zstd none items ledger in
    Staging.Accounted reserver 4 50 (omega arith) plain 8 ledger items after outcome
stage-Accounted_example =
    stage-Accounted reserver 4 50 (omega arith) plain 8 fs durable zstd none items ledger
      ledger-Settled

abbrev held : Reservation
held = record { outstanding = 6; state = temporary (1 ∷ []) }

held-Holds : Holds reserver 2 ledger held
held-Holds = record { valid = ledger-Settled.1; holds = refl }

abbrev staged : StagedArtifact
staged = record {
  path = 1 ∷ [];
  digest = 7 ∷ [];
  len = 3;
  stored_len = 3;
  encoding = identity;
  reservation = held;
}

abbrev calls : PublishCalls
calls = record {
  create_dir = ok tt;
  try_exists = ok false;
  remove_staged = ok tt;
  rename = renamed;
  sync_parent = ok tt;
  remove_file = removed;
}

publish-Accounted_example :
    let (after, outcome) = publish reserver calls artifact staged durable ledger in
    Publish.Accounted reserver 2 artifact staged after outcome
publish-Accounted_example =
    publish-Accounted reserver 2 calls artifact staged durable ledger held-Holds

abbrev channel : ChannelRecord
channel = record {
  id = 1;
  access = open_access;
  expiry_seconds = 30;
  state = active;
  created_at = 0;
}

abbrev row : Bytes
row = 1 ∷ 1 ∷ 30 ∷ 0 ∷ []

abbrev one_channel : Contents
one_channel = apply (put channels (1 ∷ replicate 25 48) row ∷ []) one_artifact

authorize_iff_example : (authorize plain example_lib one_channel 1 none ≡ ok channel) ↔ (
    (channel_record example_lib one_channel 1 ≡ ok (some channel))
    × Opens plain channel.access none
    × (channel.state ≡ active))
authorize_iff_example = authorize_iff plain example_lib one_channel 1 none channel

abbrev later : Contents
later = apply (put channels (1 ∷ replicate 25 48) (1 ∷ 1 ∷ 99 ∷ 0 ∷ []) ∷ []) one_channel

update_expiry-Stored_example :
    Stored plain example_lib later (record channel { expiry_seconds = 99 })
unfolding update_expiry stored store_channel put_record encode_record write_sync
update_expiry-Stored_example = update_expiry-Stored plain example_lib [] one_channel channel 99 refl

commit_staged-Done_example :
    let (after, db, result) =
      commit_staged example_lib reserver one_channel nothing ledger calls 5 1 artifact staged
        record { content_type = none; reference = none; durability = durable } in
    Settled reserver 2 after
    × Consistent example_lib db
    × Backed example_lib reserver one_channel 1 artifact staged result
commit_staged-Done_example =
    commit_staged-Done example_lib reserver 2 one_channel nothing ledger calls 5 1 artifact staged
      record { content_type = none; reference = none; durability = durable } held-Holds
      nothing-Consistent

one_channel-Keyed : Keyed plain example_lib one_channel
unfolding family_eq decode_record bytes_eq
one_channel-Keyed id r bytes there decodes = ground arith

begin_deletion-locks_example :
    (1 ≢ default_channel)
    × ((r : ChannelRecord) × (authorize plain example_lib one_channel 1 none ≡ ok r))
    × ((other : Option Bytes) (r : ChannelRecord)
        → authorize plain example_lib
            (begin_deletion plain example_lib one_channel one_channel [] 1 none).1
            1
            other
          ≢ ok r)
unfolding begin_deletion authorize_with_lease authorize authorize_found authorize_record
    channel_record get_cf decode_found decode_record stored store_channel put_record encode_record
    write_sync family_eq bytes_eq
begin_deletion-locks_example =
    begin_deletion-locks plain example_lib one_channel one_channel [] 1 none one_channel-Keyed refl

finish_deletion-Finished_example :
    let (gates, db, result) = finish_deletion plain example_lib one_channel (1 ∷ []) 1 (ok tt) in
    Finished plain example_lib 1 one_channel db result
finish_deletion-Finished_example =
    finish_deletion-Finished plain example_lib one_channel (1 ∷ []) 1 (ok tt)

resume_all-Resumed_example :
    let (gates, db, result) =
      resume_all plain example_lib one_channel [] (channel ∷ []) (λ _. ok tt) in
    Resumed plain example_lib (channel ∷ []) one_channel db result
resume_all-Resumed_example =
    resume_all-Resumed plain example_lib one_channel [] (channel ∷ []) (λ _. ok tt)

-- The same library, over a database that lists the channel and the queue row.
abbrev listing : Family → List (Option (Bytes × Bytes))
listing Family.meta = []
listing artifacts = []
listing Family.references = []
listing eviction = some (eviction_key example_text 1 50 artifact, []) ∷ []
listing channels = some (1 ∷ replicate 25 48, row) ∷ []

abbrev listed_database : Database
listed_database = record example_lib.database { iterate = λ db f k. listing f }

abbrev listed_lib : Libraries
listed_lib = record example_lib { database = listed_database }

abbrev bodies : Bodies
bodies c a = 1 == c && artifact_eq artifact a

one_channel-Recorded : Recorded listed_lib one_channel bodies
unfolding family_eq
one_channel-Recorded c a present gone =
    ground (arith, present, gone, artifact_key-eq example_text 1 c artifact a)

run_maintenance_once-Sound_example :
    let (db, left, result) =
      run_maintenance_once listed_lib
        (λ _ _. false)
        (λ _ _. ok tt)
        reclaiming
        60
        one_channel
        bodies
        0
        10
        1000 in
    Recorded listed_lib db left × Within 10 result
run_maintenance_once-Sound_example =
    run_maintenance_once-Sound listed_lib (λ _ _. false) (λ _ _. ok tt) reclaiming 60 10 one_channel
      bodies 0 1000 one_channel-Recorded

reconcile_all_keeps_example :
    ((reconcile_all example_lib
          (λ _ _. one_channel)
          (λ _ _. one_channel)
          (λ _ _. ok tt)
          ((1, artifact) ∷ (2, artifact) ∷ [])
          bodies).0
        1 artifact
      ≡ true)
    ⊎ (has_record example_lib one_channel 1 artifact ≡ ok false)
unfolding bytes_eq
reconcile_all_keeps_example =
    reconcile_all_keeps example_lib (λ _ _. one_channel) (λ _ _. one_channel) (λ _ _. ok tt)
      ((1, artifact) ∷ (2, artifact) ∷ []) bodies 1 artifact refl

locate_local-Located_example :
    let (db, result) = locate_local example_lib one_artifact one_artifact 1 artifact missing in
    Consistent example_lib db × Located example_lib one_artifact db 1 artifact missing result
locate_local-Located_example =
    locate_local-Located example_lib one_artifact one_artifact 1 artifact missing
      one_artifact-Consistent

abbrev named : ArtifactId
named = record { digest = 1 ∷ 2 ∷ 3 ∷ 4 ∷ 5 ∷ 6 ∷ [] }

abbrev request : PublishRequest
request = record {
  channel = 1;
  target = by_id named;
  content_type = none;
  content_length = none;
  durability = durable;
  encoding = zstd;
}

publish_or_reject-Answered_example :
    let (after, db, result) =
      publish_or_reject example_lib reserver 4 50 plain one_channel nothing fs calls 5 request items
        ledger in
    Settled reserver 8 after
    × Consistent example_lib db
    × Answered example_lib reserver 4 50 plain request.target items result
publish_or_reject-Answered_example =
    publish_or_reject-Answered example_lib reserver 4 50 plain (omega arith) 8 one_channel nothing
      fs calls 5 request items ledger ledger-Settled nothing-Consistent
