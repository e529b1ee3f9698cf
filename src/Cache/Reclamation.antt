-- ===== src/Cache/Reclamation.antt =====
-- src/cache/service.rs: `run_maintenance_once`, with the bodies on disk beside the store. The pass
-- is one sequence of steps: the stripe of a candidate keeps others from its identity.
use flywheel.Prelude.{
  ◌+◌, ◌-◌, ◌%◌, ℕ, Bool, true, false, not, ◌&&◌, ◌||◌, ◌==◌, leb, Option, none, some, List, [],
  ◌∷◌, ◌++◌, filter, map, take, drop, length, saturating_add, saturating_sub, if◌then◌else◌,
}
use flywheel.Space.{Mode, normal, reclaiming}
use flywheel.Storage.Ids.{ChannelId, ArtifactId, artifact_eq, ArtifactMetadata}
use flywheel.Storage.Errors.{Result, ok, err}
use flywheel.Storage.Metadata.{
  Libraries, Candidate, Evicted, removed, stale, channel_record, channel_records, artifact_metadata,
  reclaim_candidates, requeue, evict,
}
use flywheel.LocalFiles.Stage.{LocalError}
use flywheel.Channels.{is_active}
use flywheel.Cache.Publication.{CacheError, local, metadata, missing_channel}

-- The bodies at their final paths.
abbrev pub Bodies : Type 0
Bodies = ChannelId → ArtifactId → Bool

unfoldable pub unlink : Bodies → ChannelId → ArtifactId → Bodies
unlink bodies channel artifact d b =
    if channel == d && artifact_eq artifact b then false else bodies d b

-- What the pass carries from one candidate to the next.
pub record Budget : Type 0 where
  pub remaining_candidates : ℕ
  pub remaining_bytes : ℕ
  pub reclaimed : ℕ

-- How the loop over a channel's candidates is left.
pub data Flow : Type 0 where
  next_channel stop : Flow

unfoldable pub spent : Budget → Bool
spent b = b.remaining_candidates == 0 || b.remaining_bytes == 0

unfoldable pub take_candidate : Budget → Budget
take_candidate b = record b { remaining_candidates = b.remaining_candidates - 1 }

unfoldable pub charge : Budget → Evicted → Budget
charge b (removed stored_len) = record b {
  remaining_bytes = saturating_sub b.remaining_bytes stored_len;
  reclaimed = b.reclaimed + 1;
}
charge b stale = b

abbrev pub is_normal : Mode → Bool
is_normal normal = true
is_normal reclaiming = false

-- The body is removed if the candidate is its artifact's current row.
unfoldable pub unlink_current :
    Bodies
    → ChannelId
    → Candidate
    → Result {0} LocalError Unit
    → Option ArtifactMetadata
    → Bodies × Result {0} CacheError Unit
unfolding unlink
unlink_current bodies channel candidate remove none = (bodies, ok tt)
unlink_current bodies channel candidate remove (some m) =
    elim (m.eligible_at == candidate.eligible_at) [
      | false ↦ (bodies, ok tt)
      | true ↦ elim remove [
        | err error ↦ (bodies, err (local error))
        | ok _ ↦ (unlink bodies channel candidate.artifact, ok tt)
      ]
    ]

module _ (lib : Libraries) where
  abbrev Db : Type 0
  Db = lib.database.Db

  -- What a step leaves of the store and the bodies, and its result.
  abbrev pub Step : Type 0 → Type 0
  Step A = Db × Bodies × Result CacheError A

  -- The eviction of one candidate: the body goes before its metadata.
  unfoldable pub evict_candidate :
      Db → Bodies → ChannelId → Candidate → Result {0} LocalError Unit → Step Evicted
  unfolding unlink_current
  evict_candidate db bodies channel candidate remove =
      elim (artifact_metadata lib db channel candidate.artifact) [
        | err error ↦ (db, bodies, err (metadata error))
        | ok found ↦
            let (bodies', unlinked) = unlink_current bodies channel candidate remove found in
            elim unlinked [
              | err error ↦ (db, bodies', err error)
              | ok _ ↦ elim (evict lib db channel candidate.artifact candidate.eligible_at) [
                | err error ↦ (db, bodies', err (metadata error))
                | ok (db', outcome) ↦ (db', bodies', ok outcome)
              ]
            ]
      ]

  -- `expiry_seconds` and `channels`: active channels only.
  unfoldable pub expiry_seconds : Db → ChannelId → Result CacheError ℕ
  expiry_seconds db channel = elim (channel_record lib db channel) [
    | err error ↦ err (metadata error)
    | ok none ↦ err missing_channel
    | ok (some r) ↦ elim (is_active r.state) [
      | true ↦ ok r.expiry_seconds
      | false ↦ err missing_channel
    ]
  ]

  unfoldable pub active_channels : Db → Result CacheError (List ChannelId)
  active_channels db = elim (channel_records lib db) [
    | err error ↦ err (metadata error)
    | ok records ↦ ok (map (λ r. r.id) (filter (λ r. is_active r.state) records))
  ]

  -- One pass, in a mode and at a time. `seen` is the answer of the recent-use filter, `remove` how
  -- the removal of a body ends.
  module _ (seen : ChannelId → ArtifactId → Bool)
      (remove : ChannelId → ArtifactId → Result {0} LocalError Unit) (mode : Mode) (now : ℕ) where
    unfoldable pub charged : Budget → Step Evicted → Step Budget
    unfolding charge
    charged b (db, bodies, ok outcome) = (db, bodies, ok (charge b outcome))
    charged b (db, bodies, err error) = (db, bodies, err error)

    -- The body of the loop over candidates, where a candidate is taken.
    unfoldable pub visit : Db → Bodies → ChannelId → ℕ → Budget → Candidate → Step Budget
    unfolding charged evict_candidate
    visit db bodies channel expiry b candidate =
        elim (is_normal mode && seen channel candidate.artifact) [
          | true ↦
              elim (requeue lib db channel candidate.artifact candidate.eligible_at
                (saturating_add now expiry)) [
                  | err error ↦ (db, bodies, err (metadata error))
                  | ok db' ↦ (db', bodies, ok b)
                ]
          | false ↦
              charged b
                (evict_candidate db bodies channel candidate (remove channel candidate.artifact))
        ]

    unfoldable pub scan :
        List Candidate → Db → Bodies → ChannelId → ℕ → Budget → Step (Budget × Flow)
    unfolding spent take_candidate visit
    scan [] db bodies channel expiry b = (db, bodies, ok (b, next_channel))
    scan (candidate ∷ rest) db bodies channel expiry b = elim (spent b) [
      | true ↦ (db, bodies, ok (b, stop))
      | false ↦ elim (is_normal mode && not (leb candidate.eligible_at now)) [
        | true ↦ (db, bodies, ok (b, next_channel))
        | false ↦
            let (db', bodies', result) =
              visit db bodies channel expiry (take_candidate b) candidate in
            elim result [
              | err error ↦ (db', bodies', err error)
              | ok b' ↦ scan rest db' bodies' channel expiry b'
            ]
      ]
    ]

    unfoldable pub pass : List ChannelId → Db → Bodies → Budget → Step Budget
    unfolding spent scan expiry_seconds
    pass [] db bodies b = (db, bodies, ok b)
    pass (channel ∷ rest) db bodies b = elim (spent b) [
      | true ↦ (db, bodies, ok b)
      | false ↦ elim (expiry_seconds db channel) [
        | err error ↦ (db, bodies, err error)
        | ok expiry ↦ elim (reclaim_candidates lib db channel b.remaining_candidates) [
          | err error ↦ (db, bodies, err (metadata error))
          | ok candidates ↦
              let (db', bodies', result) = scan candidates db bodies channel expiry b in
              elim result [
                | err error ↦ (db', bodies', err error)
                | ok (b', stop) ↦ (db', bodies', ok b')
                | ok (b', next_channel) ↦ pass rest db' bodies' b'
              ]
        ]
      ]
    ]

    -- `channels.rotate_left(cursor % channels.len())`
    unfoldable pub rotated : ℕ → List ChannelId → List ChannelId
    rotated cursor [] = []
    rotated cursor (channel ∷ rest) =
        let ids = channel ∷ rest in
        let start = cursor % length ids in drop start ids ++ take start ids

    -- `run_maintenance_once`, after the refresh of the ledger.
    unfoldable pub run_maintenance_once : Db → Bodies → ℕ → ℕ → ℕ → Step ℕ
    unfolding active_channels rotated pass
    run_maintenance_once db bodies cursor limit reclaim_byte_limit = elim (active_channels db) [
      | err error ↦ (db, bodies, err error)
      | ok ids ↦
          let b : Budget = record {
            remaining_candidates = limit;
            remaining_bytes = reclaim_byte_limit;
            reclaimed = 0;
          } in
          let (db', bodies', result) = pass (rotated cursor ids) db bodies b in
          elim result [
            | err error ↦ (db', bodies', err error)
            | ok b' ↦ (db', bodies', ok b'.reclaimed)
          ]
    ]
