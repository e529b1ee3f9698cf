-- ===== src/Cache/Passes.antt =====
-- src/cache/service.rs: the loops of a maintenance pass, and its budget.
use flywheel.Prelude.{
  ◌≡◌, ◌≤◌, ◌+◌, subst, inl, inr, ℕ, Bool, false, Bool-cases, not, ◌&&◌, leb, List, [], ◌∷◌, arith,
  saturating_add,
}
use flywheel.Space.{Mode}
use flywheel.Storage.Ids.{ChannelId, ArtifactId}
use flywheel.Storage.Errors.{Result, ok, err, Result-cases}
use flywheel.Storage.Metadata.{
  Libraries, Candidate, Evicted, removed, stale, reclaim_candidates, requeue,
}
use flywheel.LocalFiles.Stage.{LocalError}
use flywheel.Cache.Publication.{CacheError}
use flywheel.Cache.Reclamation.{
  Bodies, Budget, next_channel, stop, spent, take_candidate, charge, is_normal, Step,
  expiry_seconds, active_channels, charged, visit, scan, pass, rotated, run_maintenance_once,
}
use flywheel.Cache.Bodies.{Recorded, Sound, requeue_keeps, evict_candidate-Sound}

-- The number of a pass that ends without an error is within the limit.
abbrev pub Within : ℕ → Result CacheError ℕ → Type 0
Within limit (ok reclaimed) = reclaimed ≤ limit
Within limit (err error) = Unit

module _ (lib : Libraries) where
  abbrev Db : Type 0
  Db = lib.database.Db

  -- The candidates that are reclaimed and those that may still be taken are within the limit.
  abbrev Bounded : ℕ → Budget → Type 0
  Bounded limit b = b.reclaimed + b.remaining_candidates ≤ limit

  -- One more candidate may be charged.
  abbrev Room : ℕ → Budget → Type 0
  Room limit b = b.reclaimed + b.remaining_candidates + 1 ≤ limit

  charge-Bounded :
      (limit : ℕ) (b : Budget) (outcome : Evicted) → Room limit b → Bounded limit (charge b outcome)
  unfolding charge
  charge-Bounded limit b (removed stored_len) room = omega arith
  charge-Bounded limit b stale room = omega arith

  take_candidate-Room :
      (limit : ℕ) (b : Budget) → spent b ≡ false → Bounded limit b → Room limit (take_candidate b)
  unfolding spent take_candidate
  take_candidate-Room limit b left bound = ground arith

  Sound-ok :
      {A : Type 0} (P : A → Type 0) (step : Step lib A) (a : A)
      → Sound lib P step
      → step.2 ≡ ok a
      → Recorded lib step.0 step.1 × P a
  Sound-ok P (db, bodies, ok x) a (v, p) e = let same : x ≡ a = ground arith in (v, subst P same p)
  Sound-ok P (db, bodies, err error) a v e = cc

  Sound-err :
      {A : Type 0} (P : A → Type 0) (step : Step lib A) (error : CacheError)
      → Sound lib P step
      → step.2 ≡ err error
      → Recorded lib step.0 step.1
  Sound-err P (db, bodies, ok x) error (v, p) e = v
  Sound-err P (db, bodies, err _) error v e = v

  module _ (seen : ChannelId → ArtifactId → Bool)
      (remove : ChannelId → ArtifactId → Result {0} LocalError Unit) (mode : Mode)
      (now limit : ℕ) where
    charged-Sound :
        (b : Budget) (step : Step lib Evicted)
        → Room limit b
        → Sound lib (λ _. Unit) step
        → Sound lib (Bounded limit) (charged lib seen remove mode now b step)
    unfolding charged
    charged-Sound b (db, bodies, ok outcome) room (v, _) = (v, charge-Bounded limit b outcome room)
    charged-Sound b (db, bodies, err error) room v = v

    visit-Sound :
        (db : Db) (bodies : Bodies) (channel : ChannelId) (expiry : ℕ) (b : Budget)
        (candidate : Candidate)
        → Recorded lib db bodies
        → Room limit b
        → Sound lib
            (Bounded limit)
            (visit lib seen remove mode now db bodies channel expiry b candidate)
    unfolding visit
    visit-Sound db bodies channel expiry b candidate v room =
        elim (Bool-cases (is_normal mode && seen channel candidate.artifact)) [
          | inl recent ↦
              elim (Result-cases (
                requeue lib db channel candidate.artifact candidate.eligible_at
                  (saturating_add now expiry))) [
                    | inr (_, e) ↦ rw (recent, visit, e) v
                    | inl (db', e) ↦
                        rw (recent, visit, e)
                          (
                            (λ d a present gone. v d a present (
                                requeue_keeps lib db db' channel candidate.artifact
                                  candidate.eligible_at (saturating_add now expiry) _ e gone)),
                            omega arith,
                          )
                  ]
          | inr due ↦
              rw (due, visit)
                (charged-Sound b _ room (
                  evict_candidate-Sound lib db bodies channel candidate
                    (remove channel candidate.artifact) v))
        ]

    scan-Sound :
        (candidates : List Candidate) (db : Db) (bodies : Bodies) (channel : ChannelId) (expiry : ℕ)
        (b : Budget)
        → Recorded lib db bodies
        → Bounded limit b
        → Sound lib
            (λ x. Bounded limit x.0)
            (scan lib seen remove mode now candidates db bodies channel expiry b)
    unfolding scan
    scan-Sound [] db bodies channel expiry b v bound = (v, bound)
    scan-Sound (candidate ∷ rest) db bodies channel expiry b v bound = elim (Bool-cases (spent b)) [
      | inl over ↦ rw (over, scan) (v, bound)
      | inr left ↦ elim (Bool-cases (is_normal mode && not (leb candidate.eligible_at now))) [
        | inl later ↦ rw (left, scan, later) (v, bound)
        | inr due ↦
            let (db', bodies', result) =
              visit lib seen remove mode now db bodies channel expiry (take_candidate b)
                candidate in
            let sound =
              visit-Sound db bodies channel expiry (take_candidate b) candidate v
                (take_candidate-Room limit b left bound) in
            elim (Result-cases result) [
              | inr (error, e) ↦ rw (left, scan, due, e) (Sound-err (Bounded limit) _ error sound e)
              | inl (b', e) ↦
                  let (v', bound') = Sound-ok (Bounded limit) _ b' sound e in
                  rw (left, scan, due, e) (scan-Sound rest db' bodies' channel expiry b' v' bound')
            ]
      ]
    ]

    pass-Sound :
        (ids : List ChannelId) (db : Db) (bodies : Bodies) (b : Budget)
        → Recorded lib db bodies
        → Bounded limit b
        → Sound lib (Bounded limit) (pass lib seen remove mode now ids db bodies b)
    unfolding pass
    pass-Sound [] db bodies b v bound = (v, bound)
    pass-Sound (channel ∷ rest) db bodies b v bound = elim (Bool-cases (spent b)) [
      | inl over ↦ rw (over, pass) (v, bound)
      | inr left ↦ elim (Result-cases (expiry_seconds lib db channel)) [
        | inr (_, e) ↦ rw (left, pass, e) v
        | inl (expiry, e) ↦
            elim (Result-cases (reclaim_candidates lib db channel b.remaining_candidates)) [
              | inr (_, c) ↦ rw (left, pass, e, c) v
              | inl (candidates, c) ↦
                  let (db', bodies', result) =
                    scan lib seen remove mode now candidates db bodies channel expiry b in
                  let sound = scan-Sound candidates db bodies channel expiry b v bound in
                  elim (Result-cases result) [
                    | inr (error, r) ↦
                        rw (left, pass, e, c, r)
                          (Sound-err (λ x. Bounded limit x.0) _ error sound r)
                    | inl ((b', stop), r) ↦
                        rw (left, pass, e, c, r)
                          (Sound-ok (λ x. Bounded limit x.0) _ (b', stop) sound r)
                    | inl ((b', next_channel), r) ↦
                        let (v', bound') =
                          Sound-ok (λ x. Bounded limit x.0) _ (b', next_channel) sound r in
                        rw (left, pass, e, c, r) (pass-Sound rest db' bodies' b' v' bound')
                  ]
            ]
      ]
    ]

    -- If every body on disk has a metadata record, it has one after a maintenance pass, wherever
    -- the pass stops and whichever of its steps fail; and a pass that ends reclaims at most as many
    -- artifacts as its limit.
    pub run_maintenance_once-Sound :
        (db : Db) (bodies : Bodies) (cursor reclaim_byte_limit : ℕ)
        → Recorded lib db bodies
        → let (db', bodies', result) =
            run_maintenance_once lib seen remove mode now db bodies cursor limit
              reclaim_byte_limit in
          Recorded lib db' bodies' × Within limit result
    unfolding run_maintenance_once
    run_maintenance_once-Sound db bodies cursor reclaim_byte_limit v =
        elim (Result-cases (active_channels lib db)) [
          | inr (_, e) ↦ rw (e, run_maintenance_once) (v, tt)
          | inl (ids, e) ↦
              let b : Budget = record {
                remaining_candidates = limit;
                remaining_bytes = reclaim_byte_limit;
                reclaimed = 0;
              } in
              let order = rotated lib seen remove mode now cursor ids in
              let sound = pass-Sound order db bodies b v (omega arith) in
              elim (Result-cases (pass lib seen remove mode now order db bodies b).2) [
                | inr (error, r) ↦
                    rw (e, run_maintenance_once, r) (Sound-err (Bounded limit) _ error sound r, tt)
                | inl (b', r) ↦
                    let (v', bound) = Sound-ok (Bounded limit) _ b' sound r in
                    rw (e, run_maintenance_once, r) (v', ground arith)
              ]
        ]
