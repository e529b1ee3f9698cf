-- ===== src/LocalFiles/Reservation.antt =====
-- src/storage/local/artifact_files.rs: `Reservation`, the disk capacity held across staging and
-- publication, and how it is settled.
use flywheel.Prelude.{
  ℕ, ◌+◌, ◌-◌, ◌≡◌, Bool, true, false, ltb, ◌==◌, if◌then◌else◌, min, saturating_add,
}
use flywheel.Bytes.{Bytes}
use flywheel.LocalFiles.Reserver.{Reserver}

pub data ReservationState : Type 0 where
  vacant : ReservationState
  temporary : Bytes → ReservationState
  published : ReservationState

pub record Reservation : Type 0 where
  pub outstanding : ℕ
  pub state : ReservationState

-- How `remove_file` ends.
pub data Removal : Type 0 where
  removed not_found failed : Removal

-- How the asynchronous cleanup of a cancelled operation ends.
pub data Cleanup : Type 0 where
  no_runtime cancelled : Cleanup
  ran : Removal → Cleanup

-- `Reservation::new`
unfoldable pub new : Reservation
new = record { outstanding = 0; state = vacant }

-- `mark_temporary`, `mark_vacant` and `mark_published`
unfoldable pub mark : Reservation → ReservationState → Reservation
mark r state = record r { state = state }

module _ (reserver : Reserver) where
  open reserver use {Ledger, try_reserve, release, commit}

  -- `reserve`: the ledger is not asked for zero bytes.
  unfoldable pub reserve : Ledger → Reservation → ℕ → Ledger × Reservation × Bool
  reserve ledger r bytes =
      if bytes == 0
      then (ledger, record r { outstanding = saturating_add r.outstanding bytes }, true)
      else (if (try_reserve ledger bytes).1
          then (
            (try_reserve ledger bytes).0,
            record r { outstanding = saturating_add r.outstanding bytes },
            true,
          )
          else ((try_reserve ledger bytes).0, r, false))

  -- `commit`: what was used is committed and the over-reserved rest released.
  unfoldable pub commit_bytes : Ledger → Reservation → ℕ → Ledger
  commit_bytes ledger r bytes =
      let used = min bytes r.outstanding in
      let slack = r.outstanding - used in
      if ltb 0 slack then release (commit ledger used) slack else commit ledger used

  -- `settle_removal`
  unfoldable pub settle_removal : Ledger → ℕ → Removal → Ledger
  settle_removal ledger outstanding removed = release ledger outstanding
  settle_removal ledger outstanding not_found = release ledger outstanding
  settle_removal ledger outstanding failed = commit ledger outstanding

  -- The settlement of a failed operation, by the filesystem state.
  unfoldable pub settle : Ledger → ReservationState → ℕ → Removal → Ledger
  unfolding settle_removal
  settle ledger vacant outstanding outcome = release ledger outstanding
  settle ledger (temporary _) outstanding outcome = settle_removal ledger outstanding outcome
  settle ledger published outstanding outcome = commit ledger outstanding

  -- `discard`
  unfoldable pub discard : Ledger → Reservation → Removal → Ledger
  unfolding settle
  discard ledger r outcome = settle ledger r.state r.outstanding outcome

  -- `schedule_removal`, and `Drop for PendingSettlement` where shutdown cancels the task.
  unfoldable pub schedule_removal : Ledger → ℕ → Cleanup → Ledger
  unfolding settle_removal
  schedule_removal ledger outstanding no_runtime = commit ledger outstanding
  schedule_removal ledger outstanding cancelled =
      if ltb 0 outstanding then commit ledger outstanding else ledger
  schedule_removal ledger outstanding (ran outcome) = settle_removal ledger outstanding outcome

  unfoldable pub drop_state : Ledger → ReservationState → ℕ → Cleanup → Ledger
  unfolding schedule_removal
  drop_state ledger (temporary _) outstanding cleanup = schedule_removal ledger outstanding cleanup
  drop_state ledger vacant outstanding cleanup =
      if outstanding == 0 then ledger else release ledger outstanding
  drop_state ledger published outstanding cleanup =
      if outstanding == 0 then ledger else commit ledger outstanding

  -- `Drop for Reservation`, where the operation was cancelled.
  unfoldable pub drop_reservation : Ledger → Reservation → Cleanup → Ledger
  unfolding drop_state
  drop_reservation ledger r cleanup = drop_state ledger r.state r.outstanding cleanup

  -- The reservation is part of what the ledger holds, beside `base` bytes of others.
  pub record Holds (base : ℕ) (ledger : Ledger) (r : Reservation) : Type 0 where
    pub valid : reserver.IsValid ledger
    pub holds : reserver.held ledger ≡ base + r.outstanding
