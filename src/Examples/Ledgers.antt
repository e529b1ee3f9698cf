-- ===== src/Examples/Ledgers.antt =====
-- A small ledger, a small filter, and one staged body.
use flywheel.Prelude.{ℕ, ◌≡◌, ◌+◌, ◌*◌, ◌/◌, refl, arith, true, false, [], ◌∷◌}
use flywheel.Space.{SpacePolicy, State, reserves, commits, asks_mode}
use flywheel.Space.Accounting.{IsWord, Covers, run, run-Covers}
use flywheel.RecentUse
use flywheel.RecentUse.{RecentUse, positions, probe_position, mark, seen, rotate}
use flywheel.RecentUse.Marks.{
  IsFormed, marks, rotates, probes_differ, new-IsFormed, seen-run-mark, seen-rotate-rotate,
}
use flywheel.LocalFiles.Reserver.{Reserver, space_reserver}
use flywheel.LocalFiles.Reservation.{Reservation, temporary, cancelled, Holds, drop_reservation}
use flywheel.LocalFiles.Settlement.{Settled, drop_reservation-Settled}

abbrev policy : SpacePolicy
policy = record { low_watermark = 10; high_watermark = 20; emergency_headroom = 5 }

abbrev ledger : State
ledger = record {
  free_observed = 100;
  reserved = 8;
  committed_since = 2;
  degraded = false;
  is_reclaiming = false;
}

abbrev blind : State
blind = record {
  free_observed = 100;
  reserved = 8;
  committed_since = 2;
  degraded = true;
  is_reclaiming = false;
}

ledger-IsWord : IsWord ledger
ledger-IsWord = (omega arith, omega arith, omega arith)

run-Covers_example : Covers policy (run policy ledger (commits 3 ∷ reserves 60 ∷ asks_mode ∷ []))
run-Covers_example =
    run-Covers policy ledger (commits 3 ∷ reserves 60 ∷ asks_mode ∷ []) ledger-IsWord (omega arith)
      (omega arith, (tt, (tt, tt)))

abbrev hash : ℕ → ℕ → ℕ
hash c a = c * 31 + a

abbrev filters : RecentUse
filters = RecentUse.new 100

seen-run-mark_example :
    seen hash
      (flywheel.RecentUse.Marks.run hash (mark hash filters 1 2) (rotates ∷ marks 3 4 ∷ []))
      1
      2
    ≡ true
seen-run-mark_example =
    seen-run-mark hash ((100 + 63) / 64) filters 1 2 (rotates ∷ marks 3 4 ∷ [])
      (new-IsFormed 100 (omega arith)).0 (omega arith)

abbrev reserver : Reserver
reserver = space_reserver policy

abbrev held : Reservation
held = record { outstanding = 6; state = temporary (1 ∷ []) }

held-Holds : Holds reserver 2 ledger held
held-Holds = record { valid = ledger-IsWord; holds = refl }

drop_reservation-Settled_example :
    Settled reserver 2 (drop_reservation reserver ledger held cancelled)
drop_reservation-Settled_example =
    drop_reservation-Settled reserver 2 ledger held cancelled held-Holds
