-- ===== src/LocalFiles/Reserver.antt =====
-- src/storage/local/mod.rs: the trait `Reserver`, with the laws that its users rely on, and its
-- implementation by the space ledger of src/cache/space.rs.
use flywheel.Prelude.{ℕ, ◌+◌, ◌-◌, ◌≡◌, ◌≤◌, ◌<◌, Bool, true, false, arith, IsU64, saturating_add}
use flywheel.Space
use flywheel.Space.{SpacePolicy, State}
use flywheel.Space.Accounting.{IsWord}

pub record Reserver : Type 1 where
  pub Ledger : Type 0
  pub try_reserve : Ledger → ℕ → Ledger × Bool
  pub release : Ledger → ℕ → Ledger
  pub commit : Ledger → ℕ → Ledger
  -- The bytes reserved and not settled, the bytes committed, and the states that arise.
  pub held : Ledger → ℕ
  pub spent : Ledger → ℕ
  pub IsValid : Ledger → Type 0
  pub held_word : (l : Ledger) → IsValid l → IsU64 (held l)
  pub admitted :
      (l : Ledger) (bytes : ℕ)
      → IsValid l
      → 0 < bytes
      → (try_reserve l bytes).1 ≡ true
      → (held (try_reserve l bytes).0 ≡ held l + bytes)
        × (spent (try_reserve l bytes).0 ≡ spent l)
        × IsValid (try_reserve l bytes).0
  pub refused :
      (l : Ledger) (bytes : ℕ) → (try_reserve l bytes).1 ≡ false → (try_reserve l bytes).0 ≡ l
  pub released :
      (l : Ledger) (bytes : ℕ)
      → IsValid l
      → bytes ≤ held l
      → (held (release l bytes) ≡ held l - bytes)
        × (spent (release l bytes) ≡ spent l)
        × IsValid (release l bytes)
  pub committed :
      (l : Ledger) (bytes : ℕ)
      → IsValid l
      → bytes ≤ held l
      → (held (commit l bytes) ≡ held l - bytes)
        × (spent (commit l bytes) ≡ saturating_add (spent l) bytes)
        × IsValid (commit l bytes)

module _ (policy : SpacePolicy) where
  pub space_admitted :
      (l : State) (bytes : ℕ)
      → IsWord l
      → 0 < bytes
      → (Space.try_reserve policy l bytes).1 ≡ true
      → ((Space.try_reserve policy l bytes).0.reserved ≡ l.reserved + bytes)
        × ((Space.try_reserve policy l bytes).0.committed_since ≡ l.committed_since)
        × IsWord (Space.try_reserve policy l bytes).0
  unfolding Space.try_reserve
  space_admitted l bytes w pos h = ground arith

  pub space_refused :
      (l : State) (bytes : ℕ)
      → (Space.try_reserve policy l bytes).1 ≡ false
      → (Space.try_reserve policy l bytes).0 ≡ l
  unfolding Space.try_reserve
  space_refused l bytes h = ground arith

pub space_released :
    (l : State) (bytes : ℕ)
    → IsWord l
    → bytes ≤ l.reserved
    → ((Space.release l bytes).reserved ≡ l.reserved - bytes)
      × ((Space.release l bytes).committed_since ≡ l.committed_since)
      × IsWord (Space.release l bytes)
unfolding Space.release
space_released l bytes w h = ground arith

pub space_committed :
    (l : State) (bytes : ℕ)
    → IsWord l
    → bytes ≤ l.reserved
    → ((Space.commit l bytes).reserved ≡ l.reserved - bytes)
      × ((Space.commit l bytes).committed_since ≡ saturating_add l.committed_since bytes)
      × IsWord (Space.commit l bytes)
unfolding Space.commit
space_committed l bytes w h = ground arith

-- `impl Reserver for SpaceLedger`
abbrev pub space_reserver : SpacePolicy → Reserver
space_reserver policy = record {
  Ledger = State;
  try_reserve = Space.try_reserve policy;
  release = Space.release;
  commit = Space.commit;
  held = λ l. l.reserved;
  spent = λ l. l.committed_since;
  IsValid = IsWord;
  held_word = λ l w. w.1;
  admitted = space_admitted policy;
  refused = space_refused policy;
  released = space_released;
  committed = space_committed;
}
