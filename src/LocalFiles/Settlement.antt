-- ===== src/LocalFiles/Settlement.antt =====
-- src/storage/local/artifact_files.rs: the ways to settle a reservation, and the ledger.
use flywheel.Prelude.{
  ℕ, ◌+◌, ◌-◌, ◌≡◌, refl, ◌∙◌, ◌⊎◌, inl, inr, true, false, arith, ltb, ◌==◌, Bool-cases, min,
  saturating_add,
}
use flywheel.LocalFiles.Reserver.{Reserver}
use flywheel.LocalFiles.Reservation.{
  Reservation, ReservationState, vacant, temporary, published, Removal, removed, not_found, failed,
  Cleanup, no_runtime, cancelled, ran, reserve, commit_bytes, settle_removal, settle, discard,
  drop_state, drop_reservation, Holds,
}

module _ (reserver : Reserver) where
  open reserver use {Ledger, IsValid, held, spent, try_reserve, release, commit}

  -- An admitted reservation grows by the bytes; a refused one changes nothing.
  pub reserve-Holds :
      (base : ℕ) (ledger : Ledger) (r : Reservation) (bytes : ℕ)
      → Holds reserver base ledger r
      → let (ledger', r', granted) = reserve reserver ledger r bytes in
        ((granted ≡ true)
          × Holds reserver base ledger' r'
          × (r'.outstanding ≡ r.outstanding + bytes)
          × (r'.state ≡ r.state)
          × (spent ledger' ≡ spent ledger))
        ⊎ ((granted ≡ false) × (ledger' ≡ ledger) × (r' ≡ r))
  unfolding reserve
  reserve-Holds base ledger r bytes v = elim (Bool-cases (bytes == 0)) [
    | inl zero_bytes ↦
        let word = reserver.held_word ledger v.valid in
        rw zero_bytes (
          inl (
            refl,
            record { valid = v.valid; holds = ground (arith, word, v.holds) },
            ground (arith, word, v.holds),
            refl,
            refl,
          ))
    | inr some_bytes ↦ elim (Bool-cases (try_reserve ledger bytes).1) [
      | inl yes_ ↦
          let (grows, same, valid) = reserver.admitted ledger bytes v.valid (ground arith) yes_ in
          let word = reserver.held_word (try_reserve ledger bytes).0 valid in
          rw (some_bytes, yes_)
            (inl (
              refl,
              record { valid = valid; holds = ground (arith, word, grows, v.holds) },
              ground (arith, word, grows, v.holds),
              refl,
              same,
            ))
      | inr no_ ↦ rw (some_bytes, no_) (inr (refl, reserver.refused ledger bytes no_, refl))
    ]
  ]

  -- The ledger holds the bytes of others only.
  abbrev pub Settled : ℕ → Ledger → Type 0
  Settled base ledger = (held ledger ≡ base) × IsValid ledger

  release-Settled :
      (base : ℕ) (ledger : Ledger) (n : ℕ)
      → IsValid ledger
      → held ledger ≡ base + n
      → Settled base (release ledger n)
  release-Settled base ledger n v e =
      let (less, _, valid) = reserver.released ledger n v (omega arith) in (omega arith, valid)

  commit-Settled :
      (base : ℕ) (ledger : Ledger) (n : ℕ)
      → IsValid ledger
      → held ledger ≡ base + n
      → Settled base (commit ledger n)
  commit-Settled base ledger n v e =
      let (less, _, valid) = reserver.committed ledger n v (omega arith) in (omega arith, valid)

  settle_removal-Settled :
      (base : ℕ) (ledger : Ledger) (n : ℕ) (outcome : Removal)
      → IsValid ledger
      → held ledger ≡ base + n
      → Settled base (settle_removal reserver ledger n outcome)
  unfolding settle_removal
  settle_removal-Settled base ledger n removed v e = release-Settled base ledger n v e
  settle_removal-Settled base ledger n not_found v e = release-Settled base ledger n v e
  settle_removal-Settled base ledger n failed v e = commit-Settled base ledger n v e

  settle-Settled :
      (base : ℕ) (ledger : Ledger) (state : ReservationState) (n : ℕ) (outcome : Removal)
      → IsValid ledger
      → held ledger ≡ base + n
      → Settled base (settle reserver ledger state n outcome)
  unfolding settle
  settle-Settled base ledger vacant n outcome v e = release-Settled base ledger n v e
  settle-Settled base ledger (temporary _) n outcome v e =
      settle_removal-Settled base ledger n outcome v e
  settle-Settled base ledger published n outcome v e = commit-Settled base ledger n v e

  -- A discarded reservation is off the ledger, however the removal of its file ends.
  pub discard-Settled :
      (base : ℕ) (ledger : Ledger) (r : Reservation) (outcome : Removal)
      → Holds reserver base ledger r
      → Settled base (discard reserver ledger r outcome)
  unfolding discard
  discard-Settled base ledger r outcome v =
      settle-Settled base ledger r.state r.outstanding outcome v.valid v.holds

  empty-Settled :
      (base : ℕ) (ledger : Ledger) (n : ℕ)
      → n ≡ 0
      → IsValid ledger
      → held ledger ≡ base + n
      → Settled base ledger
  empty-Settled base ledger n z v e = (omega arith, v)

  drop_state-Settled :
      (base : ℕ) (ledger : Ledger) (state : ReservationState) (n : ℕ) (cleanup : Cleanup)
      → IsValid ledger
      → held ledger ≡ base + n
      → Settled base (drop_state reserver ledger state n cleanup)
  unfolding drop_state
  drop_state-Settled base ledger vacant n cleanup v e = elim (Bool-cases (n == 0)) [
    | inl z ↦ rw z (empty-Settled base ledger n (ground arith) v e)
    | inr p ↦ rw p (release-Settled base ledger n v e)
  ]
  drop_state-Settled base ledger published n cleanup v e = elim (Bool-cases (n == 0)) [
    | inl z ↦ rw z (empty-Settled base ledger n (ground arith) v e)
    | inr p ↦ rw p (commit-Settled base ledger n v e)
  ]
  drop_state-Settled base ledger (temporary _) n no_runtime v e = commit-Settled base ledger n v e
  drop_state-Settled base ledger (temporary _) n (ran outcome) v e =
      settle_removal-Settled base ledger n outcome v e
  drop_state-Settled base ledger (temporary _) n cancelled v e = elim (Bool-cases (ltb 0 n)) [
    | inl p ↦ rw p (commit-Settled base ledger n v e)
    | inr z ↦ rw z (empty-Settled base ledger n (ground arith) v e)
  ]

  -- A reservation that the ledger holds, dropped by a cancelled operation, is taken off the ledger
  -- exactly once, in every filesystem state and however the asynchronous cleanup ends.
  pub drop_reservation-Settled :
      (base : ℕ) (ledger : Ledger) (r : Reservation) (cleanup : Cleanup)
      → Holds reserver base ledger r
      → Settled base (drop_reservation reserver ledger r cleanup)
  unfolding drop_reservation
  drop_reservation-Settled base ledger r cleanup v =
      drop_state-Settled base ledger r.state r.outstanding cleanup v.valid v.holds

  -- A reservation that the ledger holds is off it after a commit, and of its bytes as many as are
  -- asked for count as spent.
  pub commit_bytes-Settled :
      (base : ℕ) (ledger : Ledger) (r : Reservation) (bytes : ℕ)
      → Holds reserver base ledger r
      → Settled base (commit_bytes reserver ledger r bytes)
        × (spent (commit_bytes reserver ledger r bytes)
            ≡ saturating_add (spent ledger) (min bytes r.outstanding))
  unfolding commit_bytes
  commit_bytes-Settled base ledger r bytes v =
      let used = min bytes r.outstanding in
      let slack = r.outstanding - used in
      let whole = v.holds in
      let (less, more, valid) = reserver.committed ledger used v.valid (omega arith) in
      elim (Bool-cases (ltb 0 slack)) [
        | inl p ↦
            let (rest, same, valid') =
              reserver.released (commit ledger used) slack valid (omega arith) in
            rw p ((omega arith, valid'), same ∙ more)
        | inr z ↦ rw z ((ground arith, valid), more)
      ]
