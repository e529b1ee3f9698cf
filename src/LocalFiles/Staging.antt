-- ===== src/LocalFiles/Staging.antt =====
-- src/storage/local/artifact_files.rs: staging, its fuel and the account of its reservation.
use flywheel.Prelude.{
  ℕ, ◌-◌, ◌≡◌, ◌≤◌, ◌<◌, refl, ap, ◌∙◌, inl, inr, arith, Option, List, [], length, ltb, Bool-cases,
}
use flywheel.Bytes.{Bytes}
use flywheel.Storage.Ids.{StoredEncoding, Durability}
use flywheel.Storage.Errors.{Result, ok, err}
use flywheel.LocalFiles.Reserver.{Reserver}
use flywheel.LocalFiles.Reservation
use flywheel.LocalFiles.Reservation.{
  Reservation, ReservationState, temporary, vacant, mark, reserve, Holds,
}
use flywheel.LocalFiles.Settlement.{reserve-Holds, Settled, discard-Settled}
use flywheel.LocalFiles.Stage.{
  Item, Filesystem, Stop, failed_with, out_of_fuel, StageOutcome, ready, rejected, Received, Step,
  stored_size, cover, sync, finish, stage_reserved, staged, initial, stage,
}
use flywheel.LocalFiles.Growth.{
  joined, Kept, bind-Kept, weaken-Kept, call-Kept, demand-Kept, receive_all-Kept, Grown, Reaches,
  Covered,
}

module _ (reserver : Reserver) (extent max_bytes : ℕ) (positive : 0 < extent) where
  open reserver use {Ledger}

  cover-Kept :
      (base : ℕ) (state : ReservationState) (ledger : Ledger) (r : Reservation) (stored_len : ℕ)
      → Holds reserver base ledger r
      → r.state ≡ state
      → Kept reserver extent max_bytes positive base
          (Reaches reserver extent max_bytes positive stored_len state)
          (cover reserver extent max_bytes ledger r stored_len)
  unfolding cover
  cover-Kept base state ledger r stored_len v same =
      elim (Bool-cases (ltb r.outstanding stored_len)) [
        | inr covered ↦ rw covered (v, (ground arith, same))
        | inl short ↦ rw short (
            weaken-Kept reserver extent max_bytes positive
              (Grown reserver extent max_bytes positive r (stored_len - r.outstanding))
              (Reaches reserver extent max_bytes positive stored_len state) base _
              (demand-Kept reserver extent max_bytes positive base ledger r
                (stored_len - r.outstanding) v)
              λ r' _ (more, kept). (ground (arith, more), kept ∙ same))
      ]

  -- What a finished staging has: the received bytes, within the limit, and a reservation that
  -- covers the stored size.
  abbrev Complete : ReservationState → Bytes → Reservation → Received × ℕ → Type 0
  Complete state whole r ((len, body), stored_len) =
      (stored_len ≤ r.outstanding)
      × (len ≤ max_bytes)
      × (len ≡ length body)
      × (body ≡ whole)
      × (r.state ≡ state)

  abbrev InState : {A : Type 0} → ReservationState → Reservation → A → Type 0
  InState state r _ = r.state ≡ state

  finish-Kept :
      (base : ℕ) (state : ReservationState) (whole : Bytes) (fs : Filesystem)
      (durability : Durability) (encoding : StoredEncoding) (ledger : Ledger) (r : Reservation)
      (so_far : Received)
      → Holds reserver base ledger r
      → Covered reserver extent max_bytes positive state [] whole r so_far
      → Kept reserver extent max_bytes positive base
          (Complete state whole)
          (finish reserver extent max_bytes fs durability encoding ledger r so_far)
  unfolding finish
  finish-Kept base state whole fs durability encoding ledger r so_far v
        (fits, _, e, is_whole, same) =
      bind-Kept reserver extent max_bytes positive (InState state) (Complete state whole) base _ _
        (bind-Kept reserver extent max_bytes positive (InState state) (InState state) base _ _
          (call-Kept reserver extent max_bytes positive (InState state) base fs.finish ledger r v
            (λ _. same))
          λ ledger' r' _ v' kept.
            call-Kept reserver extent max_bytes positive (InState state) base
              (stored_size fs encoding so_far.0) ledger' r' v' (λ _. kept))
        λ ledger' r' stored_len v' kept.
          bind-Kept reserver extent max_bytes positive
            (Reaches reserver extent max_bytes positive stored_len state) (Complete state whole)
            base _ _
            (bind-Kept reserver extent max_bytes positive
              (Reaches reserver extent max_bytes positive stored_len state)
              (Reaches reserver extent max_bytes positive stored_len state) base _ _
              (cover-Kept base state ledger' r' stored_len v' kept)
              λ ledger' r' _ v' m.
                call-Kept reserver extent max_bytes positive
                  (Reaches reserver extent max_bytes positive stored_len state) base
                  (sync durability fs.sync_all) ledger' r' v' (λ _. m))
            λ ledger' r' _ v' (covers, kept). (v', (covers, fits, e, is_whole, kept))

  stage_reserved-Kept :
      (base : ℕ) (fs : Filesystem) (durability : Durability) (encoding : StoredEncoding)
      (items : List Item) (ledger : Ledger) (r : Reservation)
      → Holds reserver base ledger r
      → Kept reserver extent max_bytes positive base
          (Complete (temporary fs.path) (joined items))
          (stage_reserved reserver extent max_bytes fs durability encoding items ledger r)
  unfolding stage_reserved mark
  stage_reserved-Kept base fs durability encoding items ledger r v =
      let armed = temporary fs.path in
      bind-Kept reserver extent max_bytes positive
        (Covered reserver extent max_bytes positive armed [] (joined items))
        (Complete armed (joined items)) base _ _
        (bind-Kept reserver extent max_bytes positive (InState armed)
          (Covered reserver extent max_bytes positive armed [] (joined items)) base _ _
          (bind-Kept reserver extent max_bytes positive (λ _ _. Unit) (InState armed) base _ _
            (call-Kept reserver extent max_bytes positive (λ _ _. Unit) base fs.create_dir ledger r
              v (λ _. tt))
            λ ledger' r' _ v' _.
              call-Kept reserver extent max_bytes positive (InState armed) base fs.open_file ledger'
                (mark r' armed) record { valid = v'.valid; holds = v'.holds } (λ _. refl))
          λ ledger' r' _ v' kept.
            receive_all-Kept reserver extent max_bytes positive base armed ledger' r' (0, []) items
              v' (omega arith, omega arith, refl, refl, kept))
        λ ledger' r' so_far v' covered.
          finish-Kept base armed (joined items) fs durability encoding ledger' r' so_far v' covered

  module _ (sha256 : Bytes → Bytes) where
    -- The account of a staging: a staged artifact is the stream's bytes, and the ledger holds a
    -- reservation that covers its file; a rejected stream is intact, and so is the ledger; an error
    -- leaves nothing on the ledger.
    abbrev pub Accounted : ℕ → Ledger → List Item → Ledger → Result Stop StageOutcome → Type 0
    Accounted base before items ledger (ok (ready a)) =
        Holds reserver base ledger a.reservation
        × (a.stored_len ≤ a.reservation.outstanding)
        × (a.len ≤ max_bytes)
        × (a.len ≡ length (joined items))
        × (a.digest ≡ sha256 (joined items))
        × (a.reservation.state ≡ temporary a.path)
    Accounted base before items ledger (ok (rejected rest)) = (ledger ≡ before) × (rest ≡ items)
    Accounted base before items ledger (err (failed_with error)) = Settled reserver base ledger
    Accounted base before items ledger (err out_of_fuel) = ⊥

    staged-Accounted :
        (base : ℕ) (before : Ledger) (fs : Filesystem) (encoding : StoredEncoding)
        (items : List Item) (step : Step reserver extent max_bytes (Received × ℕ))
        → Kept reserver extent max_bytes positive base
            (Complete (temporary fs.path) (joined items))
            step
        → let (ledger, outcome) = staged reserver extent max_bytes sha256 fs encoding step in
          Accounted base before items ledger outcome
    unfolding staged
    staged-Accounted base before fs encoding items (ledger, r, ok ((len, body), stored_len))
          (v, (covers, fits, e, whole, kept)) =
        (v, covers, fits, e ∙ ap length whole, ap sha256 whole, kept)
    staged-Accounted base before fs encoding items (ledger, r, err (failed_with error)) (v, m) =
        discard-Settled reserver base ledger r fs.remove_file v
    staged-Accounted base before fs encoding items (ledger, r, err out_of_fuel) (v, m) = m

    -- With an extent of at least one byte, staging ends within the model's fuel. A staged artifact
    -- has the digest and the length of the stream's joined chunks, at most the limit, and the
    -- ledger holds a reservation of its temporary file that covers the stored size. A rejected
    -- stream is handed back whole, with the ledger as it was. An error leaves only the bytes of
    -- others on the ledger.
    pub stage-Accounted :
        (base : ℕ) (fs : Filesystem) (durability : Durability) (encoding : StoredEncoding)
        (content_length : Option ℕ) (items : List Item) (ledger : Ledger)
        → Settled reserver base ledger
        → let (ledger', outcome) =
            stage reserver extent max_bytes sha256 fs durability encoding content_length items
              ledger in
          Accounted base ledger items ledger' outcome
    unfolding stage Reservation.new
    stage-Accounted base fs durability encoding content_length items ledger (held, valid) =
        let nothing : Holds reserver base ledger Reservation.new = record {
          valid = valid;
          holds = ground (arith, held);
        } in
        elim (reserve-Holds reserver base ledger Reservation.new
          (initial reserver extent max_bytes content_length) nothing) [
            | inl (granted, v, _, _, _) ↦
                rw (stage, granted)
                  (staged-Accounted base ledger fs encoding items _
                    (stage_reserved-Kept base fs durability encoding items _ _ v))
            | inr (refused, unmoved, _) ↦ rw (stage, refused) (unmoved, refl)
          ]
