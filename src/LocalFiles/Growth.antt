-- ===== src/LocalFiles/Growth.antt =====
-- src/storage/local/artifact_files.rs: the growth of a reservation while a body streams in.
use flywheel.Prelude.{
  ℕ, zero, suc, ◌+◌, ◌≡◌, ◌≤◌, ◌<◌, refl, sym, ap, subst, ◌∙◌, inl, inr, false, arith, List, [],
  ◌∷◌, ◌++◌, length, length-append, ltb, Bool-cases, u64_max,
}
use mathlib.Core.List.{append_assoc, append-nil}
use flywheel.Bytes.{Bytes}
use flywheel.Storage.Errors.{Result, ok, err}
use flywheel.LocalFiles.Reserver.{Reserver}
use flywheel.LocalFiles.Reservation.{Reservation, ReservationState, Holds}
use flywheel.LocalFiles.Settlement.{reserve-Holds}
use flywheel.LocalFiles.Stage.{
  Io, Item, chunk, broken, Stop, failed_with, out_of_fuel, Received, Step, ◌>>?◌, call, demand,
  extend, receive, receive_all,
}

-- A result that is `P` where there is one, and that never lacks fuel.
abbrev pub Meets : {A : Type 0} → (A → Type 0) → Result Stop A → Type 0
Meets P (ok a) = P a
Meets P (err (failed_with error)) = Unit
Meets P (err out_of_fuel) = ⊥

abbrev pub content : Item → Bytes
content (chunk bytes _) = bytes
content (broken _) = []

-- The chunks of the stream, joined.
abbrev pub joined : List Item → Bytes
joined [] = []
joined (item ∷ items) = content item ++ joined items

module _ (reserver : Reserver) (extent max_bytes : ℕ) (positive : 0 < extent) where
  open reserver use {Ledger}

  -- The ledger still holds the reservation beside the bytes of others, and the result is `P`.
  abbrev pub Kept :
      {A : Type 0} → ℕ → (Reservation → A → Type 0) → Step reserver extent max_bytes A → Type 0
  Kept base P (ledger, r, result) = Holds reserver base ledger r × Meets (P r) result

  pub bind-Kept :
      {A B : Type 0} (P : Reservation → A → Type 0) (Q : Reservation → B → Type 0) (base : ℕ)
      (step : Step reserver extent max_bytes A)
      (f : Ledger → Reservation → A → Step reserver extent max_bytes B)
      → Kept base P step
      → ((ledger : Ledger) (r : Reservation) (a : A)
          → Holds reserver base ledger r
          → P r a
          → Kept base Q (f ledger r a))
      → Kept base Q (◌>>?◌ reserver extent max_bytes step f)
  unfolding ◌>>?◌
  bind-Kept P Q base (ledger, r, ok a) f (v, p) next = next ledger r a v p
  bind-Kept P Q base (ledger, r, err (failed_with error)) f (v, m) next = (v, tt)
  bind-Kept P Q base (ledger, r, err out_of_fuel) f (v, m) next = (v, m)

  pub weaken-Kept :
      {A : Type 0} (P Q : Reservation → A → Type 0) (base : ℕ)
      (step : Step reserver extent max_bytes A)
      → Kept base P step
      → ((r : Reservation) (a : A) → P r a → Q r a)
      → Kept base Q step
  weaken-Kept P Q base (ledger, r, ok a) (v, p) f = (v, f r a p)
  weaken-Kept P Q base (ledger, r, err (failed_with error)) (v, m) f = (v, tt)
  weaken-Kept P Q base (ledger, r, err out_of_fuel) (v, m) f = (v, m)

  pub call-Kept :
      {A : Type 0} (P : Reservation → A → Type 0) (base : ℕ) (outcome : Io A) (ledger : Ledger)
      (r : Reservation)
      → Holds reserver base ledger r
      → ((a : A) → P r a)
      → Kept base P (call reserver extent max_bytes outcome ledger r)
  unfolding call
  call-Kept P base (ok a) ledger r v p = (v, p a)
  call-Kept P base (err message) ledger r v p = (v, tt)

  -- The reservation `r`, with more bytes.
  abbrev pub Grown : {A : Type 0} → Reservation → ℕ → Reservation → A → Type 0
  Grown r bytes r' _ = (r'.outstanding ≡ r.outstanding + bytes) × (r'.state ≡ r.state)

  pub demand-Kept :
      (base : ℕ) (ledger : Ledger) (r : Reservation) (bytes : ℕ)
      → Holds reserver base ledger r
      → Kept base (Grown r bytes) (demand reserver extent max_bytes ledger r bytes)
  unfolding demand
  demand-Kept base ledger r bytes v = elim (reserve-Holds reserver base ledger r bytes v) [
    | inl (granted, v', more, same, _) ↦ rw (demand, granted) (v', (more, same))
    | inr (refused, unmoved, unchanged) ↦ rw (demand, refused, unmoved, unchanged) (v, tt)
  ]

  -- The reservation covers `len` bytes, in the filesystem state `state`.
  abbrev pub Reaches : {A : Type 0} → ℕ → ReservationState → Reservation → A → Type 0
  Reaches len state r _ = (len ≤ r.outstanding) × (r.state ≡ state)

  pub extend-Kept :
      (base fuel : ℕ) (state : ReservationState) (ledger : Ledger) (r : Reservation) (len : ℕ)
      → Holds reserver base ledger r
      → r.state ≡ state
      → len ≤ fuel + r.outstanding
      → Kept base (Reaches len state) (extend reserver extent max_bytes fuel ledger r len)
  unfolding extend
  extend-Kept base zero state ledger r len v same enough =
      let covered : ltb r.outstanding len ≡ false = ground arith in
      rw covered (v, (ground arith, same))
  extend-Kept base (suc fuel) state ledger r len v same enough =
      elim (Bool-cases (ltb r.outstanding len)) [
        | inr covered ↦ rw (covered, extend) (v, (ground arith, same))
        | inl short ↦
            rw (short, extend)
              (bind-Kept (Grown r extent) (Reaches len state) base
                (demand reserver extent max_bytes ledger r extent) _
                (demand-Kept base ledger r extent v)
                λ ledger' r' _ v' (more, kept).
                  extend-Kept base fuel state ledger' r' len v' (kept ∙ same)
                    (omega (arith, more, enough, positive)))
      ]

  -- The bytes so far fit the limit and the reservation, and were received after `before`.
  abbrev pub Covered : ReservationState → Bytes → Bytes → Reservation → Received → Type 0
  Covered state before more r (len, body) =
      (len ≤ max_bytes)
      × (len ≤ r.outstanding)
      × (len ≡ length body)
      × (body ≡ before ++ more)
      × (r.state ≡ state)

  pub receive-Kept :
      (base : ℕ) (state : ReservationState) (ledger : Ledger) (r : Reservation) (so_far : Received)
      (item : Item)
      → Holds reserver base ledger r
      → so_far.0 ≡ length so_far.1
      → r.state ≡ state
      → Kept base
          (Covered state so_far.1 (content item))
          (receive reserver extent max_bytes ledger r so_far item)
  unfolding receive
  receive-Kept base state ledger r so_far (broken message) v e same = (v, tt)
  receive-Kept base state ledger r (len, body) (chunk bytes wrote) v e same =
      elim (Bool-cases (ltb u64_max (len + length bytes))) [
        | inl overflow ↦ rw overflow (v, tt)
        | inr fits ↦ elim (Bool-cases (ltb max_bytes (len + length bytes))) [
          | inl large ↦ rw (fits, large) (v, tt)
          | inr allowed ↦
              let grown =
                extend-Kept base (len + length bytes) state ledger r (len + length bytes) v same
                  (omega arith) in
              let written =
                bind-Kept (Reaches (len + length bytes) state) (Reaches (len + length bytes) state)
                  base _ (λ ledger' r' _. call reserver extent max_bytes wrote ledger' r') grown
                  λ ledger' r' _ v' m.
                    call-Kept (Reaches (len + length bytes) state) base wrote ledger' r' v'
                      (λ _. m) in
              rw (fits, allowed)
                (bind-Kept (Reaches (len + length bytes) state) (Covered state body bytes) base _ _
                  written
                  λ ledger' r' _ v' (covers, kept). (
                    v',
                    (ground arith, covers, omega (arith, e, length-append body bytes), refl, kept),
                  ))
        ]
      ]

  pub receive_all-Kept :
      (base : ℕ) (state : ReservationState) (ledger : Ledger) (r : Reservation) (so_far : Received)
      (items : List Item)
      → Holds reserver base ledger r
      → Covered state so_far.1 [] r so_far
      → Kept base
          (Covered state so_far.1 (joined items))
          (receive_all reserver extent max_bytes ledger r so_far items)
  unfolding receive_all
  receive_all-Kept base state ledger r so_far [] v covered = (v, covered)
  receive_all-Kept base state ledger r so_far (item ∷ items) v (_, _, e, _, same) =
      bind-Kept (Covered state so_far.1 (content item))
        (Covered state so_far.1 (joined (item ∷ items))) base _
        (λ ledger' r' so_far'. receive_all reserver extent max_bytes ledger' r' so_far' items)
        (receive-Kept base state ledger r so_far item v e same)
        λ ledger' r' so_far' v' (fits, covers, e', now, kept).
          subst
            (λ bytes.
              Kept base
                (λ r'' (len, body).
                  (len ≤ max_bytes)
                  × (len ≤ r''.outstanding)
                  × (len ≡ length body)
                  × (body ≡ bytes)
                  × (r''.state ≡ state))
                (receive_all reserver extent max_bytes ledger' r' so_far' items))
            (ap (λ bytes. bytes ++ joined items) now
              ∙ append_assoc so_far.1 (content item) (joined items))
            (receive_all-Kept base state ledger' r' so_far' items v'
              (fits, covers, e', sym (append-nil so_far'.1), kept))
