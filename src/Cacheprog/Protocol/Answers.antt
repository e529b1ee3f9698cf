-- ===== src/Cacheprog/Protocol/Answers.antt =====
-- src/cacheprog/mod.rs: every request that the loop takes up is answered before `close` is.
use flywheel.Prelude.{
  ℕ, suc, ◌+◌, ◌≡◌, ap, subst, Bool, false, Option, none, some, List, [], ◌∷◌, count, remove_one,
  count-remove_one, ◌==◌, if◌then◌else◌, arith, Bool-cases, inl, inr,
}
use flywheel.Bytes.{codes, bytes_eq}
use flywheel.Cacheprog.Protocol.{
  Written, reply, rejection, close_reply, Loop, settle, on_request, on_invalid, on_response, on_end,
  Runs, begun, took, refused, responded, stopped,
}

-- The responses written for an ID.
abbrev pub replies : ℕ → List Written → ℕ
replies id [] = 0
replies id (reply other ∷ rest) = if other == id then suc (replies id rest) else replies id rest
replies id (rejection ∷ rest) = replies id rest
replies id (close_reply _ ∷ rest) = replies id rest

-- Every request is in flight or was answered.
abbrev Open : List ℕ → List ℕ → List Written → Type 0
Open ids in_flight written = (j : ℕ) → count j ids ≡ count j in_flight + replies j written

-- If the reply to `close` is written, it is the last, and all was answered before.
abbrev pub Closed : List ℕ → List Written → Type 0
Closed ids (close_reply _ ∷ rest) = (j : ℕ) → count j ids ≡ replies j rest
Closed ids (reply _ ∷ rest) = Unit
Closed ids (rejection ∷ rest) = Unit
Closed ids [] = Unit

abbrev Kept : List ℕ → Loop → Type 0
Kept ids s = (s.ended ≡ false → Open ids s.in_flight s.written) × Closed ids s.written

settle-Kept :
    (ids in_flight : List ℕ) (close_id : Option ℕ) (written : List Written)
    → Open ids in_flight written
    → Closed ids written
    → Kept ids (
        settle
          (record { in_flight = in_flight; close_id = close_id; written = written; ended = false }))
unfolding settle
settle-Kept ids in_flight none written o c = (λ h. o, c)
settle-Kept ids [] (some id) written o c = ((λ h. cc), λ j. omega (arith, o j))
settle-Kept ids (x ∷ xs) (some id) written o c = (λ h. o, c)

ended-settle :
    (s : Loop)
    → s.ended ≡ false
    → s ≡ record {
      in_flight = s.in_flight;
      close_id = s.close_id;
      written = s.written;
      ended = false;
    }
ended-settle s e =
    ap
      (λ b. record {
        in_flight = s.in_flight;
        close_id = s.close_id;
        written = s.written;
        ended = b;
      })
      e

-- A state that has not ended, settled.
settle_running :
    (ids : List ℕ) (s : Loop)
    → s.ended ≡ false
    → Open ids s.in_flight s.written
    → Closed ids s.written
    → Kept ids (settle s)
settle_running ids s e o c =
    rw (ended-settle s e) (settle-Kept ids s.in_flight s.close_id s.written o c)

Closed-reply : (ids : List ℕ) (id : ℕ) (written : List Written) → Closed ids (reply id ∷ written)
Closed-reply ids id written = tt

-- Before the end no reply to `close` is written.
abbrev Before : List Written → Type 0
Before (close_reply _ ∷ rest) = ⊥
Before (reply _ ∷ rest) = Unit
Before (rejection ∷ rest) = Unit
Before [] = Unit

Before-Closed : (ids : List ℕ) (written : List Written) → Before written → Closed ids written
Before-Closed ids [] h = tt
Before-Closed ids (reply _ ∷ rest) h = tt
Before-Closed ids (rejection ∷ rest) h = tt
Before-Closed ids (close_reply _ ∷ rest) h = elim h [ ]

settle-Before :
    (in_flight : List ℕ) (close_id : Option ℕ) (written : List Written) (ended : Bool)
    → Before written
    → let s =
        settle (record {
          in_flight = in_flight;
          close_id = close_id;
          written = written;
          ended = ended;
        }) in
      s.ended ≡ false → Before s.written
unfolding settle
settle-Before in_flight none written ended b e = b
settle-Before [] (some id) written ended b e = cc
settle-Before (x ∷ xs) (some id) written ended b e = b

Runs-Before : {ids : List ℕ} {s : Loop} → Runs ids s → s.ended ≡ false → Before s.written
unfolding on_request on_invalid on_response on_end
Runs-Before begun e = tt
Runs-Before (took {ids} {s} r running open_input run) e =
    elim (Bool-cases (bytes_eq r.command (codes "close"))) [
      | inr other ↦ rw other (Runs-Before run running)
      | inl close ↦
          let e' = rw close at e in
          rw close
            (settle-Before s.in_flight (some r.id) s.written s.ended (Runs-Before run running) e')
    ]
Runs-Before (refused {ids} {s} running open_input run) e = tt
Runs-Before (responded {ids} {s} id running flies run) e =
    settle-Before (remove_one id s.in_flight) s.close_id (reply id ∷ s.written) s.ended tt e
Runs-Before (stopped running run) e = cc

-- A run of the loop, on its books.
Runs-Kept : {ids : List ℕ} {s : Loop} → Runs ids s → Kept ids s
unfolding on_request on_invalid on_response on_end
Runs-Kept begun = ((λ e j. omega arith), tt)
Runs-Kept (took {ids} {s} r running open_input run) =
    let kept = Runs-Kept run in
    let before = Before-Closed ids s.written (Runs-Before run running) in
    elim (Bool-cases (bytes_eq r.command (codes "close"))) [
      | inl close ↦
          rw close
            (settle_running ids (record s { close_id = some r.id }) running (kept.0 running) before)
      | inr other ↦ rw other (
        (λ e j. let o = kept.0 running j in ground (arith, o)),
        Before-Closed (r.id ∷ ids) s.written (Runs-Before run running),
      )
    ]
Runs-Kept (refused {ids} {s} running open_input run) = (λ e. (Runs-Kept run).0 running, tt)
Runs-Kept (responded {ids} {s} id running flies run) =
    let kept = Runs-Kept run in
    settle_running ids
      (record s { in_flight = remove_one id s.in_flight; written = reply id ∷ s.written }) running
      (λ j.
        let o = kept.0 running j in
        let c = count-remove_one id j s.in_flight flies in ground (arith, o, c))
      tt
Runs-Kept (stopped {ids} {s} running run) =
    ((λ e. cc), Before-Closed ids s.written (Runs-Before run running))

-- In every run of the loop, however input and completions interleave: when the reply to `close` is
-- written, every request that was taken up has been answered exactly as often as it was taken up,
-- and nothing was answered that was not taken up.
pub Runs-Closed :
    {ids : List ℕ} {s : Loop} (id : ℕ) (rest : List Written)
    → Runs ids s
    → s.written ≡ close_reply id ∷ rest
    → (j : ℕ) → count j ids ≡ replies j rest
Runs-Closed {ids} {s} id rest run e j = subst (Closed ids) e (Runs-Kept run).1 j
