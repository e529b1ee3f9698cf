-- ===== src/Cacheprog/Protocol.antt =====
-- src/cacheprog/mod.rs: `ProtocolReader`, which cuts the go command's lines into requests, and the
-- loop of `run_with_shutdown`, as steps on its state.
pub mod Answers
pub mod Ends
use flywheel.Prelude.{
  ℕ, zero, suc, ◌+◌, ◌≡◌, ◌<◌, Bool, true, false, not, ◌&&◌, Option, none, some, List, [], ◌∷◌, all,
  count, remove_one, ltb, ◌==◌, if◌then◌else◌,
}
use flywheel.Bytes.{Bytes, codes, bytes_eq}
use flywheel.Storage.Errors.{Result, ok, err}
use flywheel.Text.{is_space}

-- A request's line, as far as the loop reads it.
pub record Request : Type 0 where
  pub id : ℕ
  pub command : Bytes
  pub body_size : ℕ

pub data ProtocolMessage : Type 0 where
  request : Request → Bytes → ProtocolMessage
  invalid : ProtocolMessage

-- `read_protocol_line`: the next line that is not blank, and the lines after it.
unfoldable pub read_protocol_line : List Bytes → Option (Bytes × List Bytes)
read_protocol_line [] = none
read_protocol_line (line ∷ lines) =
    let rest = read_protocol_line lines in if all is_space line then rest else some (line, lines)

-- `next_message`; the error is a missing body. `parse` is serde_json's.
unfoldable pub next_message :
    (Bytes → Option Request) → List Bytes → Result {0} Unit (Option ProtocolMessage) × List Bytes
unfolding read_protocol_line
next_message parse lines = elim (read_protocol_line lines) [
  | none ↦ (ok none, [])
  | some (line, rest) ↦ elim (parse line) [
    | none ↦ (ok (some invalid), rest)
    | some r ↦ elim (bytes_eq r.command (codes "put") && ltb 0 r.body_size) [
      | false ↦ (ok (some (request r [])), rest)
      | true ↦ elim (read_protocol_line rest) [
        | none ↦ (err tt, [])
        | some (body, rest') ↦ (ok (some (request r body)), rest')
      ]
    ]
  ]
]

-- What the loop writes: an executed request's response, a line's rejection, the reply to `close`.
pub data Written : Type 0 where
  reply : ℕ → Written
  rejection : Written
  close_reply : ℕ → Written

-- The state of the loop: the IDs in flight, the `close`, what was written, the last first.
pub record Loop : Type 0 where
  pub in_flight : List ℕ
  pub close_id : Option ℕ
  pub written : List Written
  pub ended : Bool

abbrev pub start : Loop
start = record { in_flight = []; close_id = none; written = []; ended = false }

-- The check at the top of the loop.
unfoldable pub settle : Loop → Loop
settle s = elim s.close_id [
  | none ↦ s
  | some id ↦ elim s.in_flight [
    | [] ↦ record s { written = close_reply id ∷ s.written; ended = true }
    | _ ∷ _ ↦ s
  ]
]

-- The events: a message of the input, a request that is done, the end of the input or a shutdown.
unfoldable pub on_request : Loop → Request → Loop
unfolding settle
on_request s r =
    if bytes_eq r.command (codes "close")
    then settle (record s { close_id = some r.id })
    else record s { in_flight = r.id ∷ s.in_flight }

unfoldable pub on_invalid : Loop → Loop
on_invalid s = record s { written = rejection ∷ s.written }

unfoldable pub on_response : Loop → ℕ → Loop
unfolding settle remove_one
on_response s id =
    settle (record s { in_flight = remove_one id s.in_flight; written = reply id ∷ s.written })

unfoldable pub on_end : Loop → Loop
on_end s = record s { in_flight = []; ended = true }

-- The IDs to execute of a request.
abbrev pub executed : Request → List ℕ → List ℕ
executed r ids = if bytes_eq r.command (codes "close") then ids else r.id ∷ ids

-- The runs of the loop, with the IDs of the requests that it took up. Input is read only before a
-- `close`, and nothing happens after the end.
pub data Runs : List ℕ → Loop → Type 0 where
  begun : Runs [] start
  took :
      {ids : List ℕ} {s : Loop} (r : Request)
      → s.ended ≡ false
      → s.close_id ≡ none
      → Runs ids s
      → Runs (executed r ids) (on_request s r)
  refused :
      {ids : List ℕ} {s : Loop}
      → s.ended ≡ false
      → s.close_id ≡ none
      → Runs ids s
      → Runs ids (on_invalid s)
  responded :
      {ids : List ℕ} {s : Loop} (id : ℕ)
      → s.ended ≡ false
      → 0 < count id s.in_flight
      → Runs ids s
      → Runs ids (on_response s id)
  stopped : {ids : List ℕ} {s : Loop} → s.ended ≡ false → Runs ids s → Runs ids (on_end s)
