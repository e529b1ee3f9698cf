-- ===== src/Cacheprog/Protocol/Ends.antt =====
-- src/cacheprog/mod.rs: after `close`, the loop ends.
use flywheel.Prelude.{
  ℕ, ◌≡◌, ◌<◌, refl, Bool, true, some, List, [], ◌∷◌, count, remove_one, count-remove_one, arith,
}
use flywheel.Bytes.{codes, bytes_eq}
use flywheel.Cacheprog.Protocol.{
  Request, Written, reply, close_reply, Loop, settle, on_request, on_response,
}

-- The requests complete in the order of the list.
unfoldable pub complete_all : List ℕ → Loop → Loop
unfolding on_response
complete_all [] s = s
complete_all (id ∷ ids) s = complete_all ids (on_response s id)

-- A loop that was told to close.
abbrev closing : ℕ → List ℕ → List Written → Bool → Loop
closing id in_flight written ended = record {
  in_flight = in_flight;
  close_id = some id;
  written = written;
  ended = ended;
}

-- The loop has ended, with the reply to the `close` of this ID as the last thing written.
abbrev pub Ends : ℕ → Loop → Type 0
Ends id s = (s.ended ≡ true) × ((earlier : List Written) × (s.written ≡ close_reply id ∷ earlier))

settle-Ends :
    (id : ℕ) (order in_flight : List ℕ) (written : List Written) (ended : Bool)
    → ((j : ℕ) → count j order ≡ count j in_flight)
    → Ends id (complete_all order (settle (closing id in_flight written ended)))
unfolding complete_all settle
settle-Ends id [] [] written ended c = (refl, (written, refl))
settle-Ends id [] (x ∷ xs) written ended c = absurd (let e = c x in ground arith)
settle-Ends id (i ∷ is) [] written ended c = absurd (let e = c i in ground arith)
settle-Ends id (i ∷ is) (x ∷ xs) written ended c =
    unfold on_response in
    settle-Ends id is (remove_one i (x ∷ xs)) (reply i ∷ written) ended λ j.
      let flies : 0 < count i (x ∷ xs) = let e = c i in ground arith in
      let e = c j in let taken = count-remove_one i j (x ∷ xs) flies in ground (arith, e, taken)

-- Whatever is in flight when `close` comes, and in whichever order it completes: once it has, the
-- loop has ended, and the last thing that it has written is the reply to this `close`.
pub on_request-Ends :
    (s : Loop) (request : Request) (order : List ℕ)
    → bytes_eq request.command (codes "close") ≡ true
    → ((j : ℕ) → count j order ≡ count j s.in_flight)
    → Ends request.id (complete_all order (on_request s request))
unfolding on_request
on_request-Ends s request order close c =
    rw close (settle-Ends request.id order s.in_flight s.written s.ended c)
