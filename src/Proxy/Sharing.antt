-- ===== src/Proxy/Sharing.antt =====
-- src/proxy/mod.rs: the requests for one key share one lock, and when its entry goes.
use flywheel.Prelude.{
  count, remove_one, ℕ, ◌+◌, ◌≡◌, ◌<◌, ◌↔◌, refl, sym, ap, subst, Option, none, some, List, [], ◌∷◌,
  All, length, leb, ◌==◌, arith, Bool-cases, inl, inr,
}
use flywheel.Proxy.Flights.{
  Flights, arrive, strong_count, remove_if_last, drop_flight, drop_clone, Reached, begun, arrived,
  landed, left,
}

-- All active requests hold the map's lock.
abbrev pub Shared : Option ℕ → List ℕ → Type 0
Shared none active = active ≡ []
Shared (some lock) active = All (λ other. other ≡ lock) active

count-same : (lock : ℕ) (xs : List ℕ) → All (λ other. other ≡ lock) xs → count lock xs ≡ length xs
count-same lock [] h = refl
count-same lock (x ∷ xs) h = ground (arith, count-same lock xs h.1)

remove_one-All :
    (lock other : ℕ) (xs : List ℕ)
    → All (λ x. x ≡ other) xs
    → All (λ x. x ≡ other) (remove_one lock xs)
unfolding remove_one
remove_one-All lock other [] h = tt
remove_one-All lock other (x ∷ xs) h = elim (Bool-cases (x == lock)) [
  | inl e ↦ rw e h.1
  | inr e ↦ rw e (h.0, remove_one-All lock other xs h.1)
]

length-remove_one :
    (lock : ℕ) (xs : List ℕ) → 0 < count lock xs → length (remove_one lock xs) + 1 ≡ length xs
unfolding remove_one
length-remove_one lock [] h = absurd (omega arith)
length-remove_one lock (x ∷ xs) h = ground (arith, length-remove_one lock xs)

empty : (xs : List ℕ) → length xs ≡ 0 → xs ≡ []
empty [] h = refl
empty (x ∷ xs) h = absurd (omega arith)

abbrev flights : Option ℕ → List ℕ → List ℕ → ℕ → Flights
flights entry active leaving next = record {
  entry = entry;
  active = active;
  leaving = leaving;
  next = next;
}

arrive-Shared :
    (entry : Option ℕ) (active leaving : List ℕ) (next : ℕ)
    → Shared entry active
    → let f = arrive (flights entry active leaving next) in Shared f.entry f.active
unfolding arrive
arrive-Shared none active leaving next h = (refl, subst (All (λ x. x ≡ next)) (sym h) tt)
arrive-Shared (some lock) active leaving next h = (refl, h)

-- A held lock that all hold is the one.
held-eq :
    (lock other : ℕ) (xs : List ℕ) → 0 < count lock xs → All (λ x. x ≡ other) xs → lock ≡ other
held-eq lock other [] h k = absurd (omega arith)
held-eq lock other (x ∷ xs) h k = ground (arith, held-eq lock other xs)

drop_flight-Shared :
    (entry : Option ℕ) (active leaving : List ℕ) (next lock : ℕ)
    → 0 < count lock active
    → Shared entry active
    → let f = drop_flight (flights entry active leaving next) lock in Shared f.entry f.active
unfolding drop_flight remove_if_last strong_count
drop_flight-Shared none active leaving next lock h s =
    absurd (let e : count lock active ≡ 0 = ap (count lock) s in omega arith)
drop_flight-Shared (some e) active leaving next lock h s =
    elim (Bool-cases (leb (1 + (count e active + count e leaving)) 2)) [
      | inr more ↦ rw (more, drop_flight) (remove_one-All lock e active s)
      | inl last ↦
          let alone : length (remove_one lock active) ≡ 0 =
            ground (arith, count-same e active s, length-remove_one lock active) in
          rw (last, drop_flight) (empty (remove_one lock active) alone)
    ]

-- In every interleaving of requests for one key, all requests whose flight has not ended hold the
-- lock of the map, and there is one if there are such requests, so that they take turns.
pub Reached-Shared : {f : Flights} → Reached f → Shared f.entry f.active
unfolding drop_clone
Reached-Shared begun = refl
Reached-Shared (arrived {f} r) = arrive-Shared f.entry f.active f.leaving f.next (Reached-Shared r)
Reached-Shared (landed {f} lock h r) =
    drop_flight-Shared f.entry f.active f.leaving f.next lock h (Reached-Shared r)
Reached-Shared (left {f} lock r) = Reached-Shared r

-- In a state that is reached, a flight that ends takes the map's entry away exactly when it is the
-- only one and no clone of this lock is left over from a flight that ended before.
pub drop_flight-entry_iff :
    {f : Flights} (lock : ℕ)
    → Reached f
    → 0 < count lock f.active
    → ((drop_flight f lock).entry ≡ none) ↔ ((length f.active ≡ 1) × (count lock f.leaving ≡ 0))
drop_flight-entry_iff {f} lock r h =
    exact f.entry f.active f.leaving f.next lock h (Reached-Shared r)
  where
    exact :
        (entry : Option ℕ) (active leaving : List ℕ) (next lock : ℕ)
        → 0 < count lock active
        → Shared entry active
        → ((drop_flight (flights entry active leaving next) lock).entry ≡ none)
          ↔ ((length active ≡ 1) × (count lock leaving ≡ 0))
    exact none active leaving next lock h s =
        absurd (let e : count lock active ≡ 0 = ap (count lock) s in omega arith)
    exact (some e) active leaving next lock h s =
        let same : lock ≡ e = held-eq lock e active h s in
        let all : count e active ≡ length active = count-same e active s in
        let on : count lock active ≡ count e active = ap (λ l. count l active) same in
        let off : count lock leaving ≡ count e leaving = ap (λ l. count l leaving) same in
        unfold drop_flight remove_if_last strong_count in
        elim (Bool-cases (leb (1 + (count e active + count e leaving)) 2)) [
          | inl last ↦ rw last ((λ k. (ground arith, ground arith)), λ k. refl)
          | inr more ↦ rw more ((λ k. cc), λ (one, zero_left). absurd (ground arith))
        ]
