-- ===== src/Proxy/Flights.antt =====
-- src/proxy/mod.rs: `requests`, the map of coalescing locks, and `RequestFlight`, for one key. A
-- request that arrives takes a clone of the map's lock, made new where the map has none; when it
-- ends it drops its flight and then, in a step of its own, its clone.
use flywheel.Prelude.{
  count, remove_one, ℕ, ◌+◌, ◌<◌, Option, none, some, List, [], ◌∷◌, leb, if◌then◌else◌,
}

-- A lock is known by a number. `active` are the locks that requests with a flight hold, `leaving`
-- the locks of clones whose flight is gone.
pub record Flights : Type 0 where
  pub entry : Option ℕ
  pub active : List ℕ
  pub leaving : List ℕ
  pub next : ℕ

abbrev pub start : Flights
start = record { entry = none; active = []; leaving = []; next = 0 }

-- `entry(key).or_insert_with`, and the clone.
unfoldable pub arrive : Flights → Flights
arrive f = elim f.entry [
  | some lock ↦ record f { active = lock ∷ f.active }
  | none ↦ record f { entry = some f.next; active = f.next ∷ f.active; next = f.next + 1 }
]

-- `Arc::strong_count` of the map's lock: the map and all clones.
unfoldable pub strong_count : Flights → ℕ → ℕ
strong_count f lock = 1 + (count lock f.active + count lock f.leaving)

-- `remove_if`
unfoldable pub remove_if_last : Flights → Option ℕ
unfolding strong_count
remove_if_last f = elim f.entry [
  | none ↦ none
  | some lock ↦ if leb (strong_count f lock) 2 then none else some lock
]

-- `RequestFlight::drop`, of a request that holds `lock`.
unfoldable pub drop_flight : Flights → ℕ → Flights
unfolding remove_if_last remove_one
drop_flight f lock = record f {
  entry = remove_if_last f;
  active = remove_one lock f.active;
  leaving = lock ∷ f.leaving;
}

unfoldable pub drop_clone : Flights → ℕ → Flights
unfolding remove_one
drop_clone f lock = record f { leaving = remove_one lock f.leaving }

-- The interleavings of all requests for the key.
pub data Reached : Flights → Type 0 where
  begun : Reached start
  arrived : {f : Flights} → Reached f → Reached (arrive f)
  landed :
      {f : Flights} (lock : ℕ) → 0 < count lock f.active → Reached f → Reached (drop_flight f lock)
  left : {f : Flights} (lock : ℕ) → Reached f → Reached (drop_clone f lock)
