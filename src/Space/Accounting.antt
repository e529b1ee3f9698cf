-- ===== src/Space/Accounting.antt =====
-- src/cache/space.rs: reservations against the free space, for single calls and for runs.
use flywheel.Prelude.{
  ℕ, ◌+◌, ◌≤◌, ◌<◌, ◌≡◌, ◌↔◌, ◌⊎◌, true, false, none, some, List, [], ◌∷◌, arith, IsU64, All,
}
use flywheel.Space.{
  SpacePolicy, State, Call, refreshes, reserves, releases, commits, asks_mode, try_reserve, step,
}

pub run : SpacePolicy → State → List Call → State
run policy state [] = state
run policy state (c ∷ cs) = run policy (step policy state c) cs

-- The counters and the headroom fit in the free space that was last observed.
abbrev pub Covers : SpacePolicy → State → Type 0
Covers policy state =
    state.reserved + state.committed_since + policy.emergency_headroom ≤ state.free_observed

-- The fields are machine words.
abbrev pub IsWord : State → Type 0
IsWord state = IsU64 state.free_observed × IsU64 state.reserved × IsU64 state.committed_since

-- With 64-bit counters, a nonempty reservation is admitted exactly when the observation is trusted
-- and the bytes fit beside all that is spoken for, the emergency headroom included.
pub try_reserve-admits_iff :
    (policy : SpacePolicy) (state : State) (bytes : ℕ)
    → IsWord state
    → 0 < bytes
    → ((try_reserve policy state bytes).1 ≡ true) ↔ (
        (state.degraded ≡ false)
        × (state.reserved + state.committed_since + policy.emergency_headroom + bytes
            ≤ state.free_observed))
unfolding try_reserve
try_reserve-admits_iff policy state bytes w pos = (λ h. ground arith, λ h. ground arith)

-- An admitted reservation is recorded exactly, and the counters still fit afterwards; a refused
-- one changes nothing.
pub try_reserve-Covers :
    (policy : SpacePolicy) (state : State) (bytes : ℕ)
    → IsWord state
    → 0 < bytes
    → (((try_reserve policy state bytes).1 ≡ true)
        × (((try_reserve policy state bytes).0).reserved ≡ state.reserved + bytes)
        × Covers policy (try_reserve policy state bytes).0)
      ⊎ (try_reserve policy state bytes ≡ (state, false))
unfolding try_reserve
try_reserve-Covers policy state bytes w pos = ground arith

-- One call between two observations; a caller commits no more than is reserved.
abbrev pub Spends : State → Call → Type 0
Spends state (refreshes _) = ⊥
Spends state (reserves _) = Unit
Spends state (releases _) = Unit
Spends state (commits bytes) = bytes ≤ state.reserved
Spends state asks_mode = Unit

abbrev pub SpendsAll : SpacePolicy → State → List Call → Type 0
SpendsAll policy state [] = Unit {0}
SpendsAll policy state (c ∷ cs) = Spends state c × SpendsAll policy (step policy state c) cs

step-Covers :
    (policy : SpacePolicy) (state : State) (c : Call)
    → Spends state c
    → IsWord state
    → Covers policy state
    → Covers policy (step policy state c)
unfolding step
step-Covers policy state (refreshes o) h w v = absurd h
step-Covers policy state (reserves bytes) h w v = ground arith
step-Covers policy state (releases bytes) h w v = ground arith
step-Covers policy state (commits bytes) h w v = ground arith
step-Covers policy state asks_mode h w v = ground arith

-- A call's observation, if it makes one, is a machine word.
abbrev pub Observes : Call → Type 0
Observes (refreshes (some free)) = IsU64 free
Observes _ = Unit

step-IsWord :
    (policy : SpacePolicy) (state : State) (c : Call)
    → Observes c
    → IsWord state
    → IsWord (step policy state c)
unfolding step
step-IsWord policy state (refreshes (some free)) h w = ground arith
step-IsWord policy state (refreshes none) h w = ground arith
step-IsWord policy state (reserves bytes) h w = ground arith
step-IsWord policy state (releases bytes) h w = ground arith
step-IsWord policy state (commits bytes) h w = ground arith
step-IsWord policy state asks_mode h w = ground arith

Spends-Observes : (state : State) (c : Call) → Spends state c → Observes c
Spends-Observes state (refreshes o) h = absurd h
Spends-Observes state (reserves _) h = tt
Spends-Observes state _ h = tt

-- Between two observations no run of reservations, releases, commits of reserved bytes and mode
-- queries spends into the emergency headroom: if the 64-bit counters and the headroom fit in the
-- observed free space at the start, they fit at the end.
pub run-Covers :
    (policy : SpacePolicy) (state : State) (cs : List Call)
    → IsWord state
    → Covers policy state
    → SpendsAll policy state cs
    → Covers policy (run policy state cs)
unfolding run
run-Covers policy state [] w v h = v
run-Covers policy state (c ∷ cs) w v h =
    run-Covers policy (step policy state c) cs
      (step-IsWord policy state c (Spends-Observes state c h.0) w)
      (step-Covers policy state c h.0 w v) h.1

-- No observation of the run succeeds.
abbrev pub Blind : Call → Type 0
Blind (refreshes (some _)) = ⊥
Blind _ = Unit

step-degraded :
    (policy : SpacePolicy) (state : State) (c : Call)
    → Blind c
    → state.degraded ≡ true
    → ((step policy state c).degraded ≡ true) × ((step policy state c).reserved ≤ state.reserved)
unfolding step
step-degraded policy state (refreshes (some free)) h d = absurd h
step-degraded policy state (refreshes none) h d = ground arith
step-degraded policy state (reserves bytes) h d = ground arith
step-degraded policy state (releases bytes) h d = ground arith
step-degraded policy state (commits bytes) h d = ground arith
step-degraded policy state asks_mode h d = ground arith

-- The ledger fails closed: while no observation succeeds, a degraded ledger stays degraded
-- whatever is called, its reservations never grow, and at every point it refuses every
-- reservation and leaves its state as it is.
pub run_fails_closed :
    (policy : SpacePolicy) (state : State) (cs : List Call)
    → state.degraded ≡ true
    → All Blind cs
    → ((run policy state cs).degraded ≡ true)
      × ((run policy state cs).reserved ≤ state.reserved)
      × ((bytes : ℕ)
          → try_reserve policy (run policy state cs) bytes ≡ (run policy state cs, false))
unfolding run try_reserve
run_fails_closed policy state [] d h = (d, omega arith, λ bytes. rw d)
run_fails_closed policy state (c ∷ cs) d h =
    let (d', le) = step-degraded policy state c h.0 d in
    let (d'', le', refuses) = run_fails_closed policy (step policy state c) cs d' h.1 in
    (d'', omega arith, refuses)
