-- ===== src/Space.antt =====
-- src/cache/space.rs: the free-space ledger. The state under the mutex is a record; every
-- locked section is one function, so a sequence of calls is a list of these steps. The
-- filesystem observation (`statvfs`) is an argument of `refresh`.
use flywheel.Prelude.{
  ℕ, ◌≡◌, Bool, true, false, not, ◌||◌, Option, none, some, ltb, leb, if◌then◌else◌, saturating_add,
  saturating_sub,
}
pub mod Accounting
pub mod Hysteresis

pub record SpacePolicy : Type 0 where
  pub low_watermark : ℕ
  pub high_watermark : ℕ
  pub emergency_headroom : ℕ

pub data Mode : Type 0 where
  normal reclaiming : Mode

pub record SpaceSnapshot : Type 0 where
  pub free_observed : ℕ
  pub reserved : ℕ
  pub committed_since : ℕ

pub record State : Type 0 where
  pub free_observed : ℕ
  pub reserved : ℕ
  pub committed_since : ℕ
  pub degraded : Bool
  pub is_reclaiming : Bool

-- `SpaceLedger::refresh`, with the result of `free_bytes`.
unfoldable pub refresh : State → Option ℕ → State
refresh state (some free) = record state {
  free_observed = free;
  committed_since = 0;
  degraded = false;
}
refresh state none = record state { degraded = true }

-- `SpaceLedger::new`: degraded until its first observation.
unfoldable pub new : Option ℕ → State
unfolding refresh
new observation =
    refresh
      (record {
        free_observed = 0;
        reserved = 0;
        committed_since = 0;
        degraded = true;
        is_reclaiming = false;
      })
      observation

-- `available_locked`
unfoldable pub available : SpacePolicy → State → ℕ
available policy state =
    saturating_sub state.free_observed (
      saturating_add (saturating_add state.reserved state.committed_since)
        policy.emergency_headroom)

unfoldable pub mode : SpacePolicy → State → State × Mode
unfolding available
mode policy state =
    if state.is_reclaiming
    then (if leb policy.high_watermark (available policy state)
        then (record state { is_reclaiming = false }, normal)
        else (state, reclaiming))
    else (if ltb (available policy state) policy.low_watermark
        then (record state { is_reclaiming = true }, reclaiming)
        else (state, normal))

unfoldable pub snapshot : State → SpaceSnapshot
snapshot state = record {
  free_observed = state.free_observed;
  reserved = state.reserved;
  committed_since = state.committed_since;
}

unfoldable pub try_reserve : SpacePolicy → State → ℕ → State × Bool
unfolding available
try_reserve policy state bytes =
    if state.degraded || ltb (available policy state) bytes
    then (state, false)
    else (record state { reserved = saturating_add state.reserved bytes }, true)

unfoldable pub release : State → ℕ → State
release state bytes = record state { reserved = saturating_sub state.reserved bytes }

unfoldable pub commit : State → ℕ → State
commit state bytes = record state {
  reserved = saturating_sub state.reserved bytes;
  committed_since = saturating_add state.committed_since bytes;
}

-- The calls that the rest of the program makes of the ledger.
pub data Call : Type 0 where
  refreshes : Option ℕ → Call
  reserves releases commits : ℕ → Call
  asks_mode : Call

unfoldable pub step : SpacePolicy → State → Call → State
unfolding refresh mode try_reserve release commit
step policy state (refreshes observation) = refresh state observation
step policy state (reserves bytes) = (try_reserve policy state bytes).0
step policy state (releases bytes) = release state bytes
step policy state (commits bytes) = commit state bytes
step policy state asks_mode = (mode policy state).0
