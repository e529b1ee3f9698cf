-- ===== src/Discovery/Runs.antt =====
-- src/agent/discovery.rs: histories of the routing state.
use flywheel.Prelude.{ℕ, ◌<◌, List, [], ◌∷◌}
use flywheel.Bytes.{Bytes}
use flywheel.Ring.{RingMember}
use flywheel.Discovery.{
  RingInner, Limits, new, ring, record_failure, record_success, record_refresh_error,
  apply_snapshot,
}
use flywheel.Discovery.Invariant.{
  Inv, new-Inv, ring-Inv, record_success-Inv, record_failure-Inv, apply_snapshot-Inv,
}

-- What the forwarder and the discovery task do to the state.
pub data Event : Type 0 where
  routes : Event
  succeeds fails : Bytes → Event
  discovers : List RingMember → Event
  misses : Bytes → Event

module _ (sha256 hex_encode : Bytes → Bytes) (limits : Limits) where
  -- One locked section, at the time that the clock gives.
  unfoldable pub step : RingInner → ℕ × Event → RingInner
  step inner (now, routes) = (ring sha256 hex_encode inner now).0
  step inner (now, succeeds id) = record_success inner id
  step inner (now, fails id) = (record_failure sha256 hex_encode limits inner id now).0
  step inner (now, discovers members) = apply_snapshot sha256 hex_encode inner members now
  step inner (now, misses error) = record_refresh_error inner error

  unfoldable pub run : RingInner → List (ℕ × Event) → RingInner
  run inner [] = inner
  run inner (e ∷ es) = run (step inner e) es

  module _ (at_least_one : 0 < limits.failure_limit) where
    step-Inv :
        (inner : RingInner) (e : ℕ × Event)
        → Inv sha256 hex_encode limits inner
        → Inv sha256 hex_encode limits (step inner e)
    unfolding step record_refresh_error
    step-Inv inner (now, routes) v = ring-Inv sha256 hex_encode limits at_least_one inner now v
    step-Inv inner (now, succeeds id) v =
        record_success-Inv sha256 hex_encode limits at_least_one inner id v
    step-Inv inner (now, fails id) v =
        record_failure-Inv sha256 hex_encode limits at_least_one inner id now v
    step-Inv inner (now, discovers ms) v =
        apply_snapshot-Inv sha256 hex_encode limits at_least_one inner ms now v
    step-Inv inner (now, misses error) v = record {
      sorted = v.sorted;
      limited = v.limited;
      watched = v.watched;
      routed = v.routed;
    }

    run-Inv :
        (inner : RingInner) (es : List (ℕ × Event))
        → Inv sha256 hex_encode limits inner
        → Inv sha256 hex_encode limits (run inner es)
    unfolding run
    run-Inv inner [] v = v
    run-Inv inner (e ∷ es) v = run-Inv (step inner e) es (step-Inv inner e v)

    -- With a failure limit of at least one, after any history of routing, successes, failures,
    -- discoveries and discovery errors, at any times: the member IDs rise strictly, every member
    -- without a deadline has fewer failures than the limit, the watched deadline is the soonest
    -- one, and the ring is exactly the ring of the members without a deadline.
    pub run-new-Inv :
        (es : List (ℕ × Event)) → Inv sha256 hex_encode limits (run (new sha256 hex_encode) es)
    run-new-Inv es =
        run-Inv (new sha256 hex_encode) es (new-Inv sha256 hex_encode limits at_least_one)
