-- ===== src/Space/Hysteresis.antt =====
-- src/cache/space.rs: the low and high watermarks that switch reclamation on and off.
use flywheel.Prelude.{◌≤◌, ◌<◌, ◌≡◌, ◌↔◌, ◌⊎◌, true, arith}
use flywheel.Space.{SpacePolicy, State, reclaiming, available, mode}

-- With the low watermark at most the high one, the mode is Reclaiming exactly when the available
-- space is below the low watermark, or was so before and has not reached the high one again.
pub mode-eq-reclaiming_iff :
    (policy : SpacePolicy) (state : State)
    → policy.low_watermark ≤ policy.high_watermark
    → ((mode policy state).1 ≡ reclaiming) ↔ (
        (available policy state < policy.low_watermark)
        ⊎ ((state.is_reclaiming ≡ true) × (available policy state < policy.high_watermark)))
unfolding mode
mode-eq-reclaiming_iff policy state h = (λ e. ground arith, λ e. ground arith)

-- Asking for the mode changes neither the available space nor what the next question answers:
-- with the low watermark at most the high one, a second call gives the same state and mode.
pub mode-mode :
    (policy : SpacePolicy) (state : State)
    → policy.low_watermark ≤ policy.high_watermark
    → (mode policy (mode policy state).0 ≡ mode policy state)
      × (available policy (mode policy state).0 ≡ available policy state)
unfolding mode
mode-mode policy state h = ground arith
