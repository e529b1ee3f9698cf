-- ===== src/Agent/Counters.antt =====
-- src/agent/mod.rs: how a request ends where no shard answers it, and what is counted.
use flywheel.Prelude.{
  ℕ, ◌+◌, ◌≡◌, refl, Bool, true, false, Option, none, some, arith, Option-cases, inl, inr,
}
use flywheel.Bytes.{Bytes}
use flywheel.Ring.{RingMember, key_position, owner}
use flywheel.Discovery.{Limits, ring}
use flywheel.Agent.{
  RouteClass, build_cache_read, build_cache_write, passthrough, AgentMetrics, Request,
}
use flywheel.Agent.Routes.{classify, is_channel_path}
use flywheel.Agent.Forward.{
  AgentState, Outbound, SendOutcome, response_headers, send_failed, outbound, degrade,
  prefetch_unavailable_if, prefetch_answered_if, record_send_failure, exchange, forward_request,
}

-- The status of a route that no shard answers for, by whether a request was sent.
abbrev pub fallback : RouteClass → Option Outbound → ℕ
fallback build_cache_read sent = 404
fallback build_cache_write sent = 200
fallback passthrough none = 503
fallback passthrough (some _) = 502

-- The requests that were answered, by a shard or for one.
abbrev pub ended : AgentMetrics → ℕ
ended m = m.forwarded + (m.synthesized_misses + (m.synthesized_bypasses + m.unavailable))

-- A send that gets no answer.
abbrev pub IsFailure : SendOutcome → Type 0
IsFailure (send_failed c t) = Unit
IsFailure (response_headers _ _ _) = ⊥

degrade-status :
    (m : AgentMetrics) (class : RouteClass)
    → ((degrade m class true).1.status ≡ fallback class none)
      × ((o : Outbound) → (degrade m class false).1.status ≡ fallback class (some o))
unfolding degrade
degrade-status m build_cache_read = (refl, λ o. refl)
degrade-status m build_cache_write = (refl, λ o. refl)
degrade-status m passthrough = (refl, λ o. refl)

degrade-ended :
    (m : AgentMetrics) (class : RouteClass) (empty_ring : Bool)
    → ended (degrade m class empty_ring).0 ≡ ended m + 1
unfolding degrade
degrade-ended m build_cache_read e = omega arith
degrade-ended m build_cache_write e = omega arith
degrade-ended m passthrough e = omega arith

unavailable_if-ended :
    (prefetch : Bool) (m : AgentMetrics) → ended (prefetch_unavailable_if prefetch m) ≡ ended m
unfolding prefetch_unavailable_if
unavailable_if-ended false m = refl
unavailable_if-ended true m = refl

answered_if-ended :
    (prefetch : Bool) (status : ℕ) (m : AgentMetrics)
    → ended (prefetch_answered_if prefetch status m) ≡ ended m
unfolding prefetch_answered_if
answered_if-ended false status m = refl
answered_if-ended true status m = ground arith

module _ (sha256 hex_encode : Bytes → Bytes) (limits : Limits) where
  record_send_failure-ended :
      (s : AgentState) (member : RingMember) (now : ℕ) (c t : Bool)
      → ended (record_send_failure sha256 hex_encode limits s member now c t).metrics
        ≡ ended s.metrics
  unfolding record_send_failure
  record_send_failure-ended s member now true t = refl
  record_send_failure-ended s member now false true = refl
  record_send_failure-ended s member now false false = refl

  exchange-ended :
      (s : AgentState) (member : RingMember) (class : RouteClass) (prefetch : Bool) (later : ℕ)
      (outcome : SendOutcome)
      → ended (exchange sha256 hex_encode limits s member class prefetch later outcome).0.metrics
        ≡ ended s.metrics + 1
  unfolding exchange
  exchange-ended s member class prefetch later (response_headers status headers body) = omega (
    arith,
    answered_if-ended prefetch status (record s.metrics { forwarded = s.metrics.forwarded + 1 }),
  )
  exchange-ended s member class prefetch later (send_failed c t) =
      let failed = record_send_failure sha256 hex_encode limits s member later c t in
      omega (
        arith,
        degrade-ended (prefetch_unavailable_if prefetch failed.metrics) class false,
        unavailable_if-ended prefetch failed.metrics,
        record_send_failure-ended s member later c t,
      )

  exchange-status :
      (s : AgentState) (member : RingMember) (class : RouteClass) (prefetch : Bool) (later : ℕ)
      (o : Outbound) (outcome : SendOutcome)
      → IsFailure outcome
      → (exchange sha256 hex_encode limits s member class prefetch later outcome).1.status
        ≡ fallback class (some o)
  unfolding exchange
  exchange-status s member class prefetch later o (send_failed c t) h = (degrade-status _ class).1 o
  exchange-status s member class prefetch later o (response_headers _ _ _) h = elim h [ ]

  -- A request outside of the channel routes whose key can be encoded ends in one of four counters,
  -- and moves it by one: forwarded, a synthesized miss, a bypassed write, or unavailable. Where
  -- the send fails, or the ring is empty, a build-cache read is answered 404, a build-cache write
  -- 200, and any other request 502 or 503.
  pub forward_request-fails_open :
      (s : AgentState) (request : Request) (prefetch : Bool) (now later position : ℕ)
      (send : Outbound → SendOutcome)
      → is_channel_path request.path ≡ false
      → key_position sha256
          (classify request.method request.path).kind
          (classify request.method request.path).id
        ≡ some position
      → let (after, response, sent) =
          forward_request sha256 hex_encode limits s request prefetch now later send in
        (ended after.metrics ≡ ended s.metrics + 1)
        × (((o : Outbound) → IsFailure (send o))
            → response.status ≡ fallback (classify request.method request.path).class sent)
  unfolding forward_request
  forward_request-fails_open s request prefetch now later position send data_path keyed =
      let routed = classify request.method request.path in
      let found = ring sha256 hex_encode s.inner now in
      elim (Option-cases (owner found.1 position)) [
        | inl nobody ↦
            rw (data_path, forward_request)
              (rw keyed (
                rw nobody (
                  omega (
                    arith,
                    degrade-ended (prefetch_unavailable_if prefetch s.metrics) routed.class true,
                    unavailable_if-ended prefetch s.metrics,
                  ),
                  λ h. (degrade-status (prefetch_unavailable_if prefetch s.metrics) routed.class).0,
                )))
        | inr (member, owns) ↦
            rw (data_path, forward_request)
              (rw keyed (
                rw owns (
                  exchange-ended (record s { inner = found.0 }) member routed.class prefetch later
                      (send (outbound member request)),
                  λ h.
                      exchange-status (record s { inner = found.0 }) member routed.class prefetch
                        later (outbound member request) (send (outbound member request))
                        (h (outbound member request)),
                )))
      ]
