-- ===== src/Agent/Accounts.antt =====
-- src/agent/mod.rs: the accounts of prefetches over an agent's life.
use flywheel.Prelude.{
  ℕ, ◌+◌, ◌≡◌, ◌≤◌, ◌<◌, refl, Bool, true, false, List, if◌then◌else◌, arith, Bool-cases,
  Option-cases, inl, inr,
}
use flywheel.Bytes.{Bytes}
use flywheel.Ring.{RingMember, key_position, owner}
use flywheel.Discovery.{Limits, ring}
use flywheel.Agent.{
  RouteClass, build_cache_read, build_cache_write, passthrough, AgentMetrics, Request,
}
use flywheel.Agent.Routes.{classify, is_channel_path}
use flywheel.Agent.Forward.{
  AgentState, Outbound, SendOutcome, response_headers, send_failed, outbound, degrade,
  prefetch_unavailable_if, prefetch_answered_if, record_send_failure, exchange, forward_request,
}
use flywheel.Agent.Prefetch.{
  is_prefetch, prefetch_started, prefetch_finished, Polled, observed, forward, finish, Runs, begun,
  requested, finished,
}

-- The counters of prefetched bodies.
abbrev bodies : AgentMetrics → ℕ
bodies m = m.prefetch_in_flight + (m.prefetch_completed + m.prefetch_cancelled)

-- The outcomes of prefetches.
abbrev outcomes : AgentMetrics → ℕ
outcomes m = m.prefetch_hits + (m.prefetch_misses + m.prefetch_unavailable)

-- A step of `forward_request`, on the counters of prefetches.
abbrev Step : Bool → AgentMetrics → AgentMetrics → Type 0
Step prefetch m m' =
    (m'.prefetch_requests ≡ m.prefetch_requests)
    × (bodies m' ≡ bodies m)
    × (outcomes m' ≤ outcomes m + (if prefetch then 1 else 0))

degrade-Step :
    (m : AgentMetrics) (class : RouteClass) (empty_ring prefetch : Bool)
    → Step prefetch m (degrade (prefetch_unavailable_if prefetch m) class empty_ring).0
unfolding degrade prefetch_unavailable_if
degrade-Step m build_cache_read e true = (refl, refl, omega arith)
degrade-Step m build_cache_read e false = (refl, refl, omega arith)
degrade-Step m build_cache_write e true = (refl, refl, omega arith)
degrade-Step m build_cache_write e false = (refl, refl, omega arith)
degrade-Step m passthrough e true = (refl, refl, omega arith)
degrade-Step m passthrough e false = (refl, refl, omega arith)

answered-Step :
    (m : AgentMetrics) (status : ℕ) (prefetch : Bool)
    → Step prefetch m
        (prefetch_answered_if prefetch status (record m { forwarded = m.forwarded + 1 }))
unfolding prefetch_answered_if
answered-Step m status false = (refl, refl, omega arith)
answered-Step m status true = (ground arith, ground arith, ground arith)

module _ (sha256 hex_encode : Bytes → Bytes) (limits : Limits) where
  record_send_failure-Step :
      (s : AgentState) (member : RingMember) (now : ℕ) (c t : Bool)
      → let m = (record_send_failure sha256 hex_encode limits s member now c t).metrics in
        (m.prefetch_requests ≡ s.metrics.prefetch_requests)
        × (bodies m ≡ bodies s.metrics)
        × (outcomes m ≡ outcomes s.metrics)
  unfolding record_send_failure
  record_send_failure-Step s member now true t = (refl, refl, refl)
  record_send_failure-Step s member now false true = (refl, refl, refl)
  record_send_failure-Step s member now false false = (refl, refl, refl)

  exchange-Step :
      (s : AgentState) (member : RingMember) (class : RouteClass) (prefetch : Bool) (later : ℕ)
      (outcome : SendOutcome)
      → Step prefetch s.metrics
          (exchange sha256 hex_encode limits s member class prefetch later outcome).0.metrics
  unfolding exchange
  exchange-Step s member class prefetch later (response_headers status headers body) =
      answered-Step s.metrics status prefetch
  exchange-Step s member class prefetch later (send_failed c t) =
      let failed = record_send_failure sha256 hex_encode limits s member later c t in
      let (asked, kept, none_more) = record_send_failure-Step s member later c t in
      let (asked', kept', few) = degrade-Step failed.metrics class false prefetch in
      (omega arith, omega arith, omega arith)

  forward_request-Step :
      (s : AgentState) (request : Request) (prefetch : Bool) (now later : ℕ)
      (send : Outbound → SendOutcome)
      → Step prefetch s.metrics
          (forward_request sha256 hex_encode limits s request prefetch now later send).0.metrics
  unfolding forward_request
  forward_request-Step s request prefetch now later send =
      let routed = classify request.method request.path in
      let found = ring sha256 hex_encode s.inner now in
      elim (Bool-cases (is_channel_path request.path)) [
        | inl channels ↦ rw (channels, forward_request) (refl, refl, omega arith)
        | inr elsewhere ↦ elim (Option-cases (key_position sha256 routed.kind routed.id)) [
          | inl long ↦ rw (elsewhere, forward_request) (rw long (refl, refl, omega arith))
          | inr (position, keyed) ↦ elim (Option-cases (owner found.1 position)) [
            | inl nobody ↦
                rw (elsewhere, forward_request)
                  (rw keyed (rw nobody (degrade-Step s.metrics routed.class true prefetch)))
            | inr (member, owns) ↦
                rw (elsewhere, forward_request)
                  (rw keyed (
                    rw owns (
                      exchange-Step (record s { inner = found.0 }) member routed.class prefetch
                        later (send (outbound member request)))))
          ]
        ]
      ]

  -- The books of a state: every prefetch is a body in flight, completed or cancelled, and at most
  -- one outcome is counted for each.
  abbrev pub Balanced : AgentMetrics → Type 0
  Balanced m = (m.prefetch_requests ≡ bodies m) × (outcomes m ≤ m.prefetch_requests)

  forward-Balanced :
      (s : AgentState) (request : Request) (now later : ℕ) (send : Outbound → SendOutcome)
      → Balanced s.metrics
      → Balanced (forward sha256 hex_encode limits s request now later send).0.metrics
  unfolding forward
  forward-Balanced s request now later send (every, few) =
      let counted = record s.metrics { requests = s.metrics.requests + 1 } in
      elim (Bool-cases (is_prefetch request.headers)) [
        | inr foreground ↦
            let begun = record s { metrics = counted } in
            let (asked, kept, more) = forward_request-Step begun request false now later send in
            rw (foreground, forward) (omega arith, omega arith)
        | inl prefetched ↦
            let begun = record s { metrics = prefetch_started counted } in
            let (asked, kept, more) = forward_request-Step begun request true now later send in
            rw (prefetched, forward) (unfold prefetch_started in (omega arith, omega arith))
      ]

  finish-Balanced :
      (s : AgentState) (polls : List Polled)
      → 0 < s.metrics.prefetch_in_flight
      → Balanced s.metrics
      → Balanced (finish sha256 hex_encode limits s polls).metrics
  unfolding finish prefetch_finished
  finish-Balanced s polls pos (every, few) = elim (Bool-cases (observed polls 0).1) [
    | inl completed ↦ rw (completed, finish) (omega arith, omega arith)
    | inr cancelled ↦ rw (cancelled, finish) (omega arith, omega arith)
  ]

  -- At every point of an agent's life that starts with balanced books: the prefetches that were
  -- requested are those whose body is in flight, was streamed to its end, or was dropped before,
  -- and no more outcomes (hits, misses and unavailable ones) were counted than prefetches.
  pub Runs-Balanced :
      {start s : AgentState}
      → Runs sha256 hex_encode limits start s
      → Balanced start.metrics
      → Balanced s.metrics
  Runs-Balanced begun b = b
  Runs-Balanced (requested {s} request now later send r) b =
      forward-Balanced s request now later send (Runs-Balanced r b)
  Runs-Balanced (finished {s} polls pos r) b = finish-Balanced s polls pos (Runs-Balanced r b)
