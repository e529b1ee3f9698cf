-- ===== src/Agent/Prefetch.antt =====
-- src/agent/mod.rs and src/telemetry.rs: `forward`, with the observation of a prefetched body.
use flywheel.Prelude.{
  ℕ, ◌+◌, ◌-◌, ◌<◌, Bool, true, false, Option, none, some, List, [], ◌∷◌, if◌then◌else◌,
  saturating_add,
}
use flywheel.Bytes.{Bytes, codes, bytes_eq}
use flywheel.Discovery.{Limits}
use flywheel.Agent.{AgentMetrics, Headers, Request, Response}
use flywheel.Agent.Forward.{AgentState, Outbound, SendOutcome, forward_request}

-- `headers().get(name)`: the first value.
unfoldable pub header : Bytes → Headers → Option Bytes
header name [] = none
header name ((n, value) ∷ rest) = if bytes_eq n name then some value else header name rest

-- `REQUEST_PURPOSE_HEADER` and its value for a prefetch.
unfoldable pub is_prefetch : Headers → Bool
unfolding header
is_prefetch headers = elim (header (codes "x-flywheel-request-purpose") headers) [
  | none ↦ false
  | some value ↦ bytes_eq value (codes "prefetch")
]

-- `prefetch_started`
unfoldable pub prefetch_started : AgentMetrics → AgentMetrics
prefetch_started m = record m {
  prefetch_requests = m.prefetch_requests + 1;
  prefetch_in_flight = m.prefetch_in_flight + 1;
}

-- `prefetch_finished`
unfoldable pub prefetch_finished : AgentMetrics → ℕ → Bool → AgentMetrics
prefetch_finished m bytes completed = record m {
  prefetch_in_flight = m.prefetch_in_flight - 1;
  prefetch_response_bytes = m.prefetch_response_bytes + bytes;
  prefetch_completed = if completed then m.prefetch_completed + 1 else m.prefetch_completed;
  prefetch_cancelled = if completed then m.prefetch_cancelled else m.prefetch_cancelled + 1;
}

-- What polling a response's body yields.
pub data Polled : Type 0 where
  bytes : ℕ → Polled
  failed end_of_body : Polled

-- `observe_prefetch_body`: the bytes that were streamed, and whether the end was reached.
unfoldable pub observed : List Polled → ℕ → ℕ × Bool
observed [] total = (total, false)
observed (bytes n ∷ rest) total = observed rest (saturating_add total n)
observed (failed ∷ rest) total = observed rest total
observed (end_of_body ∷ rest) total = (total, true)

module _ (sha256 hex_encode : Bytes → Bytes) (limits : Limits) where
  -- `forward`, up to the response's body.
  unfoldable pub forward :
      AgentState
      → Request
      → ℕ
      → ℕ
      → (Outbound → SendOutcome)
      → AgentState × Response × Option Outbound
  unfolding is_prefetch prefetch_started forward_request
  forward s request now later send =
      let prefetch = is_prefetch request.headers in
      let counted = record s.metrics { requests = s.metrics.requests + 1 } in
      let begun = record s { metrics = if prefetch then prefetch_started counted else counted } in
      forward_request sha256 hex_encode limits begun request prefetch now later send

  -- The drop of a prefetched body's observation, after the polls.
  unfoldable pub finish : AgentState → List Polled → AgentState
  unfolding observed prefetch_finished
  finish s polls =
      let (total, completed) = observed polls 0 in
      record s { metrics = prefetch_finished s.metrics total completed }

  -- The agent's life, from counters at zero: requests, and the ends of prefetched bodies.
  pub data Runs (start : AgentState) : AgentState → Type 0 where
    begun : Runs start start
    requested :
        {s : AgentState} (request : Request) (now later : ℕ) (send : Outbound → SendOutcome)
        → Runs start s
        → Runs start (forward s request now later send).0
    finished :
        {s : AgentState} (polls : List Polled)
        → 0 < s.metrics.prefetch_in_flight
        → Runs start s
        → Runs start (finish s polls)
