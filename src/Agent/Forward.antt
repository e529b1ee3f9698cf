-- ===== src/Agent/Forward.antt =====
-- src/agent/mod.rs: `forward_request`. The shard's answer to the one request that is sent is an
-- input, and so are the clock's readings.
use flywheel.Prelude.{
  ℕ, ◌+◌, Bool, true, false, ◌&&◌, ◌||◌, Option, none, some, leb, ltb, ◌==◌, if◌then◌else◌,
}
use flywheel.Bytes.{Bytes, codes}
use flywheel.Ring.{RingMember, SocketAddr, key_position, owner}
use flywheel.Discovery.{RingInner, Limits, ring, record_failure, record_success}
use flywheel.Agent.{
  Method, get, head, RouteClass, build_cache_read, build_cache_write, passthrough, AgentMetrics,
  Headers, Request, Response, plain,
}
use flywheel.Agent.Routes.{
  classify, is_channel_path, skip_request_header, skip_response_header, passing,
}

-- What changes of `AgentState`: the routing state and the metrics.
pub record AgentState : Type 0 where
  pub inner : RingInner
  pub metrics : AgentMetrics

-- The request that is sent to a shard; a GET or HEAD has no body.
pub record Outbound : Type 0 where
  pub address : SocketAddr
  pub path_and_query : Bytes
  pub method : Method
  pub headers : Headers
  pub body : Option Bytes

-- How `send` ends: with response headers, or with an error that may come from connecting or be a
-- timeout.
pub data SendOutcome : Type 0 where
  response_headers : ℕ → Headers → Bytes → SendOutcome
  send_failed : Bool → Bool → SendOutcome

abbrev pub is_bodyless : Method → Bool
is_bodyless get = true
is_bodyless head = true
is_bodyless _ = false

abbrev pub path_or_root : Option Bytes → Bytes
path_or_root none = codes "/"
path_or_root (some path) = path

unfoldable pub outbound : RingMember → Request → Outbound
unfolding skip_request_header
outbound member request = record {
  address = member.address;
  path_and_query = path_or_root request.path_and_query;
  method = request.method;
  headers = passing skip_request_header request.headers;
  body = if is_bodyless request.method then none else some request.body;
}

-- The response that is synthesized where no shard answers.
unfoldable pub degrade : AgentMetrics → RouteClass → Bool → AgentMetrics × Response
degrade m build_cache_read empty_ring =
    (record m { synthesized_misses = m.synthesized_misses + 1 }, plain 404)
degrade m build_cache_write empty_ring =
    (record m { synthesized_bypasses = m.synthesized_bypasses + 1 }, plain 200)
degrade m passthrough empty_ring =
    (record m { unavailable = m.unavailable + 1 }, plain (if empty_ring then 503 else 502))

-- The builder fails on a status that is none; the headers are valid, as they were received.
unfoldable pub proxied_response : ℕ → Headers → Bytes → Response
unfolding skip_response_header
proxied_response status headers body =
    if leb 100 status && ltb status 1000
    then record {
      status = status;
      headers = passing skip_response_header headers;
      body = some body;
    }
    else plain 502

-- The counters of a prefetch, by what became of it.
unfoldable pub prefetch_unavailable_if : Bool → AgentMetrics → AgentMetrics
prefetch_unavailable_if false m = m
prefetch_unavailable_if true m = record m { prefetch_unavailable = m.prefetch_unavailable + 1 }

unfoldable pub prefetch_answered_if : Bool → ℕ → AgentMetrics → AgentMetrics
prefetch_answered_if false status m = m
prefetch_answered_if true status m =
    if leb 200 status && ltb status 300
    then record m { prefetch_hits = m.prefetch_hits + 1 }
    else if status == 404
    then record m { prefetch_misses = m.prefetch_misses + 1 }
    else record m { prefetch_unavailable = m.prefetch_unavailable + 1 }

module _ (sha256 hex_encode : Bytes → Bytes) (limits : Limits) where
  -- A failure counts if connecting failed or the send timed out.
  unfoldable pub record_send_failure : AgentState → RingMember → ℕ → Bool → Bool → AgentState
  record_send_failure s member now is_connect is_timeout = elim (is_connect || is_timeout) [
    | false ↦ s
    | true ↦
        let (inner, ejected) = record_failure sha256 hex_encode limits s.inner member.id now in
        record {
          inner = inner;
          metrics = record s.metrics {
            forward_failures = s.metrics.forward_failures + 1;
            ejections = if ejected then s.metrics.ejections + 1 else s.metrics.ejections;
          };
        }
  ]

  -- The send to the owner, and what follows it.
  unfoldable pub exchange :
      AgentState → RingMember → RouteClass → Bool → ℕ → SendOutcome → AgentState × Response
  unfolding record_send_failure degrade proxied_response prefetch_unavailable_if
      prefetch_answered_if
  exchange s member class prefetch later (response_headers status headers body) = (
    record {
      inner = record_success s.inner member.id;
      metrics =
          prefetch_answered_if prefetch status
            (record s.metrics { forwarded = s.metrics.forwarded + 1 });
    },
    proxied_response status headers body,
  )
  exchange s member class prefetch later (send_failed is_connect is_timeout) =
      let failed = record_send_failure s member later is_connect is_timeout in
      let (metrics, response) =
        degrade (prefetch_unavailable_if prefetch failed.metrics) class false in
      (record failed { metrics = metrics }, response)

  -- `forward_request`: the state, the response, and the request that was sent, if any. `now` is the
  -- clock at the lookup, `later` where a failure is recorded.
  unfoldable pub forward_request :
      AgentState
      → Request
      → Bool
      → ℕ
      → ℕ
      → (Outbound → SendOutcome)
      → AgentState × Response × Option Outbound
  unfolding classify is_channel_path outbound exchange degrade prefetch_unavailable_if
  forward_request s request prefetch now later send =
      let routed = classify request.method request.path in
      elim (is_channel_path request.path) [
        | true ↦ (s, plain 501, none)
        | false ↦ elim (key_position sha256 routed.kind routed.id) [
          | none ↦ (s, plain 414, none)
          | some position ↦
              let (inner, continuum) = ring sha256 hex_encode s.inner now in
              let found = record s { inner = inner } in
              elim (owner continuum position) [
                | none ↦
                    let (metrics, response) =
                      degrade (prefetch_unavailable_if prefetch found.metrics) routed.class true in
                    (record found { metrics = metrics }, response, none)
                | some member ↦
                    let sent = outbound member request in
                    let (after, response) =
                      exchange found member routed.class prefetch later (send sent) in
                    (after, response, some sent)
              ]
        ]
      ]
