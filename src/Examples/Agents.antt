-- ===== src/Examples/Agents.antt =====
-- An agent over the ring of two shards.
use flywheel.Prelude.{◌≡◌, ◌+◌, ◌⊎◌, refl, arith, true, false, none, [], ◌∷◌}
use flywheel.Bytes.{Bytes, codes, bytes_eq, starts_with, to_be_bytes, from_be_bytes}
use flywheel.Text.{split, trim_start_matches, strip_prefix, grow}
use flywheel.Ring.{key_position, routing_key, encode_parts, position}
use flywheel.Discovery.{ring}
use flywheel.Discovery.Invariant.{Inv}
use flywheel.Agent.{AgentMetrics, Request, get}
use flywheel.Agent.Forward.{
  AgentState, Outbound, SendOutcome, response_headers, send_failed, forward_request,
}
use flywheel.Agent.Routes.{
  classify, segments, build_cache_object, plain_object, class_of, is_channel_path,
}
use flywheel.Agent.Counters.{ended, fallback, IsFailure, forward_request-fails_open}
use flywheel.Agent.Owners.{forward_request-Inv}
use flywheel.Agent.Prefetch.{forward, begun, requested}
use flywheel.Agent.Accounts.{Balanced, Runs-Balanced}
use flywheel.Examples.Rings.{plain, limits, discovered, discovered-Inv, first_shard}

abbrev no_metrics : AgentMetrics
no_metrics = record {
  requests = 0;
  forwarded = 0;
  forward_failures = 0;
  synthesized_misses = 0;
  synthesized_bypasses = 0;
  unavailable = 0;
  ejections = 0;
  prefetch_requests = 0;
  prefetch_hits = 0;
  prefetch_misses = 0;
  prefetch_unavailable = 0;
  prefetch_response_bytes = 0;
  prefetch_in_flight = 0;
  prefetch_completed = 0;
  prefetch_cancelled = 0;
}

abbrev agent : AgentState
agent = record { inner = discovered; metrics = no_metrics }

abbrev read : Request
read = record {
  method = get;
  path = codes "/build-cache/http/key";
  path_and_query = none;
  headers = [];
  body = [];
}

abbrev refuses : Outbound → SendOutcome
refuses o = send_failed true false

abbrev answers : Outbound → SendOutcome
answers o = response_headers 200 [] []

-- A ring of one shard, and a hash under which every key has the position 0.
abbrev nothing : Bytes → Bytes
nothing b = []

abbrev small_agent : AgentState
small_agent = record {
  inner = record {
    members = [];
    ring = record { members = first_shard ∷ []; points = (0, 0) ∷ []; fingerprint = [] };
    earliest_retry = none;
    last_refresh = none;
    last_error = none;
  };
  metrics = no_metrics;
}

abbrev prefetched : Request
prefetched = record read { headers = (codes "x-flywheel-request-purpose", codes "prefetch") ∷ [] }

forward_request-Inv_example :
    Inv plain plain limits (forward_request plain plain limits agent read false 7 8 refuses).0.inner
    × (((o : Outbound) → refuses o ≡ send_failed false false)
        → ((forward_request plain plain limits agent read false 7 8 refuses).0.inner ≡ agent.inner)
          ⊎ ((forward_request plain plain limits agent read false 7 8 refuses).0.inner
              ≡ (ring plain plain agent.inner 7).0))
forward_request-Inv_example =
    forward_request-Inv plain plain limits agent read false 7 8 refuses (omega arith) discovered-Inv

forward_request-fails_open_example :
    let (after, response, sent) =
      forward_request nothing plain limits small_agent read false 7 8 refuses in
    (ended after.metrics ≡ ended small_agent.metrics + 1)
    × (((o : Outbound) → IsFailure (refuses o))
        → response.status ≡ fallback (classify read.method read.path).class sent)
unfolding classify segments split grow trim_start_matches bytes_eq starts_with build_cache_object
    plain_object class_of is_channel_path strip_prefix key_position routing_key encode_parts
    to_be_bytes position from_be_bytes
forward_request-fails_open_example =
    forward_request-fails_open nothing plain limits small_agent read false 7 8 0 refuses refl refl

Runs-Balanced_example :
    Balanced plain plain limits (forward plain plain limits agent prefetched 7 8 answers).0.metrics
Runs-Balanced_example =
    Runs-Balanced plain plain limits (requested prefetched 7 8 answers begun) (refl, omega arith)
