-- ===== src/Agent.antt =====
-- src/agent/mod.rs: the routing sidecar. A request is classified by its path, sent to the one owner
-- of its key, and answered for where no shard does.
pub mod Routes
pub mod Forward
pub mod Counters
pub mod Owners
pub mod Prefetch
pub mod Accounts
use flywheel.Prelude.{ℕ, Bool, true, false, Option, none, some, List, [], ◌∷◌}
use flywheel.Bytes.{Bytes}

pub data Method : Type 0 where
  get head put post other_method : Method

pub data RouteClass : Type 0 where
  build_cache_read build_cache_write passthrough : RouteClass

pub record RoutedKey : Type 0 where
  pub kind : Bytes
  pub id : Bytes
  pub class : RouteClass

-- `AgentMetrics`: the counters and the gauge.
pub record AgentMetrics : Type 0 where
  pub requests : ℕ
  pub forwarded : ℕ
  pub forward_failures : ℕ
  pub synthesized_misses : ℕ
  pub synthesized_bypasses : ℕ
  pub unavailable : ℕ
  pub ejections : ℕ
  pub prefetch_requests : ℕ
  pub prefetch_hits : ℕ
  pub prefetch_misses : ℕ
  pub prefetch_unavailable : ℕ
  pub prefetch_response_bytes : ℕ
  pub prefetch_in_flight : ℕ
  pub prefetch_completed : ℕ
  pub prefetch_cancelled : ℕ

-- A request's or a response's headers, by lowercase name.
abbrev pub Headers : Type 0
Headers = List (Bytes × Bytes)

pub record Request : Type 0 where
  pub method : Method
  pub path : Bytes
  -- `path_and_query`, where the URI has one.
  pub path_and_query : Option Bytes
  pub headers : Headers
  pub body : Bytes

-- A response whose body is streamed from a shard, or empty.
pub record Response : Type 0 where
  pub status : ℕ
  pub headers : Headers
  pub body : Option Bytes

abbrev pub plain : ℕ → Response
plain status = record { status = status; headers = []; body = none }
