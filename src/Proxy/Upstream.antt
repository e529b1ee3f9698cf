-- ===== src/Proxy/Upstream.antt =====
-- src/proxy/mod.rs: `send_validated`, the retries and the redirects of a fetch. What an upstream
-- answers may depend on all that was sent before.
use flywheel.Prelude.{
  ℕ, zero, suc, Bool, true, false, ◌&&◌, ◌||◌, Option, none, some, List, ◌∷◌, ltb, leb, ◌==◌,
}
use flywheel.Bytes.{Bytes}
use flywheel.Storage.Ids.{ReferenceRecord}
use flywheel.Storage.Errors.{Result, ok, err}
use flywheel.Proxy.{Protocol}
use flywheel.Proxy.Origins.{
  Urls, ProxyError, http_error, unavailable, url_error, disallowed_origin, AllowedOrigins,
  check_origin,
}

-- A response, with the headers that are read, where they are text.
pub record Reply : Type 0 where
  pub status : ℕ
  pub location : Option Bytes
  pub content_type : Option Bytes
  pub etag : Option Bytes
  pub last_modified : Option Bytes
  pub content_length : Option ℕ
  pub body : Bytes

-- How a request ends: with a response, or with an error that may come from connecting or be a
-- timeout.
pub data Sent : Type 0 where
  answered : Reply → Sent
  failed : Bool → Bool → Sent

-- `is_redirect`
unfoldable pub is_redirect : ℕ → Bool
is_redirect status =
    status == 301 || (status == 302 || (status == 303 || (status == 307 || status == 308)))

-- `StatusCode::is_server_error`
abbrev pub is_server_error : ℕ → Bool
is_server_error status = leb 500 status && ltb status 600

-- `REDIRECT_HOP_LIMIT`
abbrev pub redirect_hop_limit : ℕ
redirect_hop_limit = 5

module _ (urls : Urls) where
  open urls use {Url}

  pub record Request : Type 0 where
    pub target : Url
    pub accept : Option Bytes
    pub if_none_match : Option Bytes
    pub if_modified_since : Option Bytes

  -- All requests sent, the last one first.
  abbrev pub Wire : Type 0
  Wire = List Request

  -- The request of one hop, with the validators of the cached record.
  unfoldable pub request_of : Option Bytes → Option ReferenceRecord → Url → Request
  request_of accept none target = record {
    target = target;
    accept = accept;
    if_none_match = none;
    if_modified_since = none;
  }
  request_of accept (some r) target = record {
    target = target;
    accept = accept;
    if_none_match = r.etag;
    if_modified_since = r.last_modified;
  }

  module _ (network : Wire → Request → Sent) where
    -- The loop over the attempts; `left` of them are left.
    unfoldable pub attempts : ℕ → Wire → Request → Wire × Result ProxyError (Option Reply)
    attempts zero wire request = (wire, ok none)
    attempts (suc left) wire request = elim (network wire request) [
      | answered reply ↦ elim (is_server_error reply.status && ltb 0 left) [
        | true ↦ attempts left (request ∷ wire) request
        | false ↦ (request ∷ wire, ok (some reply))
      ]
      | failed is_connect is_timeout ↦ elim (ltb 0 left && (is_connect || is_timeout)) [
        | true ↦ attempts left (request ∷ wire) request
        | false ↦ (request ∷ wire, err http_error)
      ]
    ]

    module _ (allowed : AllowedOrigins urls) (protocol : Protocol) where
      -- Where a response leads: nowhere further, or to a URL that passes the check.
      unfoldable pub next_hop : Url → Reply → Result ProxyError (Option Url)
      unfolding is_redirect
      next_hop target reply = elim (is_redirect reply.status) [
        | false ↦ ok none
        | true ↦ elim reply.location [
          | none ↦ err unavailable
          | some location ↦ elim (urls.join target location) [
            | none ↦ err url_error
            | some next ↦ elim (check_origin urls allowed protocol next) [
              | false ↦ err disallowed_origin
              | true ↦ ok (some next)
            ]
          ]
        ]
      ]

      -- The loop over the hops.
      unfoldable pub hops : (Url → Request) → ℕ → Wire → Url → Wire × Result ProxyError Reply
      unfolding attempts next_hop
      hops build zero wire target = (wire, err unavailable)
      hops build (suc left) wire target =
          let (wire', tried) = attempts 3 wire (build target) in
          elim tried [
            | err error ↦ (wire', err error)
            | ok none ↦ (wire', err unavailable)
            | ok (some reply) ↦ elim (next_hop target reply) [
              | err error ↦ (wire', err error)
              | ok none ↦ (wire', ok reply)
              | ok (some next) ↦ hops build left wire' next
            ]
          ]

      unfoldable pub send_validated :
          Wire → Url → Option ReferenceRecord → Option Bytes → Wire × Result ProxyError Reply
      unfolding hops request_of
      send_validated wire url current accept =
          hops (request_of accept current) (suc redirect_hop_limit) wire url
