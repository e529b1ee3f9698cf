-- ===== src/Proxy/Fetch.antt =====
-- src/proxy/mod.rs: `fetch` and `fetch_encoded_url`, from the cached binding to the upstream and
-- back into the cache. Requests for one reference take turns by the lock of `Proxy.Flights`.
use flywheel.Prelude.{ℕ, ◌-◌, Bool, true, false, ◌&&◌, Option, none, some, length, ltb, leb, ◌==◌}
use flywheel.Bytes.{Bytes}
use flywheel.Storage.Ids.{ChannelId, ArtifactId, ArtifactMetadata, identity, zstd, ReferenceRecord}
use flywheel.Storage.Errors.{Result, ok, err}
use flywheel.LocalFiles.Stage.{out_of_space}
use flywheel.Cache.Publication.{CacheError, local}
use flywheel.Proxy.{Protocol, Transform, untouched, upstream_accept, cache_variant}
use flywheel.Proxy.Origins.{
  Urls, ProxyError, busy, unavailable, malformed, in_cache, AllowedOrigins, UpstreamBases,
  build_url, decode_url, proxy_reference,
}
use flywheel.Proxy.Upstream.{Reply, Sent, Request, Wire, send_validated}
use flywheel.Proxy.Store.{
  Store, ProxyOutcome, artifact_found, cached_metadata, upstream, upstream_stream, is_untouched,
  MetadataPublication, proxy_publication,
}

module _ (urls : Urls) (store : Store) (allowed : AllowedOrigins urls)
    (network : Wire urls → Request urls → Sent) (sha256 hex_encode : Bytes → Bytes)
    (rewrite : Transform → urls.Url → Bytes → Result ProxyError Bytes) (ttl : ℕ) where
  open urls use {Url}
  open store use {World}

  -- What a fetch changes: the cache, what was sent, and the free permits.
  pub record Proxy : Type 0 where
    pub world : World
    pub wire : Wire urls
    pub permits : ℕ

  abbrev pub Outcome : Type 0 → Type 0
  Outcome A = World × Result ProxyError A

  -- A located body, rewritten.
  unfoldable pub body_outcome :
      Url
      → Transform
      → Result CacheError (Option (ArtifactMetadata × Option Bytes))
      → Result ProxyError (Option ProxyOutcome)
  body_outcome url transform (err error) = err (in_cache error)
  body_outcome url transform (ok none) = ok none
  body_outcome url transform (ok (some (m, bytes))) = elim m.encoding [
    | zstd ↦ err malformed
    | identity ↦ elim bytes [
      | none ↦ err unavailable
      | some raw ↦ elim (rewrite transform url raw) [
        | err error ↦ err error
        | ok body ↦ ok (some (cached_metadata body m.content_type))
      ]
    ]
  ]

  unfoldable pub cached_outcome :
      World → ChannelId → ArtifactId → Url → Transform → Outcome (Option ProxyOutcome)
  unfolding body_outcome
  cached_outcome world channel artifact url transform = elim (is_untouched transform) [
    | true ↦ (world, ok (some (artifact_found artifact)))
    | false ↦
        let (world', located) = store.locate world channel artifact in
        (world', body_outcome url transform located)
  ]

  -- Whether a binding is inside the revalidation time.
  abbrev pub is_fresh : ℕ → ReferenceRecord → Bool
  is_fresh now r = ltb (now - r.updated_at) ttl

  unfoldable pub fresh_outcome :
      World
      → ChannelId
      → Option ReferenceRecord
      → ℕ
      → Url
      → Transform
      → Outcome (Option ProxyOutcome)
  unfolding cached_outcome
  fresh_outcome world channel none now url transform = (world, ok none)
  fresh_outcome world channel (some r) now url transform = elim (is_fresh now r) [
    | true ↦ cached_outcome world channel r.artifact url transform
    | false ↦ (world, ok none)
  ]

  -- A binding, and what follows it.
  unfoldable pub bound : World × Result {0} CacheError Unit → ProxyOutcome → Outcome ProxyOutcome
  bound (world, ok _) outcome = (world, ok outcome)
  bound (world, err error) outcome = (world, err (in_cache error))

  abbrev pub required : Result ProxyError (Option ProxyOutcome) → Result ProxyError ProxyOutcome
  required (err error) = err error
  required (ok none) = err unavailable
  required (ok (some outcome)) = ok outcome

  unfoldable pub revalidated :
      World → ChannelId → Bytes → Option ReferenceRecord → Url → Transform → Outcome ProxyOutcome
  unfolding cached_outcome
  revalidated world channel reference none url transform = (world, err unavailable)
  revalidated world channel reference (some r) url transform =
      let (world', rebound) =
        store.bind_with_validators world channel reference r.artifact r.etag r.last_modified in
      elim rebound [
        | err error ↦ (world', err (in_cache error))
        | ok _ ↦
            let (world'', found) = cached_outcome world' channel r.artifact url transform in
            (world'', required found)
      ]

  -- A document that is published, or served though there is no space for it.
  unfoldable pub serve_metadata : World → ChannelId → MetadataPublication → Outcome ProxyOutcome
  unfolding bound
  serve_metadata world channel m =
      let (world', published) =
        store.publish world (proxy_publication channel m.content_type (some (length m.raw)))
          m.raw in
      elim published [
        | ok publication ↦
            bound
              (store.bind_with_validators world' channel m.reference publication.artifact m.etag
                m.last_modified)
              (cached_metadata m.rewritten m.content_type)
        | err (local out_of_space) ↦ (world', ok (upstream 200 m.rewritten m.content_type))
        | err error ↦ (world', err (in_cache error))
      ]

  -- The raw-file path.
  unfoldable pub serve_file : World → ChannelId → Bytes → Reply → Outcome ProxyOutcome
  unfolding bound
  serve_file world channel reference reply =
      let (world', admitted) =
        store.publish_or_reject world
          (proxy_publication channel reply.content_type reply.content_length) reply.body in
      elim admitted [
        | err error ↦ (world', err (in_cache error))
        | ok none ↦ (world', ok (upstream_stream reply.status reply.body reply.content_type))
        | ok (some publication) ↦
            bound
              (store.bind_with_validators world' channel reference publication.artifact reply.etag
                reply.last_modified)
              (artifact_found publication.artifact)
      ]

  abbrev pub is_success : ℕ → Bool
  is_success status = leb 200 status && ltb status 300

  -- What becomes of the upstream's response.
  unfoldable pub received :
      World
      → ChannelId
      → Bytes
      → Option ReferenceRecord
      → Url
      → Transform
      → Reply
      → Outcome ProxyOutcome
  unfolding revalidated serve_metadata serve_file
  received world channel reference current url transform reply = elim (reply.status == 304) [
    | true ↦ revalidated world channel reference current url transform
    | false ↦ elim (is_success reply.status) [
      | false ↦ (world, ok (upstream reply.status reply.body reply.content_type))
      | true ↦ elim (is_untouched transform) [
        | true ↦ serve_file world channel reference reply
        | false ↦ elim (rewrite transform url reply.body) [
          | err error ↦ (world, err error)
          | ok rewritten ↦ serve_metadata world channel record {
            reference = reference;
            content_type = reply.content_type;
            etag = reply.etag;
            last_modified = reply.last_modified;
            raw = reply.body;
            rewritten = rewritten;
          }
        ]
      ]
    ]
  ]

  module _ (protocol : Protocol) where
    -- The consultation of the upstream, under a permit that ends with it.
    unfoldable pub consult :
        Proxy
        → ChannelId
        → Bytes
        → Option ReferenceRecord
        → Url
        → Transform
        → Proxy × Result ProxyError ProxyOutcome
    unfolding received
    consult p channel reference current url transform = elim (ltb 0 p.permits) [
      | false ↦ (p, err busy)
      | true ↦
          let (wire, sent) =
            send_validated urls network allowed protocol p.wire url current
              (upstream_accept transform) in
          elim sent [
            | err error ↦ (record p { wire = wire }, err error)
            | ok reply ↦
                let (world, outcome) =
                  received p.world channel reference current url transform reply in
                (record p { world = world; wire = wire }, outcome)
          ]
    ]

    -- A look at the cached binding: what it is, and its outcome if it is fresh.
    unfoldable pub look :
        Proxy
        → ChannelId
        → Bytes
        → ℕ
        → Url
        → Transform
        → Proxy × Result ProxyError (Option ReferenceRecord × Option ProxyOutcome)
    unfolding fresh_outcome
    look p channel reference now url transform =
        let (world, resolved) = store.resolve_reference p.world channel reference in
        elim resolved [
          | err error ↦ (record p { world = world }, err (in_cache error))
          | ok found ↦
              let (world', outcome) = fresh_outcome world channel found now url transform in
              (
                record p { world = world' },
                elim outcome [ err error ↦ err error | ok served ↦ ok (found, served) ],
              )
        ]

    -- `fetch_url`: a look, one more behind the lock, and the upstream. `first` and `second` are
    -- the clock at the two looks.
    unfoldable pub fetch_url :
        Proxy → ChannelId → ℕ → ℕ → Url → Transform → Proxy × Result ProxyError ProxyOutcome
    unfolding look consult
    fetch_url p channel first second url transform =
        let reference =
          proxy_reference urls sha256 hex_encode protocol url (cache_variant transform) in
        let (p', before) = look p channel reference first url transform in
        elim before [
          | err error ↦ (p', err error)
          | ok (_, some outcome) ↦ (p', ok outcome)
          | ok (_, none) ↦
              let (p'', again) = look p' channel reference second url transform in
              elim again [
                | err error ↦ (p'', err error)
                | ok (_, some outcome) ↦ (p'', ok outcome)
                | ok (current, none) ↦ consult p'' channel reference current url transform
              ]
        ]

    unfoldable pub fetch :
        UpstreamBases urls
        → Proxy
        → ChannelId
        → ℕ
        → ℕ
        → Bytes
        → Transform
        → Proxy × Result ProxyError ProxyOutcome
    unfolding fetch_url
    fetch bases p channel first second path transform =
        elim (build_url urls allowed bases protocol path) [
          | err error ↦ (p, err error)
          | ok url ↦ fetch_url p channel first second url transform
        ]

    unfoldable pub fetch_encoded_url :
        (Bytes → Option Bytes)
        → Proxy
        → ChannelId
        → ℕ
        → ℕ
        → Bytes
        → Bytes
        → Proxy × Result ProxyError ProxyOutcome
    unfolding fetch_url
    fetch_encoded_url decode p channel first second encoded suffix =
        elim (decode_url urls allowed decode protocol encoded suffix) [
          | err error ↦ (p, err error)
          | ok url ↦ fetch_url p channel first second url untouched
        ]
