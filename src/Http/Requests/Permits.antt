-- ===== src/Http/Requests/Permits.antt =====
-- src/transport/http/mod.rs: the foreground budget over all data routes.
use flywheel.Prelude.{
  ℕ, ◌+◌, Bool, true, false, Option, none, some, if◌then◌else◌, Bool-cases, Option-cases, inl, inr,
}
use flywheel.Bytes.{Bytes}
use flywheel.Storage.Ids.{ChannelId, ArtifactId, zstd, best_effort}
use flywheel.Storage.Errors.{Result-cases}
use flywheel.Cache.Publication.{CacheError, Publication}
use flywheel.Cache.Requests.{PublishRequest, content_addressed}
use flywheel.Http.{Response}
use flywheel.Http.Server.{
  Services, Server, Budget, acquire_foreground, release, with_permit, release-Budget,
}
use flywheel.Http.Serve.{RequestHeaders, found_response, serve_artifact}
use flywheel.Http.Failures.{cache_write_failure, cache_write_failure_with_bypass}
use flywheel.Http.Data.{
  Codecs, Served, publish_with, publish_request, accepted, bind_work, lookup_work, delete_work,
  put_artifact, get_artifact, put_reference, get_reference, delete_reference,
}
use flywheel.Http.BuildCache.{
  put_named, put_http_cache, get_http_cache, put_bazel_ac, get_bazel_ac, put_bazel_cas,
  get_bazel_cas, serve_reference_artifact,
}
use flywheel.Http.Channels.{authorize_channel, from_request_parts, channel_of, credential_of}
use flywheel.Http.Requests.{
  Route, artifact_put, artifact_get, reference_put, reference_get, reference_delete, http_put,
  action_put, blob_put, http_get, action_get, blob_get, data_handler, data_router,
}
use flywheel.Identity.{algorithm, parse_artifact, parse_reference, is_valid}
use flywheel.Http.Requests.Budgets.{
  Steady, cache_write_failure-Budget, bypass-Budget, channel_denied-Budget, acquired-Budget,
  shed-Budget, with_permit-Steady,
}

module _ (codecs : Codecs) (services : Services) (limit held : ℕ) where
  open services use {World, Upload}

  -- The permits that a handler leaves out: those that were, and its body's.
  abbrev pub Kept : Served codecs services → Type 0
  Kept (s, response, keeps) = Budget limit (if keeps then held + 1 else held) s

  publish_with-Budget :
      (failed : Server World → CacheError → Server World × Response)
      → ((s : Server World) (error : CacheError)
          → Budget limit (held + 1) s
          → Budget limit (held + 1) (failed s error).0)
      → (succeeded : Publication → Response) (request : PublishRequest) (upload : Upload)
      → Steady limit (held + 1) (publish_with codecs services failed succeeded request upload)
  unfolding publish_with
  publish_with-Budget failed keep succeeded request upload s b =
      let published = services.publish s.world request upload in
      elim (Result-cases published.1) [
        | inl (publication, e) ↦ rw (e, publish_with) b
        | inr (error, e) ↦ rw (e, publish_with) (keep (record s { world = published.0 }) error b)
      ]

  found_Kept :
      (s : Server World) (keeps : Bool)
      → Budget limit (held + 1) s
      → Budget limit (if keeps then held + 1 else held) (if keeps then s else release s)
  found_Kept s true b = b
  found_Kept s false b = release-Budget limit held s b

  serve_artifact-Kept :
      (s : Server World) (channel : ChannelId) (artifact : ArtifactId) (headers : RequestHeaders)
      (head seek : Bool)
      → Budget limit held s
      → Kept (serve_artifact codecs.hex codecs.to_str services s channel artifact headers head seek)
  unfolding serve_artifact
  serve_artifact-Kept s channel artifact headers head seek b =
      let acquired = (acquire_foreground s).0 in
      let found = services.locate acquired.world channel artifact in
      elim (Bool-cases (acquire_foreground s).1) [
        | inl admitted ↦
            rw (admitted, serve_artifact)
              (found_Kept (record acquired { world = found.0 })
                (found_response codecs.hex codecs.to_str services found.1 artifact headers head
                  seek).1
                (acquired-Budget limit held s b admitted))
        | inr full ↦ rw (full, serve_artifact) (shed-Budget limit held s b full)
      ]

  serve_reference_artifact-Kept :
      (s : Server World) (channel : ChannelId) (reference : Bytes) (headers : RequestHeaders)
      (head seek : Bool)
      → Budget limit held s
      → Kept (serve_reference_artifact codecs services s channel reference headers head seek)
  unfolding serve_reference_artifact
  serve_reference_artifact-Kept s channel reference headers head seek b =
      let acquired = (acquire_foreground s).0 in
      elim (Bool-cases (acquire_foreground s).1) [
        | inr full ↦ rw (full, serve_reference_artifact) (shed-Budget limit held s b full)
        | inl admitted ↦
            let back =
              release-Budget limit held acquired (acquired-Budget limit held s b admitted) in
            elim (Result-cases (services.resolve_reference acquired.world channel reference)) [
              | inr (error, e) ↦ rw (admitted, serve_reference_artifact) (rw e back)
              | inl (found, e) ↦ elim (Option-cases found) [
                | inl gone ↦ rw (admitted, serve_reference_artifact) (rw e (rw gone back))
                | inr (r, here) ↦
                    rw (admitted, serve_reference_artifact)
                      (rw e (
                        rw here (
                          serve_artifact-Kept (release acquired) channel r.artifact headers head
                            seek back)))
              ]
            ]
      ]

  raw_write-Steady :
      (succeeded : Publication → Response) (request : PublishRequest) (upload : Upload)
      → Steady limit held
          (with_permit (publish_with codecs services cache_write_failure succeeded request upload))
  raw_write-Steady succeeded request upload =
      with_permit-Steady limit held
        (publish_with codecs services cache_write_failure succeeded request upload)
        (publish_with-Budget cache_write_failure (cache_write_failure-Budget limit (held + 1))
          succeeded request upload)

  put_named-Budget :
      (s : Server World) (channel : ChannelId) (reference : Bytes) (headers : RequestHeaders)
      (upload : Upload)
      → Budget limit held s
      → Budget limit held (put_named codecs services s channel reference headers upload).0
  unfolding put_named
  put_named-Budget s channel reference headers upload b =
      let request =
        publish_request codecs channel (content_addressed (some reference)) headers best_effort
          zstd in
      with_permit-Steady limit held
        (publish_with codecs services cache_write_failure_with_bypass accepted request upload)
        (publish_with-Budget cache_write_failure_with_bypass (bypass-Budget limit (held + 1))
          accepted request upload)
        s b

  data_handler-Kept :
      (s : Server World) (channel : ChannelId) (headers : RequestHeaders) (route : Route Upload)
      → Budget limit held s
      → Kept (data_handler codecs services s channel headers route)
  unfolding data_handler put_http_cache put_bazel_ac put_bazel_cas get_bazel_cas
  data_handler-Kept s channel headers (artifact_put name digest upload) b =
      elim (Result-cases (parse_artifact codecs.hex name digest)) [
        | inl (artifact, e) ↦ rw (e, put_artifact) (raw_write-Steady _ _ upload s b)
        | inr (error, e) ↦ rw (e, put_artifact) b
      ]
  data_handler-Kept s channel headers (artifact_get name digest head seek) b =
      elim (Result-cases (parse_artifact codecs.hex name digest)) [
        | inl (artifact, e) ↦
            rw (e, get_artifact) (serve_artifact-Kept s channel artifact headers head seek b)
        | inr (error, e) ↦ rw (e, get_artifact) b
      ]
  data_handler-Kept s channel headers (reference_put reference name digest) b =
      elim (Option-cases (parse_reference reference)) [
        | inl e ↦ rw (e, put_reference) b
        | inr (parsed, e) ↦ elim (Result-cases (parse_artifact codecs.hex name digest)) [
          | inr (error, k) ↦ rw (e, put_reference) (rw k b)
          | inl (artifact, k) ↦
              rw (e, put_reference)
                (rw k (
                  with_permit-Steady limit held (bind_work codecs services channel parsed artifact)
                    (λ t c. unfold bind_work in c) s b))
        ]
      ]
  data_handler-Kept s channel headers (reference_get reference) b =
      elim (Option-cases (parse_reference reference)) [
        | inl e ↦ rw (e, get_reference) b
        | inr (parsed, e) ↦
            rw (e, get_reference)
              (with_permit-Steady limit held (lookup_work codecs services channel parsed)
                (λ t c. unfold lookup_work in c) s b)
      ]
  data_handler-Kept s channel headers (reference_delete reference) b =
      elim (Option-cases (parse_reference reference)) [
        | inl e ↦ rw (e, delete_reference) b
        | inr (parsed, e) ↦
            rw (e, delete_reference)
              (with_permit-Steady limit held (delete_work codecs services channel parsed)
                (λ t c. unfold delete_work in c) s b)
      ]
  data_handler-Kept s channel headers (http_put key upload) b = elim (Bool-cases (is_valid key)) [
    | inl e ↦ rw (e, put_http_cache) (put_named-Budget s channel _ headers upload b)
    | inr e ↦ rw (e, put_http_cache) b
  ]
  data_handler-Kept s channel headers (action_put hash upload) b =
      elim (Result-cases (parse_artifact codecs.hex algorithm hash)) [
        | inl (artifact, e) ↦ rw (e, put_bazel_ac) (put_named-Budget s channel _ headers upload b)
        | inr (error, e) ↦ rw (e, put_bazel_ac) b
      ]
  data_handler-Kept s channel headers (blob_put hash upload) b =
      elim (Result-cases (parse_artifact codecs.hex algorithm hash)) [
        | inl (artifact, e) ↦ rw (e, put_bazel_cas) (raw_write-Steady _ _ upload s b)
        | inr (error, e) ↦ rw (e, put_bazel_cas) b
      ]
  data_handler-Kept s channel headers (http_get key head seek) b =
      unfold get_http_cache in serve_reference_artifact-Kept s channel _ headers head seek b
  data_handler-Kept s channel headers (action_get hash head seek) b =
      unfold get_bazel_ac in serve_reference_artifact-Kept s channel _ headers head seek b
  data_handler-Kept s channel headers (blob_get hash head seek) b =
      elim (Result-cases (parse_artifact codecs.hex algorithm hash)) [
        | inl (artifact, e) ↦
            rw (e, get_bazel_cas) (serve_artifact-Kept s channel artifact headers head seek b)
        | inr (error, e) ↦ rw (e, get_bazel_cas) b
      ]

  authorize_channel-Budget :
      (s : Server World) (channel : Bytes) (authorization : Option Bytes)
      → Budget limit held s
      → Budget limit held (authorize_channel codecs services s channel authorization).0
  unfolding authorize_channel
  authorize_channel-Budget s channel authorization b =
      elim (Option-cases (channel_of codecs channel)) [
        | inl e ↦ rw (e, authorize_channel) b
        | inr (id, e) ↦
            let found = services.authorize s.world id (credential_of codecs authorization) in
            elim (Result-cases found) [
              | inl (r, k) ↦ rw (e, authorize_channel) (rw k b)
              | inr (error, k) ↦
                  rw (e, authorize_channel) (rw k (channel_denied-Budget limit held s error b))
            ]
      ]

  from_request_parts-Budget :
      (s : Server World) (channel authorization : Option Bytes)
      → Budget limit held s
      → Budget limit held (from_request_parts codecs services s channel authorization).0
  unfolding from_request_parts
  from_request_parts-Budget s none authorization b = b
  from_request_parts-Budget s (some channel) authorization b =
      authorize_channel-Budget s channel authorization b

  -- Every request to a route for artifacts, references or build caches (the data routes but for the
  -- package proxies') leaves the foreground budget as it was, whatever the services answer, but for
  -- one permit where the response's body keeps it: the free permits and those held add up to the
  -- limit, and the gauge of those in flight is the number held.
  pub data_router-Kept :
      (s : Server World) (channel : Option Bytes) (headers : RequestHeaders) (route : Route Upload)
      → Budget limit held s
      → Kept (data_router codecs services s channel headers route)
  unfolding data_router
  data_router-Kept s channel headers route b =
      let resolved = from_request_parts codecs services s channel headers.authorization in
      let kept = from_request_parts-Budget s channel headers.authorization b in
      elim (Result-cases resolved.1) [
        | inl (context, e) ↦
            rw (e, data_router) (data_handler-Kept resolved.0 context.channel headers route kept)
        | inr (response, e) ↦ rw (e, data_router) kept
      ]
