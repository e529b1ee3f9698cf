-- ===== src/Http/Requests/Shedding.antt =====
-- src/transport/http/mod.rs: requests that find no free permit, or no channel that they may use.
use flywheel.Prelude.{
  ◌≡◌, ◌≤◌, ◌∙◌, ◌⊎◌, refl, Bool, false, Option, none, some, arith, Bool-cases, Option-cases, inl,
  inr,
}
use flywheel.Bytes.{Bytes}
use flywheel.Storage.Ids.{ChannelId, ArtifactId}
use flywheel.Storage.Errors.{err, Result-cases}
use flywheel.Channels.{
  ChannelError, not_found, unauthorized, is_deleting, no_default_deletion, invalid_default,
  in_store, in_files,
}
use flywheel.Http.{Response}
use flywheel.Http.Server.{Services, Server, acquire_foreground, with_permit, busy_response}
use flywheel.Http.Serve.{RequestHeaders, serve_artifact}
use flywheel.Http.Failures.{channel_failure, channel_denied}
use flywheel.Http.Data.{
  Codecs, Served, put_artifact, get_artifact, put_reference, get_reference, delete_reference,
}
use flywheel.Http.BuildCache.{
  put_named, put_http_cache, get_http_cache, put_bazel_ac, get_bazel_ac, put_bazel_cas,
  get_bazel_cas, serve_reference_artifact,
}
use flywheel.Http.Channels.{authorize_channel, from_request_parts, channel_of, credential_of}
use flywheel.Http.Requests.{
  Route, artifact_put, artifact_get, reference_put, reference_get, reference_delete, http_put,
  action_put, blob_put, http_get, action_get, blob_get, data_handler, data_router,
}
use flywheel.Identity.{algorithm, parse_artifact, parse_reference, is_valid}

channel_failure-status : (error : ChannelError) → 400 ≤ (channel_failure error).status
unfolding channel_failure
channel_failure-status not_found = omega arith
channel_failure-status unauthorized = omega arith
channel_failure-status is_deleting = omega arith
channel_failure-status no_default_deletion = omega arith
channel_failure-status invalid_default = omega arith
channel_failure-status (in_store _) = omega arith
channel_failure-status (in_files _) = omega arith

module _ {World : Type 0} where
  -- An answer of failure that leaves the services and the permits alone.
  abbrev pub Refused : Server World → Server World × Response → Type 0
  Refused s (after, response) =
      (after.world ≡ s.world) × (after.foreground ≡ s.foreground) × (400 ≤ response.status)

  channel_denied-Refused :
      (s : Server World) (error : ChannelError) → Refused s (channel_denied s error)
  unfolding channel_denied
  channel_denied-Refused s error = (ground arith, ground arith, channel_failure-status error)

  full : (s : Server World) → s.foreground ≡ 0 → (acquire_foreground s).1 ≡ false
  unfolding acquire_foreground
  full s e = ground arith

  full-Refused :
      (s : Server World) (response : Response)
      → s.foreground ≡ 0
      → 400 ≤ response.status
      → Refused s ((acquire_foreground s).0, response)
  unfolding acquire_foreground
  full-Refused s response e h = (ground arith, ground arith, h)

module _ (codecs : Codecs) (services : Services) where
  open services use {World, Upload}

  abbrev pub Turned : Server World → Served codecs services → Type 0
  Turned s (after, response, keeps) = Refused s (after, response) × (keeps ≡ false)

  serve_artifact-Turned :
      (s : Server World) (channel : ChannelId) (artifact : ArtifactId) (headers : RequestHeaders)
      (head seek : Bool)
      → s.foreground ≡ 0
      → Turned s
          (serve_artifact codecs.hex codecs.to_str services s channel artifact headers head seek)
  unfolding serve_artifact
  serve_artifact-Turned s channel artifact headers head seek e =
      rw (full s e, serve_artifact) (full-Refused s busy_response e (omega arith), refl)

  serve_reference_artifact-Turned :
      (s : Server World) (channel : ChannelId) (reference : Bytes) (headers : RequestHeaders)
      (head seek : Bool)
      → s.foreground ≡ 0
      → Turned s (serve_reference_artifact codecs services s channel reference headers head seek)
  unfolding serve_reference_artifact
  serve_reference_artifact-Turned s channel reference headers head seek e =
      rw (full s e, serve_reference_artifact) (full-Refused s busy_response e (omega arith), refl)

  put_named-Refused :
      (s : Server World) (channel : ChannelId) (reference : Bytes) (headers : RequestHeaders)
      (upload : Upload)
      → s.foreground ≡ 0
      → Refused s (put_named codecs services s channel reference headers upload)
  unfolding put_named with_permit
  put_named-Refused s channel reference headers upload h =
      rw (full s h, put_named, with_permit) (full-Refused s busy_response h (omega arith))

  data_handler-Turned :
      (s : Server World) (channel : ChannelId) (headers : RequestHeaders) (route : Route Upload)
      → s.foreground ≡ 0
      → Turned s (data_handler codecs services s channel headers route)
  unfolding data_handler with_permit put_http_cache put_bazel_ac put_bazel_cas get_bazel_cas
  data_handler-Turned s channel headers (artifact_put name digest upload) h =
      elim (Result-cases (parse_artifact codecs.hex name digest)) [
        | inl (artifact, e) ↦
            rw (e, put_artifact)
              (rw (full s h, with_permit) (full-Refused s busy_response h (omega arith), refl))
        | inr (error, e) ↦ rw (e, put_artifact) ((refl, refl, omega arith), refl)
      ]
  data_handler-Turned s channel headers (artifact_get name digest head seek) h =
      elim (Result-cases (parse_artifact codecs.hex name digest)) [
        | inl (artifact, e) ↦
            rw (e, get_artifact) (serve_artifact-Turned s channel artifact headers head seek h)
        | inr (error, e) ↦ rw (e, get_artifact) ((refl, refl, omega arith), refl)
      ]
  data_handler-Turned s channel headers (reference_put reference name digest) h =
      elim (Option-cases (parse_reference reference)) [
        | inl e ↦ rw (e, put_reference) ((refl, refl, omega arith), refl)
        | inr (parsed, e) ↦ elim (Result-cases (parse_artifact codecs.hex name digest)) [
          | inr (error, k) ↦ rw (e, put_reference) (rw k ((refl, refl, omega arith), refl))
          | inl (artifact, k) ↦
              rw (e, put_reference)
                (rw k
                  (rw (full s h, with_permit) (full-Refused s busy_response h (omega arith), refl)))
        ]
      ]
  data_handler-Turned s channel headers (reference_get reference) h =
      elim (Option-cases (parse_reference reference)) [
        | inl e ↦ rw (e, get_reference) ((refl, refl, omega arith), refl)
        | inr (parsed, e) ↦
            rw (e, get_reference)
              (rw (full s h, with_permit) (full-Refused s busy_response h (omega arith), refl))
      ]
  data_handler-Turned s channel headers (reference_delete reference) h =
      elim (Option-cases (parse_reference reference)) [
        | inl e ↦ rw (e, delete_reference) ((refl, refl, omega arith), refl)
        | inr (parsed, e) ↦
            rw (e, delete_reference)
              (rw (full s h, with_permit) (full-Refused s busy_response h (omega arith), refl))
      ]
  data_handler-Turned s channel headers (http_put key upload) h = elim (Bool-cases (is_valid key)) [
    | inl e ↦ rw (e, put_http_cache) (put_named-Refused s channel _ headers upload h, refl)
    | inr e ↦ rw (e, put_http_cache) ((refl, refl, omega arith), refl)
  ]
  data_handler-Turned s channel headers (action_put hash upload) h =
      elim (Result-cases (parse_artifact codecs.hex algorithm hash)) [
        | inl (artifact, e) ↦
            rw (e, put_bazel_ac) (put_named-Refused s channel _ headers upload h, refl)
        | inr (error, e) ↦ rw (e, put_bazel_ac) ((refl, refl, omega arith), refl)
      ]
  data_handler-Turned s channel headers (blob_put hash upload) h =
      elim (Result-cases (parse_artifact codecs.hex algorithm hash)) [
        | inl (artifact, e) ↦
            rw (e, put_bazel_cas)
              (rw (full s h, with_permit) (full-Refused s busy_response h (omega arith), refl))
        | inr (error, e) ↦ rw (e, put_bazel_cas) ((refl, refl, omega arith), refl)
      ]
  data_handler-Turned s channel headers (http_get key head seek) h =
      unfold get_http_cache in serve_reference_artifact-Turned s channel _ headers head seek h
  data_handler-Turned s channel headers (action_get hash head seek) h =
      unfold get_bazel_ac in serve_reference_artifact-Turned s channel _ headers head seek h
  data_handler-Turned s channel headers (blob_get hash head seek) h =
      elim (Result-cases (parse_artifact codecs.hex algorithm hash)) [
        | inl (artifact, e) ↦
            rw (e, get_bazel_cas) (serve_artifact-Turned s channel artifact headers head seek h)
        | inr (error, e) ↦ rw (e, get_bazel_cas) ((refl, refl, omega arith), refl)
      ]

  authorize_channel_lem :
      (s : Server World) (channel : Bytes) (authorization : Option Bytes)
      → let (after, authorized) = authorize_channel codecs services s channel authorization in
        (after.world ≡ s.world)
        × (after.foreground ≡ s.foreground)
        × ((response : Response) → authorized ≡ err response → 400 ≤ response.status)
  unfolding authorize_channel
  authorize_channel_lem s channel authorization = elim (Option-cases (channel_of codecs channel)) [
    | inl e ↦ rw (e, authorize_channel) (refl, refl, λ r k. ground arith)
    | inr (id, e) ↦
        let found = services.authorize s.world id (credential_of codecs authorization) in
        elim (Result-cases found) [
          | inl (r, k) ↦ rw (e, authorize_channel) (rw k (refl, refl, λ r' m. cc))
          | inr (error, k) ↦
              let (world, permits, status) = channel_denied-Refused s error in
              rw (e, authorize_channel) (rw k (world, permits, λ r' m. ground arith))
        ]
  ]

  from_request_parts_lem :
      (s : Server World) (channel authorization : Option Bytes)
      → let (after, context) = from_request_parts codecs services s channel authorization in
        (after.world ≡ s.world)
        × (after.foreground ≡ s.foreground)
        × ((response : Response) → context ≡ err response → 400 ≤ response.status)
  unfolding from_request_parts
  from_request_parts_lem s none authorization = (refl, refl, λ r e. cc)
  from_request_parts_lem s (some channel) authorization =
      let found = authorize_channel codecs services s channel authorization in
      let (world, permits, status) = authorize_channel_lem s channel authorization in
      elim (Result-cases found.1) [
        | inl (r, e) ↦ rw (e, from_request_parts) (world, permits, λ r' m. cc)
        | inr (response, e) ↦
            rw (e, from_request_parts) (world, permits, λ r' m. ground (arith, status response e))
      ]

  -- A request to a route for artifacts, references or build caches (the data routes but for the
  -- package proxies') that finds no free permit, or whose channel is not authorized, changes
  -- neither the cache, the channels, nor the free permits; its body keeps none, and its status is
  -- 400 or more.
  pub data_router-Turned :
      (s : Server World) (channel : Option Bytes) (headers : RequestHeaders) (route : Route Upload)
      → (s.foreground ≡ 0)
        ⊎ ((response : Response) × ((from_request_parts codecs services s channel
                headers.authorization).1
              ≡ err response))
      → Turned s (data_router codecs services s channel headers route)
  unfolding data_router
  data_router-Turned s channel headers route why =
      let resolved = from_request_parts codecs services s channel headers.authorization in
      let (world, permits, status) = from_request_parts_lem s channel headers.authorization in
      elim (Result-cases resolved.1) [
        | inr (response, e) ↦ rw (e, data_router) ((world, permits, status response e), refl)
        | inl (context, e) ↦ elim why [
          | inr (response, k) ↦ absurd (ground arith)
          | inl none_free ↦
              let ((w, p, st), kept) =
                data_handler-Turned resolved.0 context.channel headers route
                  (permits ∙ none_free) in
              rw (e, data_router) ((w ∙ world, p ∙ permits, st), kept)
        ]
      ]
