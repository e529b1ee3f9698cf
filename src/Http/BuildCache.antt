-- ===== src/Http/BuildCache.antt =====
-- src/transport/http/mod.rs: the handlers of the build-cache routes.
use flywheel.Prelude.{Bool, true, false, not, none, some, if◌then◌else◌}
use flywheel.Bytes.{Bytes}
use flywheel.Storage.Ids.{ChannelId, identity, zstd, durable, best_effort}
use flywheel.Storage.Errors.{ok, err}
use flywheel.Cache.Requests.{by_id, content_addressed}
use flywheel.Http.{Response, plain}
use flywheel.Http.Server.{Services, Server, acquire_foreground, release, with_permit, busy_response}
use flywheel.Http.Serve.{RequestHeaders, serve_artifact}
use flywheel.Http.Failures.{cache_write_failure, cache_write_failure_with_bypass}
use flywheel.Http.Data.{
  Codecs, build_reference, http_kind, action_kind, accepted, publish_request, publish_with, Served,
  done,
}
use flywheel.Identity.{algorithm, parse_artifact, is_valid}

module _ (codecs : Codecs) (services : Services) where
  open services use {World, Upload}

  -- A build-cache write: a compressed body under a reference.
  unfoldable pub put_named :
      Server World → ChannelId → Bytes → RequestHeaders → Upload → Server World × Response
  unfolding publish_with publish_request cache_write_failure_with_bypass with_permit
  put_named s channel reference headers upload =
      with_permit
        (publish_with codecs services cache_write_failure_with_bypass accepted
          (publish_request codecs channel (content_addressed (some reference)) headers best_effort
            zstd)
          upload)
        s

  unfoldable pub put_http_cache :
      Server World → ChannelId → Bytes → RequestHeaders → Upload → Served codecs services
  unfolding put_named build_reference
  put_http_cache s channel key headers upload =
      if not (is_valid key)
      then (s, plain 400, false)
      else done codecs services (put_named s channel (build_reference http_kind key) headers upload)

  unfoldable pub put_bazel_ac :
      Server World → ChannelId → Bytes → RequestHeaders → Upload → Served codecs services
  unfolding put_named build_reference
  put_bazel_ac s channel hash headers upload = elim (parse_artifact codecs.hex algorithm hash) [
    | err error ↦ (s, plain 400, false)
    | ok artifact ↦
        done codecs services (put_named s channel (build_reference action_kind hash) headers upload)
  ]

  unfoldable pub put_bazel_cas :
      Server World → ChannelId → Bytes → RequestHeaders → Upload → Served codecs services
  unfolding publish_with publish_request cache_write_failure with_permit
  put_bazel_cas s channel hash headers upload = elim (parse_artifact codecs.hex algorithm hash) [
    | err error ↦ (s, plain 400, false)
    | ok artifact ↦ done codecs services (
        with_permit
          (publish_with codecs services cache_write_failure accepted
            (publish_request codecs channel (by_id artifact) headers durable identity) upload)
          s)
  ]

  unfoldable pub get_bazel_cas :
      Server World → ChannelId → Bytes → RequestHeaders → Bool → Bool → Served codecs services
  unfolding serve_artifact
  get_bazel_cas s channel hash headers head seek = elim (parse_artifact codecs.hex algorithm hash) [
    | err error ↦ (s, plain 400, false)
    | ok artifact ↦
        serve_artifact codecs.hex codecs.to_str services s channel artifact headers head seek
  ]

  -- The lookup's permit is dropped before the read takes its own.
  unfoldable pub serve_reference_artifact :
      Server World → ChannelId → Bytes → RequestHeaders → Bool → Bool → Served codecs services
  unfolding serve_artifact acquire_foreground release
  serve_reference_artifact s channel reference headers head seek =
      let (acquired, admitted) = acquire_foreground s in
      elim admitted [
        | false ↦ (acquired, busy_response, false)
        | true ↦ elim (services.resolve_reference acquired.world channel reference) [
          | err error ↦ (release acquired, plain 500, false)
          | ok none ↦ (release acquired, plain 404, false)
          | ok (some r) ↦
              serve_artifact codecs.hex codecs.to_str services (release acquired) channel r.artifact
                headers head seek
        ]
      ]

  unfoldable pub get_http_cache :
      Server World → ChannelId → Bytes → RequestHeaders → Bool → Bool → Served codecs services
  unfolding serve_reference_artifact build_reference
  get_http_cache s channel key headers head seek =
      serve_reference_artifact s channel (build_reference http_kind key) headers head seek

  unfoldable pub get_bazel_ac :
      Server World → ChannelId → Bytes → RequestHeaders → Bool → Bool → Served codecs services
  unfolding serve_reference_artifact build_reference
  get_bazel_ac s channel hash headers head seek =
      serve_reference_artifact s channel (build_reference action_kind hash) headers head seek
