-- ===== src/Http/Failures.antt =====
-- src/transport/http/mod.rs: the answers to failures, and the credentials of a request.
use flywheel.Prelude.{ℕ, ◌+◌, Bool, true, false, Option, none, some, [], ◌∷◌, if◌then◌else◌}
use flywheel.Bytes.{Bytes, codes, starts_with}
use flywheel.Text.{strip_prefix, split_once}
use flywheel.LocalFiles.Stage.{out_of_space, digest_mismatch, too_large}
use flywheel.Cache.Publication.{CacheError, local, missing_channel, channel_deleting}
use flywheel.Channels.{ChannelError, not_found, unauthorized, is_deleting, no_default_deletion}
use flywheel.Http.{www_authenticate, json, error_body, Response, plain}
use flywheel.Http.Server.{Server, insufficient_storage}
use flywheel.Http.Serve.{header_text}

abbrev pub api_error : ℕ → Bytes → Bytes → Response
api_error status code message = record {
  status = status;
  headers = [];
  body = json (error_body code message);
}

abbrev pub invalid_channel : Response
invalid_channel = api_error 400 (codes "invalid_channel") (codes "channel identifier is invalid")

abbrev pub channel_not_found : Response
channel_not_found = api_error 404 (codes "channel_not_found") (codes "channel does not exist")

unfoldable pub channel_failure : ChannelError → Response
channel_failure not_found = channel_not_found
channel_failure is_deleting = channel_not_found
channel_failure unauthorized =
    record (api_error 401 (codes "unauthorized") (codes "channel credentials are required")) {
      headers = (www_authenticate, codes "Bearer realm=\"flywheel\"") ∷ [];
    }
channel_failure no_default_deletion =
    api_error 409 (codes "default_channel") (codes "the default channel cannot be deleted")
channel_failure _ = api_error 500 (codes "internal") (codes "channel operation failed")

abbrev is_unauthorized : ChannelError → Bool
is_unauthorized unauthorized = true
is_unauthorized _ = false

module _ {World : Type 0} where
  -- `channel_denied`: a wrong credential is counted.
  unfoldable pub channel_denied : Server World → ChannelError → Server World × Response
  unfolding channel_failure
  channel_denied s error = (
    if is_unauthorized error
        then record s {
          metrics = record s.metrics {
            authorization_denials = s.metrics.authorization_denials + 1;
          };
        }
        else s,
    channel_failure error,
  )

  unfoldable pub cache_write_failure : Server World → CacheError → Server World × Response
  cache_write_failure s (local out_of_space) = (
    record s {
      metrics = record s.metrics { raw_pressure_errors = s.metrics.raw_pressure_errors + 1 };
    },
    insufficient_storage,
  )
  cache_write_failure s (local digest_mismatch) = (s, plain 409)
  cache_write_failure s (local too_large) = (s, plain 413)
  cache_write_failure s channel_deleting = (s, plain 404)
  cache_write_failure s missing_channel = (s, plain 404)
  cache_write_failure s _ = (s, plain 500)

  unfoldable pub cache_write_failure_with_bypass :
      Server World → CacheError → Server World × Response
  unfolding cache_write_failure
  cache_write_failure_with_bypass s (local out_of_space) = (
    record s {
      metrics = record s.metrics { build_cache_bypasses = s.metrics.build_cache_bypasses + 1 };
    },
    plain 200,
  )
  cache_write_failure_with_bypass s error = cache_write_failure s error

-- The schemes of a credential.
abbrev bearer_scheme : Bytes
bearer_scheme = codes "Bearer "

abbrev basic_scheme : Bytes
basic_scheme = codes "Basic "

abbrev token_prefix : Bytes
token_prefix = codes "flywheel_"

-- The password of `user:password`.
unfoldable pub password : Option Bytes → Option Bytes
password none = none
password (some decoded) = elim (split_once 58 decoded) [
  | none ↦ none
  | some (user, secret) ↦ some secret
]

-- `credential`; `decode` is base64's decoder, followed by the check for UTF-8.
module _ (to_str decode : Bytes → Option Bytes) where
  unfoldable pub credential : Option Bytes → Option Bytes
  unfolding password
  credential authorization = elim (header_text to_str authorization) [
    | none ↦ none
    | some text ↦ elim (strip_prefix bearer_scheme text) [
      | some token ↦ some token
      | none ↦ elim (strip_prefix basic_scheme text) [
        | some encoded ↦ password (decode encoded)
        | none ↦ if starts_with text token_prefix then some text else none
      ]
    ]
  ]
