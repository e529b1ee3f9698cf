-- ===== src/Http/Data.antt =====
-- src/transport/http/mod.rs: the handlers of the data routes, behind the channel's context.
use flywheel.Prelude.{ℕ, Bool, false, Option, none, some, [], ◌∷◌, ◌++◌}
use flywheel.Bytes.{Bytes, codes}
use flywheel.Text.{parse_u64}
use flywheel.Storage.Ids.{
  ChannelId, ArtifactId, StoredEncoding, identity, ReferenceRecord, Durability, durable,
}
use flywheel.Storage.Errors.{Result, ok, err}
use flywheel.Cache.Publication.{
  CacheError, missing_channel, channel_deleting, Publication, is_created, is_existing,
}
use flywheel.Cache.Requests.{PublicationTarget, by_id, PublishRequest}
use flywheel.Http.{Response, plain, json, artifact_binding}
use flywheel.Http.Server.{Services, Server, with_permit}
use flywheel.Http.Serve.{RequestHeaders, header_text, serve_artifact}
use flywheel.Http.Failures.{api_error, channel_not_found, cache_write_failure}
use flywheel.Identity.{Hex, algorithm, parse_artifact, parse_reference}

-- The libraries that read and write texts.
pub record Codecs : Type 0 where
  pub hex : Hex
  -- `HeaderValue::to_str`
  pub to_str : Bytes → Option Bytes
  -- base64, checked to be UTF-8
  pub decode : Bytes → Option Bytes
  -- `Ulid::from_string`, and the canonical text of a ULID
  pub parse_ulid : Bytes → Option ChannelId
  pub ulid_text : ChannelId → Bytes

-- `build_reference`
unfoldable pub build_reference : Bytes → Bytes → Bytes
build_reference kind key = codes "build:" ++ (kind ++ 58 ∷ key)

abbrev pub http_kind : Bytes
http_kind = codes "http"

abbrev pub action_kind : Bytes
action_kind = codes "bazel-ac"

abbrev pub invalid_reference : Response
invalid_reference = api_error 400 (codes "invalid_reference") (codes "reference is not URL-safe")

abbrev pub invalid_artifact : Response
invalid_artifact = api_error 400 (codes "invalid_artifact") (codes "artifact identity is invalid")

-- How the answer to a reference operation fails.
unfoldable pub reference_failure : Bytes → CacheError → Response
reference_failure message channel_deleting = channel_not_found
reference_failure message missing_channel = channel_not_found
reference_failure message _ = api_error 500 (codes "internal") message

-- `put_artifact` tells a new body from one that was there.
unfoldable pub artifact_status : Publication → Response
artifact_status publication = elim publication.outcome [
  | is_created ↦ plain 201
  | is_existing ↦ plain 204
]

abbrev pub accepted : Publication → Response
accepted publication = plain 200

module _ (codecs : Codecs) where
  -- `transport::content_length`
  unfoldable pub content_length_of : RequestHeaders → Option ℕ
  content_length_of headers = elim (header_text codecs.to_str headers.content_length) [
    | none ↦ none
    | some text ↦ parse_u64 text
  ]

  unfoldable pub publish_request :
      ChannelId → PublicationTarget → RequestHeaders → Durability → StoredEncoding → PublishRequest
  unfolding content_length_of
  publish_request channel target headers durability encoding = record {
    channel = channel;
    target = target;
    content_type = header_text codecs.to_str headers.content_type;
    content_length = content_length_of headers;
    durability = durability;
    encoding = encoding;
  }

  module _ (services : Services) where
    open services use {World, Upload}

    -- What a handler leaves: the server, the response, and whether its body keeps a permit.
    abbrev pub Served : Type 0
    Served = Server World × Response × Bool

    abbrev pub done : Server World × Response → Served
    done (s, response) = (s, response, false)

    -- A publication, with the answers to its success and to its failure.
    unfoldable pub publish_with :
        (Server World → CacheError → Server World × Response)
        → (Publication → Response)
        → PublishRequest
        → Upload
        → Server World
        → Server World × Response
    publish_with failed succeeded request upload s =
        let (world, result) = services.publish s.world request upload in
        elim result [
          | ok publication ↦ (record s { world = world }, succeeded publication)
          | err error ↦ failed (record s { world = world }) error
        ]

    unfoldable pub put_artifact :
        Server World → ChannelId → Bytes → Bytes → RequestHeaders → Upload → Served
    unfolding publish_with publish_request artifact_status cache_write_failure with_permit
    put_artifact s channel name digest headers upload =
        elim (parse_artifact codecs.hex name digest) [
          | err error ↦ (s, plain 400, false)
          | ok artifact ↦ done (
              with_permit
                (publish_with cache_write_failure artifact_status
                  (publish_request channel (by_id artifact) headers durable identity) upload)
                s)
        ]

    unfoldable pub get_artifact :
        Server World → ChannelId → Bytes → Bytes → RequestHeaders → Bool → Bool → Served
    get_artifact s channel name digest headers head seek =
        elim (parse_artifact codecs.hex name digest) [
          | err error ↦ (s, plain 400, false)
          | ok artifact ↦
              serve_artifact codecs.hex codecs.to_str services s channel artifact headers head seek
        ]

    unfoldable pub bind_work :
        ChannelId → Bytes → ArtifactId → Server World → Server World × Response
    unfolding reference_failure
    bind_work channel reference artifact s =
        let (world, result) = services.bind_reference s.world channel reference artifact in
        (
          record s { world = world },
          elim result [
            | ok _ ↦ plain 204
            | err error ↦ reference_failure (codes "reference update failed") error
          ],
        )

    unfoldable pub put_reference : Server World → ChannelId → Bytes → Bytes → Bytes → Served
    unfolding bind_work with_permit
    put_reference s channel reference name digest = elim (parse_reference reference) [
      | none ↦ (s, invalid_reference, false)
      | some parsed ↦ elim (parse_artifact codecs.hex name digest) [
        | err error ↦ (s, invalid_artifact, false)
        | ok artifact ↦ done (with_permit (bind_work channel parsed artifact) s)
      ]
    ]

    -- The answer to a lookup.
    unfoldable pub resolved : Result CacheError (Option ReferenceRecord) → Response
    resolved (ok (some r)) = record {
      status = 200;
      headers = [];
      body = json (artifact_binding algorithm (codecs.hex.encode r.artifact.digest));
    }
    resolved (ok none) =
        api_error 404 (codes "reference_not_found") (codes "reference does not exist")
    resolved (err error) = api_error 500 (codes "internal") (codes "reference lookup failed")

    unfoldable pub lookup_work : ChannelId → Bytes → Server World → Server World × Response
    unfolding resolved
    lookup_work channel reference s =
        (s, resolved (services.resolve_reference s.world channel reference))

    unfoldable pub get_reference : Server World → ChannelId → Bytes → Served
    unfolding lookup_work with_permit
    get_reference s channel reference = elim (parse_reference reference) [
      | none ↦ (s, invalid_reference, false)
      | some parsed ↦ done (with_permit (lookup_work channel parsed) s)
    ]

    unfoldable pub delete_work : ChannelId → Bytes → Server World → Server World × Response
    unfolding reference_failure
    delete_work channel reference s =
        let (world, result) = services.delete_reference s.world channel reference in
        (
          record s { world = world },
          elim result [
            | ok _ ↦ plain 204
            | err error ↦ reference_failure (codes "reference deletion failed") error
          ],
        )

    unfoldable pub delete_reference : Server World → ChannelId → Bytes → Served
    unfolding delete_work with_permit
    delete_reference s channel reference = elim (parse_reference reference) [
      | none ↦ (s, invalid_reference, false)
      | some parsed ↦ done (with_permit (delete_work channel parsed) s)
    ]
