-- ===== src/Http/Channels.antt =====
-- src/transport/http/mod.rs: the channel of a request, and the handlers that manage channels.
use flywheel.Prelude.{ℕ, Bool, false, Option, none, some, [], ◌++◌, ◌==◌, if◌then◌else◌}
use flywheel.Bytes.{Bytes, codes}
use flywheel.Storage.Ids.{ChannelId, default_channel, ChannelRecord, is_protected}
use flywheel.Storage.Errors.{Result, ok, err}
use flywheel.Http.{Response, plain, json, channel_view, Document}
use flywheel.Http.Server.{Services, Server}
use flywheel.Http.Failures.{api_error, invalid_channel, channel_failure, channel_denied, credential}
use flywheel.Http.Data.{Codecs}
use flywheel.Identity.{from_str}

pub record ChannelContext : Type 0 where
  pub channel : ChannelId
  pub scope : Option ChannelId
  pub access_control : Bool

abbrev pub invalid_policy : Response
invalid_policy = api_error 400 (codes "invalid_policy") (codes "expiry must be positive")

abbrev pub invalid_patch : Response
invalid_patch = api_error 400 (codes "invalid_patch") (codes "only expiry_seconds may be changed")

abbrev pub value_or {ℓ} : {A : Type ℓ} → Option A → A → A
value_or none other = other
value_or (some value) other = value

module _ (codecs : Codecs) where
  -- `ChannelContext::route_prefix`
  unfoldable pub route_prefix : ChannelContext → Bytes
  route_prefix context = elim context.scope [
    | none ↦ []
    | some channel ↦ codes "/channels/" ++ codecs.ulid_text channel
  ]

  -- `ChannelView::from_record`
  unfoldable pub view : ChannelRecord → Option Bytes → Document
  unfolding is_protected
  view r token =
      channel_view (codecs.ulid_text r.id) token (is_protected r.access) r.expiry_seconds r.state

  unfoldable pub view_response : ℕ → ChannelRecord → Option Bytes → Response
  unfolding view
  view_response status r token = record {
    status = status;
    headers = [];
    body = json (view r token);
  }

  unfoldable pub channel_of : Bytes → Option ChannelId
  channel_of = from_str codecs.parse_ulid codecs.ulid_text

  unfoldable pub credential_of : Option Bytes → Option Bytes
  credential_of = credential codecs.to_str codecs.decode

  module _ (services : Services) where
    open services use {World}

    unfoldable pub authorize_channel :
        Server World → Bytes → Option Bytes → Server World × Result Response ChannelRecord
    unfolding channel_of credential_of channel_denied
    authorize_channel s channel authorization = elim (channel_of channel) [
      | none ↦ (s, err invalid_channel)
      | some id ↦ elim (services.authorize s.world id (credential_of authorization)) [
        | ok r ↦ (s, ok r)
        | err error ↦ let (denied, response) = channel_denied s error in (denied, err response)
      ]
    ]

    unfoldable pub channel_lease :
        Server World → Bytes → Option Bytes → Server World × Result Response ChannelRecord
    unfolding channel_of credential_of channel_denied
    channel_lease s channel authorization = elim (channel_of channel) [
      | none ↦ (s, err invalid_channel)
      | some id ↦
          let (world, leased) =
            services.authorize_with_lease s.world id (credential_of authorization) in
          let after = record s { world = world } in
          elim leased [
            | ok r ↦ (after, ok r)
            | err error ↦
                let (denied, response) = channel_denied after error in (denied, err response)
          ]
    ]

    -- `ChannelContext::from_request_parts`; the capture is absent on a bare route.
    unfoldable pub from_request_parts :
        Server World → Option Bytes → Option Bytes → Server World × Result Response ChannelContext
    unfolding authorize_channel is_protected
    from_request_parts s none authorization =
        (s, ok (record { channel = default_channel; scope = none; access_control = false }))
    from_request_parts s (some channel) authorization =
        let (after, authorized) = authorize_channel s channel authorization in
        (
          after,
          elim authorized [
            | err response ↦ err response
            | ok r ↦ ok (record {
              channel = r.id;
              scope = some r.id;
              access_control = is_protected r.access;
            })
          ],
        )

    unfoldable pub register_channel :
        ℕ → Server World → Option Bool → Option ℕ → Server World × Response
    unfolding channel_failure view_response
    register_channel default_expiry s access_control expiry =
        let expiry_seconds = value_or expiry default_expiry in
        if expiry_seconds == 0
        then (s, invalid_policy)
        else (let (world, issued) =
              services.register s.world (value_or access_control false) expiry_seconds in
            (
              record s { world = world },
              elim issued [
                | ok (r, token) ↦ view_response 201 r token
                | err error ↦ channel_failure error
              ],
            ))

    unfoldable pub get_channel : Server World → Bytes → Option Bytes → Server World × Response
    unfolding authorize_channel view_response
    get_channel s channel authorization =
        let (after, authorized) = authorize_channel s channel authorization in
        (after, elim authorized [ ok r ↦ view_response 200 r none | err response ↦ response ])

    -- The payload, or that it does not parse.
    unfoldable pub patch_channel :
        Server World → Bytes → Option Bytes → Option (Option ℕ) → Server World × Response
    unfolding channel_lease channel_failure view_response
    patch_channel s channel authorization none = (s, invalid_patch)
    patch_channel s channel authorization (some expiry) =
        let (leased, lease) = channel_lease s channel authorization in
        elim lease [
          | err response ↦ (leased, response)
          | ok r ↦
              let expiry_seconds = value_or expiry r.expiry_seconds in
              if expiry_seconds == 0
              then (leased, invalid_policy)
              else (let (world, updated) = services.update_expiry leased.world r expiry_seconds in
                  (
                    record leased { world = world },
                    elim updated [
                      | ok changed ↦ view_response 200 changed none
                      | err error ↦ channel_failure error
                    ],
                  ))
        ]

    unfoldable pub delete_channel : Server World → Bytes → Option Bytes → Server World × Response
    unfolding channel_of credential_of channel_failure
    delete_channel s channel authorization = elim (channel_of channel) [
      | none ↦ (s, invalid_channel)
      | some id ↦
          let (world, deleted) = services.delete_channel s.world id (credential_of authorization) in
          (
            record s { world = world },
            elim deleted [ ok _ ↦ plain 202 | err error ↦ channel_failure error ],
          )
    ]
