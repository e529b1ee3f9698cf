-- ===== src/Channels.antt =====
-- src/channel/service.rs: `ChannelService`. Between two awaits other requests may change the
-- store, so an operation that awaits a gate takes the store before and after it.
pub mod Authorize
pub mod Deletion
use flywheel.Prelude.{
  ◌≡◌, Bool, true, false, ◌||◌, ◌&&◌, not, ℕ, ◌==◌, Option, none, some, List, [], ◌∷◌, filter,
  if◌then◌else◌,
}
use flywheel.Bytes.{Bytes, bytes_eq}
use flywheel.Storage.Ids.{
  ChannelId, default_channel, Access, open_access, token, is_protected, Lifecycle, active, deleting,
  ChannelRecord,
}
use flywheel.Storage.Errors.{MetadataError, already_exists, Result, ok, err, ◌>>=◌, map_err}
use flywheel.Storage.Metadata.{
  Libraries, channel_record, create_channel, store_channel, delete_channel_data,
  finish_channel_deletion, channel_records,
}
use flywheel.LocalFiles.Stage.{LocalError}

pub data ChannelError : Type 0 where
  not_found unauthorized is_deleting no_default_deletion invalid_default : ChannelError
  in_store : MetadataError → ChannelError
  in_files : LocalError → ChannelError

-- `ChannelGates`: the channels that have a gate. `gate` inserts, `forget` removes.
abbrev pub Gates : Type 0
Gates = List ChannelId

unfoldable pub gate : Gates → ChannelId → Gates
gate gates id = id ∷ filter (λ other. not (other == id)) gates

unfoldable pub forget : Gates → ChannelId → Gates
forget gates id = filter (λ other. not (other == id)) gates

-- `Lifecycle`'s derived equality, as `!= Lifecycle::Active` and `== Lifecycle::Deleting` use it.
abbrev pub is_active : Lifecycle → Bool
is_active active = true
is_active deleting = false

module _ (sha256 : Bytes → Bytes) where
  -- `TokenDigest::verify`
  unfoldable pub verify : Bytes → Bytes → Bool
  verify digest candidate = bytes_eq digest (sha256 candidate)

  unfoldable pub authorize_record : ChannelRecord → Option Bytes → Result {0} ChannelError Unit
  unfolding verify
  authorize_record r credential = by_access r.access credential
    where
      by_access : Access → Option Bytes → Result {0} ChannelError Unit
      by_access open_access credential = ok tt
      by_access (token digest) none = err unauthorized
      by_access (token digest) (some candidate) =
          if verify digest candidate then ok tt else err unauthorized

  -- `authorize`, for the record that was read.
  unfoldable pub authorize_found :
      Option Bytes → Option ChannelRecord → Result ChannelError ChannelRecord
  unfolding authorize_record
  authorize_found credential none = err not_found
  authorize_found credential (some r) = do
    _ ← authorize_record r credential
    if is_active r.state then ok r else err is_deleting

  module _ (lib : Libraries) where
    abbrev Db : Type 0
    Db = lib.database.Db

    -- What an operation leaves of the gates and the store, and its result.
    abbrev pub Outcome : Type 0 → Type 0
    Outcome A = Gates × Db × Result ChannelError A

    unfoldable pub authorize : Db → ChannelId → Option Bytes → Result ChannelError ChannelRecord
    unfolding authorize_found
    authorize db id credential = do
      found ← map_err in_store (channel_record lib db id)
      authorize_found credential found

    -- `authorize_with_lease`: the gate is taken between the two checks.
    unfoldable pub authorize_with_lease :
        Db → Db → Gates → ChannelId → Option Bytes → Gates × Result ChannelError ChannelRecord
    unfolding authorize gate
    authorize_with_lease before after gates id credential = elim (authorize before id credential) [
      | err error ↦ (gates, err error)
      | ok _ ↦ (gate gates id, authorize after id credential)
    ]

    -- A write of the store: an error leaves the store as it was.
    unfoldable pub stored : Gates → Db → Result MetadataError Db → Outcome Unit
    stored gates db (ok db') = (gates, db', ok tt)
    stored gates db (err error) = (gates, db, err (in_store error))

    -- `update_expiry`, for the record of a lease.
    unfoldable pub update_expiry : Gates → Db → ChannelRecord → ℕ → Outcome Unit
    unfolding stored
    update_expiry gates db lease expiry_seconds =
        stored gates db (store_channel lib db (record lease { expiry_seconds = expiry_seconds }))

    -- `delete`, up to the end of its lease.
    unfoldable pub begin_deletion : Db → Db → Gates → ChannelId → Option Bytes → Outcome Unit
    unfolding authorize_with_lease stored
    begin_deletion before after gates id credential =
        if id == default_channel
        then (gates, before, err no_default_deletion)
        else (let (gates', leased) = authorize_with_lease before after gates id credential in
            elim leased [
              | err error ↦ (gates', after, err error)
              | ok lease ↦
                  stored gates' after (store_channel lib after (record lease { state = deleting }))
            ])

    -- `finish_deletion`, run under the exclusive gate; `remove_channel` may fail.
    unfoldable pub finish_deletion :
        Db → Gates → ChannelId → Result {0} LocalError Unit → Outcome Unit
    unfolding forget
    finish_deletion db gates id remove_channel = elim (delete_channel_data lib db id) [
      | err error ↦ (gates, db, err (in_store error))
      | ok db' ↦ elim remove_channel [
        | err error ↦ (gates, db', err (in_files error))
        | ok _ ↦ elim (finish_channel_deletion lib db' id) [
          | err error ↦ (gates, db', err (in_store error))
          | ok db'' ↦ (forget gates id, db'', ok tt)
        ]
      ]
    ]

    -- The loop of `resume_deletions`, with how each `remove_channel` ends.
    unfoldable pub resume_all :
        Db → Gates → List ChannelRecord → (ChannelId → Result {0} LocalError Unit) → Outcome Unit
    unfolding gate finish_deletion
    resume_all db gates [] remove_channel = (gates, db, ok tt)
    resume_all db gates (r ∷ rest) remove_channel =
        let (gates', db', result) =
          finish_deletion db (gate gates r.id) r.id (remove_channel r.id) in
        elim result [
          | err error ↦ (gates', db', err error)
          | ok _ ↦ resume_all db' gates' rest remove_channel
        ]

    unfoldable pub resume_deletions :
        Db → Gates → (ChannelId → Result {0} LocalError Unit) → Outcome Unit
    unfolding resume_all
    resume_deletions db gates remove_channel = elim (channel_records lib db) [
      | err error ↦ (gates, db, err (in_store error))
      | ok found ↦ resume_all db gates (filter (λ r. not (is_active r.state)) found) remove_channel
    ]

    -- `register`, for the ID and the token that were generated.
    unfoldable pub register : Db → Gates → ChannelId → Option Bytes → ℕ → ℕ → Outcome ChannelRecord
    unfolding gate
    register db gates id secret expiry_seconds now =
        let r : ChannelRecord = record {
          id = id;
          access = elim secret [ none ↦ open_access | some t ↦ token (sha256 t) ];
          expiry_seconds = expiry_seconds;
          state = active;
          created_at = now;
        } in
        elim (create_channel lib db r) [
          | err error ↦ (gates, db, err (in_store error))
          | ok db' ↦ (gate gates id, db', ok r)
        ]

    -- The end of `ensure_default`: the default channel is open and active.
    unfoldable pub check_default : Db → Gates → ChannelRecord → Outcome Unit
    unfolding gate is_protected
    check_default db gates r =
        if is_protected r.access || not (is_active r.state)
        then (gates, db, err invalid_default)
        else (gate gates default_channel, db, ok tt)

    -- `ensure_default`; `raced` is the store at the read after a creation that lost a race.
    unfoldable pub ensure_default : Db → Db → Gates → ℕ → ℕ → Outcome Unit
    unfolding check_default
    ensure_default db raced gates expiry_seconds now =
        elim (channel_record lib db default_channel) [
          | err error ↦ (gates, db, err (in_store error))
          | ok (some r) ↦ check_default db gates r
          | ok none ↦
              let r : ChannelRecord = record {
                id = default_channel;
                access = open_access;
                expiry_seconds = expiry_seconds;
                state = active;
                created_at = now;
              } in
              elim (create_channel lib db r) [
                | ok db' ↦ check_default db' gates r
                | err already_exists ↦ elim (channel_record lib raced default_channel) [
                  | err error ↦ (gates, raced, err (in_store error))
                  | ok none ↦ (gates, raced, err invalid_default)
                  | ok (some found) ↦ check_default raced gates found
                ]
                | err error ↦ (gates, db, err (in_store error))
              ]
        ]
