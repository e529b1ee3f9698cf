-- ===== src/Channels/Authorize.antt =====
-- src/channel/service.rs: who is let into a channel, before and after its deletion begins.
use flywheel.Prelude.{
  ◌≡◌, refl, sym, ap, subst, ◌∙◌, ◌≢◌, ◌↔◌, inl, inr, true, false, ◌&&◌, ℕ, ◌==◌, Option, none,
  some, [], ◌∷◌, arith, Bool-cases,
}
use flywheel.Bytes.{Bytes, bytes_eq}
use flywheel.Bytes.Order.{bytes_eq_refl, bytes_eq_iff}
use flywheel.Storage.Ids.{
  ChannelId, default_channel, Access, open_access, token, Lifecycle, active, deleting,
  ChannelRecord,
}
use flywheel.Storage.Errors.{ok, Result-cases, >>=-eq-ok}
use flywheel.Storage.Records.{decode_record}
use flywheel.Storage.Database.{Contents, Family, channels, apply, family_eq}
use flywheel.Storage.Metadata.{
  Libraries, channel_record, store_channel, decode_found, get_cf, put_record,
}
use flywheel.Storage.Metadata.Queue.{get_cf-contents}
use flywheel.Storage.Metadata.Publish.{write_sync-contents, put_record_lem}
use flywheel.Channels.{
  Gates, is_active, verify, authorize_record, authorize_found, authorize, authorize_with_lease,
  stored, update_expiry, begin_deletion,
}

module _ (sha256 : Bytes → Bytes) where
  -- The credential opens the access: an open channel needs none, a protected one its token.
  abbrev pub Opens : Access → Option Bytes → Type 0
  Opens open_access credential = Unit
  Opens (token digest) none = ⊥
  Opens (token digest) (some candidate) = digest ≡ sha256 candidate

  authorize_record_iff :
      (r : ChannelRecord) (credential : Option Bytes)
      → (authorize_record sha256 r credential ≡ ok tt) ↔ Opens r.access credential
  unfolding authorize_record verify
  authorize_record_iff r credential = by_access r.access credential
    where
      by_access :
          (access : Access) (credential : Option Bytes)
          → (authorize_record sha256 (record r { access = access }) credential ≡ ok tt)
            ↔ Opens access credential
      by_access open_access credential = (λ _. tt, λ _. refl)
      by_access (token digest) none = (λ h. cc, λ b. absurd b)
      by_access (token digest) (some candidate) =
          ground (arith, bytes_eq_iff digest (sha256 candidate))

  is_active-eq : (state : Lifecycle) → is_active state ≡ true → state ≡ active
  is_active-eq active h = refl
  is_active-eq deleting h = cc

  authorize_found_lem :
      (credential : Option Bytes) (found r : ChannelRecord)
      → authorize_found sha256 credential (some found) ≡ ok r
      → (found ≡ r) × Opens r.access credential × (r.state ≡ active)
  unfolding authorize_found
  authorize_found_lem credential found r h =
      let (_, granted, last) = >>=-eq-ok (authorize_record sha256 found credential) _ h in
      elim (Bool-cases (is_active found.state)) [
        | inl running ↦
            let same : found ≡ r = ground arith in
            subst (λ x. (found ≡ x) × Opens x.access credential × (x.state ≡ active)) same
              (
                refl,
                (authorize_record_iff found credential).0 granted,
                is_active-eq found.state running,
              )
        | inr over ↦ absurd (ground arith)
      ]

  module _ (lib : Libraries) where
    abbrev pub Db : Type 0
    Db = lib.database.Db

    -- A request is let into a channel exactly if the channel's record is stored, its credential
    -- opens the record's access, and the channel is active.
    pub authorize_iff :
        (db : Db) (id : ChannelId) (credential : Option Bytes) (r : ChannelRecord)
        → (authorize sha256 lib db id credential ≡ ok r) ↔ (
            (channel_record lib db id ≡ ok (some r))
            × Opens r.access credential
            × (r.state ≡ active))
    unfolding authorize authorize_found
    authorize_iff db id credential r = (forth, back)
      where
        forth :
            authorize sha256 lib db id credential ≡ ok r
            → (channel_record lib db id ≡ ok (some r))
              × Opens r.access credential
              × (r.state ≡ active)
        forth h = elim (Result-cases (channel_record lib db id)) [
          | inr (_, e) ↦ absurd (ground arith)
          | inl (none, e) ↦ absurd (ground arith)
          | inl (some found, e) ↦
              let known : authorize_found sha256 credential (some found) ≡ ok r = ground arith in
              let (same, opens, running) = authorize_found_lem credential found r known in
              (e ∙ ap (λ x. ok (some x)) same, opens, running)
        ]

        back :
            (channel_record lib db id ≡ ok (some r))
              × Opens r.access credential
              × (r.state ≡ active)
            → authorize sha256 lib db id credential ≡ ok r
        back (e, opens, running) = rw (e, (authorize_record_iff r credential).1 opens, running) refl

    -- The store holds the record under its channel.
    abbrev pub Stored : Contents → ChannelRecord → Type 0
    Stored c r =
        (bytes : Bytes) × (c channels (lib.text.as_key r.id) ≡ some bytes)
        × (decode_record lib.channel_codec bytes ≡ ok r)

    store_channel-Stored :
        (db db' : Db) (r : ChannelRecord)
        → store_channel lib db r ≡ ok db'
        → Stored (lib.database.contents db') r
          × ((f : Family) (k : Bytes)
              → (family_eq channels f && bytes_eq (lib.text.as_key r.id) k) ≡ false
              → lib.database.contents db' f k ≡ lib.database.contents db f k)
    unfolding store_channel family_eq
    store_channel-Stored db db' r h =
        let (row, made, written) =
          >>=-eq-ok (put_record lib.channel_codec channels (lib.text.as_key r.id) r) _ h in
        let (bytes, shape, decodes) =
          put_record_lem lib lib.channel_codec channels (lib.text.as_key r.id) r row made in
        let batch =
          write_sync-contents lib db db' (row ∷ []) written
          ∙ ap (λ op. apply (op ∷ []) (lib.database.contents db)) shape in
        (
          (
            bytes,
            ap (λ (c : Contents). c channels (lib.text.as_key r.id)) batch
                ∙ rw (bytes_eq_refl (lib.text.as_key r.id)) refl,
            decodes,
          ),
          λ f k other. ap (λ (c : Contents). c f k) batch ∙ rw other refl,
        )

    -- A record that is stored is the one that a read finds.
    channel_record-Stored :
        (db : Db) (r found : ChannelRecord)
        → Stored (lib.database.contents db) r
        → channel_record lib db r.id ≡ ok (some found)
        → found ≡ r
    unfolding channel_record decode_found
    channel_record-Stored db r found (bytes, there, decodes) h =
        elim (Result-cases (get_cf lib db channels (lib.text.as_key r.id))) [
          | inr (_, e) ↦ absurd (ground arith)
          | inl (v, e) ↦
              let is_there : v ≡ some bytes =
                get_cf-contents lib db channels (lib.text.as_key r.id) v e ∙ there in
              ground arith
        ]

    -- An update of the expiry that succeeds overwrites the stored record with its lease's, whatever
    -- was stored, with the new expiry.
    pub update_expiry-Stored :
        (gates : Gates) (db : Db) (lease : ChannelRecord) (expiry_seconds : ℕ)
        → let (gates', db', result) = update_expiry sha256 lib gates db lease expiry_seconds in
          result ≡ ok tt
          → Stored (lib.database.contents db') (record lease { expiry_seconds = expiry_seconds })
    unfolding update_expiry stored
    update_expiry-Stored gates db lease expiry_seconds =
        elim (Result-cases
          (store_channel lib db (record lease { expiry_seconds = expiry_seconds }))) [
            | inl (db', e) ↦
                rw (e, stored)
                  (λ _.
                    (store_channel-Stored db db' (record lease { expiry_seconds = expiry_seconds })
                      e).0)
            | inr (_, e) ↦ rw (e, stored) (λ h. absurd (ground arith))
          ]

    -- Each channel record stands under its own channel.
    abbrev pub Keyed : Contents → Type 0
    Keyed c =
        (id : ChannelId) (r : ChannelRecord) (bytes : Bytes)
        → c channels (lib.text.as_key id) ≡ some bytes
        → decode_record lib.channel_codec bytes ≡ ok r
        → r.id ≡ id

    channel_record-Keyed :
        (db : Db) (id : ChannelId) (r : ChannelRecord)
        → Keyed (lib.database.contents db)
        → channel_record lib db id ≡ ok (some r)
        → r.id ≡ id
    unfolding channel_record decode_found
    channel_record-Keyed db id r keyed h =
        elim (Result-cases (get_cf lib db channels (lib.text.as_key id))) [
          | inr (_, e) ↦ absurd (ground arith)
          | inl (none, e) ↦ absurd (ground arith)
          | inl (some bytes, e) ↦
              keyed id r bytes
                (sym (get_cf-contents lib db channels (lib.text.as_key id) (some bytes) e))
                (elim (Result-cases (decode_record lib.channel_codec bytes)) [
                  | inl (_, f) ↦ ground arith
                  | inr (_, f) ↦ absurd (ground arith)
                ])
        ]

    locked :
        (after db' : Db) (id : ChannelId) (lease : ChannelRecord)
        → lease.id ≡ id
        → store_channel lib after (record lease { state = deleting }) ≡ ok db'
        → (other : Option Bytes) (r : ChannelRecord) → authorize sha256 lib db' id other ≢ ok r
    locked after db' id lease same e other r h =
        let (there, _, running) = (authorize_iff db' id other r).0 h in
        let closed = record lease { state = deleting } in
        let found =
          channel_record-Stored db' closed r (store_channel-Stored after db' closed e).0
            (subst (λ x. channel_record lib db' x ≡ ok (some r)) (sym same) there) in
        let state : r.state ≡ deleting = ap (λ x. x.state) found in cc

    -- Where each channel record stands under its own channel, a deletion begins only for a channel
    -- that is not the default one, and for a request that is let in under the gate; and in the
    -- store that it leaves nobody is let into the channel.
    pub begin_deletion-locks :
        (before after : Db) (gates : Gates) (id : ChannelId) (credential : Option Bytes)
        → Keyed (lib.database.contents after)
        → let (gates', db', result) = begin_deletion sha256 lib before after gates id credential in
          result ≡ ok tt
          → (id ≢ default_channel)
            × ((r : ChannelRecord) × (authorize sha256 lib after id credential ≡ ok r))
            × ((other : Option Bytes) (r : ChannelRecord)
                → authorize sha256 lib db' id other ≢ ok r)
    unfolding begin_deletion authorize_with_lease stored
    begin_deletion-locks before after gates id credential keyed =
        elim (Bool-cases (id == default_channel)) [
          | inl is_default ↦ rw is_default (λ h. absurd (ground arith))
          | inr other_channel ↦ elim (Result-cases (authorize sha256 lib before id credential)) [
            | inr (_, e) ↦ rw (other_channel, e, authorize_with_lease) (λ h. absurd (ground arith))
            | inl (_, b) ↦ elim (Result-cases (authorize sha256 lib after id credential)) [
              | inr (_, e) ↦
                  rw (other_channel, b, authorize_with_lease, e) (λ h. absurd (ground arith))
              | inl (lease, a) ↦
                  elim (Result-cases
                    (store_channel lib after (record lease { state = deleting }))) [
                      | inr (_, e) ↦
                          rw (other_channel, b, authorize_with_lease, a, e, stored)
                            (λ h. absurd (ground arith))
                      | inl (db', e) ↦
                          let (there, _, _) = (authorize_iff after id credential lease).0 a in
                          let same = channel_record-Keyed after id lease keyed there in
                          rw (other_channel, b, authorize_with_lease, a, e, stored)
                            (λ _. (ground arith, (lease, refl), locked after db' id lease same e))
                    ]
            ]
          ]
        ]
