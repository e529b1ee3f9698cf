-- ===== src/Channels/Deletion.antt =====
-- src/channel/service.rs: `finish_deletion` and the recovery of deletions that stopped.
use flywheel.Prelude.{
  ◌≡◌, refl, ap, subst, inl, inr, Bool, false, ◌||◌, ◌&&◌, none, List, [], ◌∷◌, arith,
  if◌then◌else◌,
}
use flywheel.Bytes.{Bytes, bytes_eq, starts_with}
use flywheel.Storage.Ids.{ChannelId, ChannelRecord}
use flywheel.Storage.Errors.{Result, ok, err, Result-cases}
use flywheel.Storage.Database.{Contents, Family, channels, delete, family_eq}
use flywheel.Storage.Metadata.{Libraries, delete_channel_data, finish_channel_deletion}
use flywheel.Storage.Metadata.Deletion.{holds_data, delete_channel_data_lem}
use flywheel.Storage.Metadata.Publish.{write_sync-contents}
use flywheel.LocalFiles.Stage.{LocalError}
use flywheel.Channels.{ChannelError, Gates, gate, finish_deletion, resume_all}

module _ (sha256 : Bytes → Bytes) (lib : Libraries) where
  -- A row of the channel: of its data, or its record.
  abbrev pub is_row_of : ChannelId → Family → Bytes → Bool
  is_row_of id f k =
      (holds_data f && starts_with k (lib.text.as_key id))
      || (family_eq channels f && bytes_eq (lib.text.as_key id) k)

  finish_channel_deletion_lem :
      (db db' : lib.database.Db) (id : ChannelId) (f : Family) (k : Bytes)
      → finish_channel_deletion lib db id ≡ ok db'
      → lib.database.contents db' f k ≡ (
          if family_eq channels f && bytes_eq (lib.text.as_key id) k
          then none
          else lib.database.contents db f k)
  unfolding finish_channel_deletion
  finish_channel_deletion_lem db db' id f k h =
      ap (λ (c : Contents). c f k)
        (write_sync-contents lib db db' (delete channels (lib.text.as_key id) ∷ []) h)

  -- What a deletion that ran to its end, or stopped, leaves of the contents: all rows of the channel
  -- are gone and no other, or the channel's record and the rows of others are as before.
  abbrev pub Finished : ChannelId → Contents → Contents → Result {0} ChannelError Unit → Type 0
  Finished id c c' (ok _) =
      (f : Family) (k : Bytes) → c' f k ≡ (if is_row_of id f k then none else c f k)
  Finished id c c' (err _) =
      ((k : Bytes) → c' channels k ≡ c channels k)
      × ((f : Family) (k : Bytes) → is_row_of id f k ≡ false → c' f k ≡ c f k)

  -- A deletion that succeeds removes every row of the channel, its record included, and no other
  -- row. One that fails, at any of its steps, leaves all channel records, so that it is found and
  -- resumed after a restart, and all rows of others.
  pub finish_deletion-Finished :
      (db : lib.database.Db) (gates : Gates) (id : ChannelId)
      (remove_channel : Result {0} LocalError Unit)
      → let (gates', db', result) = finish_deletion sha256 lib db gates id remove_channel in
        Finished id (lib.database.contents db) (lib.database.contents db') result
  unfolding finish_deletion
  finish_deletion-Finished db gates id remove_channel =
      elim (Result-cases (delete_channel_data lib db id)) [
        | inr (_, e) ↦ rw (e, finish_deletion) (λ k. refl, λ f k _. refl)
        | inl (db', e) ↦
            let emptied : (f : Family) (k : Bytes)
                → lib.database.contents db' f k ≡ (
                    if holds_data f && starts_with k (lib.text.as_key id)
                    then none
                    else lib.database.contents db f k) =
              λ f k. delete_channel_data_lem lib db db' id f k e in
            let halfway : Finished id (lib.database.contents db) (lib.database.contents db')
                (err ChannelError.not_found) =
              (λ k. emptied channels k, λ f k other. ground (arith, emptied f k)) in
            elim (Result-cases remove_channel) [
              | inr (_, f) ↦ rw (e, finish_deletion, f) halfway
              | inl (_, d) ↦ elim (Result-cases (finish_channel_deletion lib db' id)) [
                | inr (_, g) ↦ rw (e, finish_deletion, d, g) halfway
                | inl (db'', g) ↦
                    rw (e, finish_deletion, d, g)
                      (λ f k.
                        ground (arith, emptied f k, finish_channel_deletion_lem db' db'' id f k g))
              ]
            ]
      ]

  -- A row of one of the channels.
  abbrev pub is_row_of_any : List ChannelRecord → Family → Bytes → Bool
  is_row_of_any [] f k = false
  is_row_of_any (r ∷ rest) f k = is_row_of r.id f k || is_row_of_any rest f k

  abbrev pub Resumed :
      List ChannelRecord → Contents → Contents → Result {0} ChannelError Unit → Type 0
  Resumed found c c' (ok _) =
      (f : Family) (k : Bytes) → c' f k ≡ (if is_row_of_any found f k then none else c f k)
  Resumed found c c' (err _) =
      (f : Family) (k : Bytes) → is_row_of_any found f k ≡ false → c' f k ≡ c f k

  Resumed-ok :
      (r : ChannelRecord) (rest : List ChannelRecord) (c c' c'' : Contents)
      (result : Result {0} ChannelError Unit)
      → Finished r.id c c' (ok tt)
      → Resumed rest c' c'' result
      → Resumed (r ∷ rest) c c'' result
  Resumed-ok r rest c c' c'' (ok _) one more = λ f k. ground (arith, one f k, more f k)
  Resumed-ok r rest c c' c'' (err _) one more = λ f k other. ground (arith, one f k, more f k)

  -- The loop of the startup recovery, if it ends without an error, has removed exactly the rows of
  -- the channels that it is given; where it stops at an error, it has removed no row of another
  -- one.
  pub resume_all-Resumed :
      (db : lib.database.Db) (gates : Gates) (found : List ChannelRecord)
      (remove_channel : ChannelId → Result {0} LocalError Unit)
      → let (gates', db', result) = resume_all sha256 lib db gates found remove_channel in
        Resumed found (lib.database.contents db) (lib.database.contents db') result
  unfolding resume_all
  resume_all-Resumed db gates [] remove_channel = λ f k. refl
  resume_all-Resumed db gates (r ∷ rest) remove_channel =
      let (gates', db', result) =
        finish_deletion sha256 lib db (gate gates r.id) r.id (remove_channel r.id) in
      let one = finish_deletion-Finished db (gate gates r.id) r.id (remove_channel r.id) in
      elim (Result-cases result) [
        | inl (tt, e) ↦
            let done : Finished r.id (lib.database.contents db) (lib.database.contents db')
                (ok tt) =
              subst (λ x. Finished r.id (lib.database.contents db) (lib.database.contents db') x) e
                one in
            rw (e, resume_all)
              (Resumed-ok r rest _ _ _ _ done (resume_all-Resumed db' gates' rest remove_channel))
        | inr (error, e) ↦
            let stopped : Finished r.id (lib.database.contents db) (lib.database.contents db')
                (err error) =
              subst (λ x. Finished r.id (lib.database.contents db) (lib.database.contents db') x) e
                one in
            rw (e, resume_all) (λ f k other. stopped.1 f k (ground arith))
      ]
