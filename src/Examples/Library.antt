-- ===== src/Examples/Library.antt =====
-- A library that the store can run on: a database that is its own contents, and codecs that write
-- a record's fields.
use flywheel.Prelude.{◌≡◌, refl, ap, sym, Option, none, some, [], ◌∷◌, replicate, arith}
use flywheel.Bytes.{Bytes}
use flywheel.Storage.Ids.{
  UlidText, StoredEncoding, identity, zstd, ArtifactMetadata, ReferenceRecord, Access, open_access,
  token, Lifecycle, active, deleting, ChannelRecord,
}
use flywheel.Storage.Errors.{Result, ok}
use flywheel.Storage.Database.{Database, Contents, apply}
use flywheel.Storage.Metadata.{Libraries}

abbrev pub example_text : UlidText
example_text = record {
  as_key = λ c. c ∷ replicate 25 48;
  as_key_length = λ c. refl;
  as_key_inj = λ c d e. ap (λ (l : Bytes). elim l [ [] ↦ 0 | x ∷ xs ↦ x ]) e;
  front = λ c. c ∷ replicate 24 48;
  last = λ c. 48;
  as_key_split = λ c. refl;
  last_ascii = λ c. omega arith;
}

pub ok_inj : {A : Type 0} {a b : A} (e : Path (Result Bytes A) (ok a) (ok b)) → a ≡ b
ok_inj e = ground (arith, e)

abbrev pub example_database : Database
example_database = record {
  Db = Contents;
  contents = λ db. db;
  get = λ db f k. ok (db f k);
  write = λ db sync batch. ok (apply batch db);
  iterate = λ db f k. [];
  get_contents = λ db f k v e. sym (ok_inj e);
  write_contents = λ db db' sync batch e. sym (ok_inj e);
}

abbrev pub artifact_fields : ArtifactMetadata → Option Bytes
artifact_fields m = elim m.content_type [
  | some _ ↦ none
  | none ↦ elim m.encoding [
    | zstd ↦ none
    | identity ↦ some (m.content_len ∷ m.created_at ∷ m.eligible_at ∷ m.stored_len ∷ [])
  ]
]

abbrev pub artifact_of : Bytes → Option ArtifactMetadata
artifact_of (len ∷ at ∷ due ∷ stored ∷ []) = some record {
  content_len = len;
  content_type = none;
  created_at = at;
  eligible_at = due;
  stored_len = stored;
  encoding = identity;
}
artifact_of _ = none

pub artifact_round_trip :
    (m : ArtifactMetadata) (payload : Bytes)
    → artifact_fields m ≡ some payload
    → artifact_of payload ≡ some m
artifact_round_trip m payload h = by_fields m.content_type m.encoding payload h
  where
    by_fields :
        (content_type : Option Bytes) (encoding : StoredEncoding) (payload : Bytes)
        → artifact_fields (record m { content_type = content_type; encoding = encoding })
          ≡ some payload
        → artifact_of payload ≡ some (record m { content_type = content_type; encoding = encoding })
    by_fields (some _) encoding payload h = cc
    by_fields none zstd payload h = cc
    by_fields none identity payload h =
        let same : (m.content_len ∷ m.created_at ∷ m.eligible_at ∷ m.stored_len ∷ []) ≡ payload =
          ground arith in
        ap artifact_of (sym same)

abbrev pub channel_fields : ChannelRecord → Option Bytes
channel_fields r = elim r.access [
  | token _ ↦ none
  | open_access ↦ elim r.state [
    | active ↦ some (r.id ∷ r.expiry_seconds ∷ r.created_at ∷ [])
    | deleting ↦ some (r.id ∷ r.expiry_seconds ∷ r.created_at ∷ 0 ∷ [])
  ]
]

abbrev pub channel_of : Bytes → Option ChannelRecord
channel_of (id ∷ expiry ∷ at ∷ []) = some record {
  id = id;
  access = open_access;
  expiry_seconds = expiry;
  state = active;
  created_at = at;
}
channel_of (id ∷ expiry ∷ at ∷ _ ∷ []) = some record {
  id = id;
  access = open_access;
  expiry_seconds = expiry;
  state = deleting;
  created_at = at;
}
channel_of _ = none

pub channel_round_trip :
    (r : ChannelRecord) (payload : Bytes)
    → channel_fields r ≡ some payload
    → channel_of payload ≡ some r
channel_round_trip r payload h = by_fields r.access r.state payload h
  where
    by_fields :
        (access : Access) (state : Lifecycle) (payload : Bytes)
        → channel_fields (record r { access = access; state = state }) ≡ some payload
        → channel_of payload ≡ some (record r { access = access; state = state })
    by_fields (token _) state payload h = cc
    by_fields open_access active payload h =
        let same : (r.id ∷ r.expiry_seconds ∷ r.created_at ∷ []) ≡ payload = ground arith in
        ap channel_of (sym same)
    by_fields open_access deleting payload h =
        let same : (r.id ∷ r.expiry_seconds ∷ r.created_at ∷ 0 ∷ []) ≡ payload = ground arith in
        ap channel_of (sym same)

pub no_reference :
    (r : ReferenceRecord) (payload : Bytes) (h : Path (Option Bytes) none (some payload))
    → Path (Option ReferenceRecord) none (some r)
no_reference r payload h = cc

abbrev pub example_lib : Libraries
example_lib = record {
  database = example_database;
  text = example_text;
  artifact_codec = record {
    to_stdvec = artifact_fields;
    from_bytes = artifact_of;
    round_trip = artifact_round_trip;
  };
  reference_codec = record {
    to_stdvec = λ r. none;
    from_bytes = λ b. none;
    round_trip = no_reference;
  };
  channel_codec = record {
    to_stdvec = channel_fields;
    from_bytes = channel_of;
    round_trip = channel_round_trip;
  };
}
