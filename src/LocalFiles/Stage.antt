-- ===== src/LocalFiles/Stage.antt =====
-- src/storage/local/artifact_files.rs: `stage` and `stage_reserved`, which write a streamed body to
-- a temporary file while its reservation grows with it. How each call of the filesystem ends is an
-- input, and so are the stream's items.
use flywheel.Prelude.{
  ℕ, zero, suc, ◌+◌, ◌-◌, true, false, Option, none, some, List, [], ◌∷◌, ◌++◌, length, ltb,
  if◌then◌else◌, u64_max, min, max,
}
use flywheel.Bytes.{Bytes}
use flywheel.Storage.Ids.{StoredEncoding, identity, zstd, Durability, durable, best_effort}
use flywheel.Storage.Errors.{Result, ok, err}
use flywheel.LocalFiles.Reserver.{Reserver}
use flywheel.LocalFiles.Reservation
use flywheel.LocalFiles.Reservation.{Reservation, temporary, Removal, reserve, discard, mark}

pub data LocalError : Type 0 where
  io : Bytes → LocalError
  stream : Bytes → LocalError
  task : Bytes → LocalError
  too_large out_of_space digest_mismatch : LocalError

-- A call of the filesystem: its error's text, or its result.
abbrev pub Io : Type 0 → Type 0
Io A = Result Bytes A

-- What the body's stream yields: a chunk, with how writing it to the file ends, or an error.
pub data Item : Type 0 where
  chunk : Bytes → Io Unit → Item
  broken : Bytes → Item

-- The filesystem during one staging.
pub record Filesystem : Type 0 where
  pub path : Bytes
  pub create_dir : Io Unit
  pub open_file : Io Unit
  pub finish : Io Unit
  pub sync_all : Io Unit
  pub encoded_len : Io ℕ
  pub remove_file : Removal

-- Why a staging stops: one of the code's errors, or the model's fuel.
pub data Stop : Type 0 where
  failed_with : LocalError → Stop
  out_of_fuel : Stop

pub record StagedArtifact : Type 0 where
  pub path : Bytes
  pub digest : Bytes
  pub len : ℕ
  pub stored_len : ℕ
  pub encoding : StoredEncoding
  pub reservation : Reservation

pub data StageOutcome : Type 0 where
  ready : StagedArtifact → StageOutcome
  rejected : List Item → StageOutcome

-- `ArtifactFiles::open`
unfoldable pub open_extent : ℕ → ℕ
open_extent reservation_extent = max reservation_extent 1

-- The length and the bytes received so far.
abbrev pub Received : Type 0
Received = ℕ × Bytes

-- The encoded size, which only a `Zstd` file is asked for.
unfoldable pub stored_size : Filesystem → StoredEncoding → ℕ → Io ℕ
stored_size fs identity len = ok len
stored_size fs zstd len = fs.encoded_len

-- `sync_all`, for the durable contract only.
unfoldable pub sync : Durability → Io Unit → Io Unit
sync durable outcome = outcome
sync best_effort outcome = ok tt

module _ (reserver : Reserver) (extent max_bytes : ℕ) where
  open reserver use {Ledger}

  -- What a step leaves: the ledger, the reservation, and its result.
  abbrev pub Step : Type 0 → Type 0
  Step A = Ledger × Reservation × Result Stop A

  -- The `?` on a step: what an error leaves is left as it is.
  infixl 5 ◌>>?◌
  unfoldable pub ◌>>?◌ : {A B : Type 0} → Step A → (Ledger → Reservation → A → Step B) → Step B
  (ledger, r, ok a) >>? f = f ledger r a
  (ledger, r, err stop) >>? f = (ledger, r, err stop)

  -- The `?` on a call of the filesystem.
  unfoldable pub call : {A : Type 0} → Io A → Ledger → Reservation → Step A
  call (ok a) ledger r = (ledger, r, ok a)
  call (err message) ledger r = (ledger, r, err (failed_with (io message)))

  -- A reservation that is refused is an error.
  unfoldable pub demand : Ledger → Reservation → ℕ → Step Unit
  unfolding reserve
  demand ledger r bytes =
      let (ledger', r', granted) = reserve reserver ledger r bytes in
      if granted then (ledger', r', ok tt) else (ledger', r', err (failed_with out_of_space))

  -- `while len > reservation.outstanding`
  unfoldable pub extend : ℕ → Ledger → Reservation → ℕ → Step Unit
  unfolding demand ◌>>?◌
  extend zero ledger r len =
      if ltb r.outstanding len then (ledger, r, err out_of_fuel) else (ledger, r, ok tt)
  extend (suc fuel) ledger r len = elim (ltb r.outstanding len) [
    | false ↦ (ledger, r, ok tt)
    | true ↦ demand ledger r extent >>? λ ledger' r' _. extend fuel ledger' r' len
  ]

  -- One round of `while let Some(chunk) = stream.next()`: the reservation is extended, the hash
  -- takes the chunk in, and it is written. The length is the inner loop's fuel: an extent is at
  -- least one byte.
  unfoldable pub receive : Ledger → Reservation → Received → Item → Step Received
  unfolding extend call ◌>>?◌
  receive ledger r so_far (broken message) = (ledger, r, err (failed_with (stream message)))
  receive ledger r (len, body) (chunk bytes wrote) =
      let len' = len + length bytes in
      if ltb u64_max len'
      then (ledger, r, err (failed_with too_large))
      else (if ltb max_bytes len'
          then (ledger, r, err (failed_with too_large))
          else (extend len' ledger r len'
              >>? (λ ledger' r' _. call wrote ledger' r')
              >>? λ ledger' r' _. (ledger', r', ok (len', body ++ bytes))))

  unfoldable pub receive_all : Ledger → Reservation → Received → List Item → Step Received
  unfolding receive ◌>>?◌
  receive_all ledger r so_far [] = (ledger, r, ok so_far)
  receive_all ledger r so_far (item ∷ items) =
      receive ledger r so_far item >>? λ ledger' r' so_far'. receive_all ledger' r' so_far' items

  -- The reservation is brought up to the encoded size.
  unfoldable pub cover : Ledger → Reservation → ℕ → Step Unit
  unfolding demand
  cover ledger r stored_len =
      if ltb r.outstanding stored_len
      then demand ledger r (stored_len - r.outstanding)
      else (ledger, r, ok tt)

  -- What follows the loop: the writer is finished, the size settled, and the file synced.
  unfoldable pub finish :
      Filesystem
      → Durability
      → StoredEncoding
      → Ledger
      → Reservation
      → Received
      → Step (Received × ℕ)
  unfolding call stored_size cover sync ◌>>?◌
  finish fs durability encoding ledger r so_far =
      call fs.finish ledger r
      >>? (λ ledger' r' _. call (stored_size fs encoding so_far.0) ledger' r')
      >>? λ ledger' r' stored_len.
          (cover ledger' r' stored_len
            >>? (λ ledger' r' _. call (sync durability fs.sync_all) ledger' r')
            >>? λ ledger' r' _. (ledger', r', ok (so_far, stored_len)))

  -- `stage_reserved`: cleanup is armed before the file is opened.
  unfoldable pub stage_reserved :
      Filesystem
      → Durability
      → StoredEncoding
      → List Item
      → Ledger
      → Reservation
      → Step (Received × ℕ)
  unfolding call mark receive_all finish ◌>>?◌
  stage_reserved fs durability encoding items ledger r =
      call fs.create_dir ledger r
      >>? (λ ledger' r' _. call fs.open_file ledger' (mark r' (temporary fs.path)))
      >>? (λ ledger' r' _. receive_all ledger' r' (0, []) items)
      >>? λ ledger' r' so_far. finish fs durability encoding ledger' r' so_far

  -- What `stage` reserves up front: a known length, or one extent.
  unfoldable pub initial : Option ℕ → ℕ
  initial none = extent
  initial (some length) = min length max_bytes

  module _ (sha256 : Bytes → Bytes) where
    -- `stage`, after admission: an error discards the reservation.
    unfoldable pub staged :
        Filesystem → StoredEncoding → Step (Received × ℕ) → Ledger × Result Stop StageOutcome
    unfolding discard
    staged fs encoding (ledger, r, err stop) = (discard reserver ledger r fs.remove_file, err stop)
    staged fs encoding (ledger, r, ok ((len, body), stored_len)) = (
      ledger,
      ok (
          ready record {
            path = fs.path;
            digest = sha256 body;
            len = len;
            stored_len = stored_len;
            encoding = encoding;
            reservation = r;
          }),
    )

    -- `stage`: a body that is not admitted is handed back.
    unfoldable pub stage :
        Filesystem
        → Durability
        → StoredEncoding
        → Option ℕ
        → List Item
        → Ledger
        → Ledger × Result Stop StageOutcome
    unfolding reserve stage_reserved staged initial Reservation.new
    stage fs durability encoding content_length items ledger =
        let (ledger', r, granted) =
          reserve reserver ledger Reservation.new (initial content_length) in
        elim granted [
          | false ↦ (ledger', ok (rejected items))
          | true ↦ staged fs encoding (stage_reserved fs durability encoding items ledger' r)
        ]
