-- ===== src/LocalFiles/Publish.antt =====
-- src/storage/local/artifact_files.rs: `publish` and `publish_reserved`, which rename a staged
-- body to its digest's path and hand its reservation on.
use flywheel.Prelude.{◌≡◌, ◌+◌, refl, sym, ap, ◌∙◌, inl, inr, ℕ, Bool, true, false, Bool-cases}
use flywheel.Bytes.{Bytes, bytes_eq}
use flywheel.Bytes.Order.{bytes_eq→eq}
use flywheel.Storage.Ids.{ArtifactId, Durability, durable, best_effort}
use flywheel.Storage.Errors.{Result, ok, err, Result-cases}
use flywheel.LocalFiles.Reserver.{Reserver}
use flywheel.LocalFiles.Reservation.{Reservation, vacant, published, Removal, mark, discard, Holds}
use flywheel.LocalFiles.Settlement.{Settled, discard-Settled}
use flywheel.LocalFiles.Stage.{LocalError, io, digest_mismatch, Io, StagedArtifact}

-- How `rename` ends.
pub data Rename : Type 0 where
  renamed : Rename
  already_exists : Rename
  rename_failed : Bytes → Rename

-- The filesystem during one publication; `sync_parent` runs on a blocking task.
pub record PublishCalls : Type 0 where
  pub create_dir : Io Unit
  pub try_exists : Io Bool
  pub remove_staged : Io Unit
  pub rename : Rename
  pub sync_parent : Result {0} LocalError Unit
  pub remove_file : Removal

pub data FilePublication : Type 0 where
  created : Reservation → FilePublication
  existing : Reservation → FilePublication

abbrev pub Published : Type 0
Published = Reservation × Result LocalError Bool

-- The body is at its final path already: the staged file is removed.
unfoldable pub already_published : PublishCalls → Reservation → Published
unfolding mark
already_published calls r = elim calls.remove_staged [
  | err message ↦ (r, err (io message))
  | ok _ ↦ (mark r vacant, ok false)
]

-- The parent directory is synced, for the durable contract only.
unfoldable pub sync_rename : PublishCalls → Durability → Reservation → Published
sync_rename calls best_effort r = (r, ok true)
sync_rename calls durable r = elim calls.sync_parent [
  | err error ↦ (r, err error)
  | ok _ ↦ (r, ok true)
]

-- The rename; from there on the reservation is marked published.
unfoldable pub install : PublishCalls → Durability → Reservation → Published
unfolding already_published sync_rename mark
install calls durability r = elim calls.rename [
  | renamed ↦ sync_rename calls durability (mark r published)
  | already_exists ↦ already_published calls r
  | rename_failed message ↦ (r, err (io message))
]

unfoldable pub publish_reserved :
    PublishCalls → ArtifactId → Bytes → Durability → Reservation → Published
unfolding install already_published
publish_reserved calls artifact digest durability r = elim (bytes_eq digest artifact.digest) [
  | false ↦ (r, err digest_mismatch)
  | true ↦ elim calls.create_dir [
    | err message ↦ (r, err (io message))
    | ok _ ↦ elim calls.try_exists [
      | err message ↦ (r, err (io message))
      | ok true ↦ already_published calls r
      | ok false ↦ install calls durability r
    ]
  ]
]

-- The publication of a result, by whether this call installed the body.
unfoldable pub publication : Reservation → Bool → FilePublication
publication r true = created r
publication r false = existing r

module _ (reserver : Reserver) where
  open reserver use {Ledger}

  -- The end of `publish`: an error discards the reservation.
  unfoldable pub conclude :
      PublishCalls → Ledger → Published → Ledger × Result LocalError FilePublication
  unfolding discard publication
  conclude calls ledger (r, err error) = (discard reserver ledger r calls.remove_file, err error)
  conclude calls ledger (r, ok installed) = (ledger, ok (publication r installed))

  unfoldable pub publish :
      PublishCalls
      → ArtifactId
      → StagedArtifact
      → Durability
      → Ledger
      → Ledger × Result LocalError FilePublication
  unfolding conclude publish_reserved
  publish calls artifact staged durability ledger =
      conclude calls ledger
        (publish_reserved calls artifact staged.digest durability staged.reservation)

-- The reservation keeps its bytes; its state says where they are.
abbrev Kept : ArtifactId → Bytes → Reservation → Published → Type 0
Kept artifact digest before (r, err error) = r.outstanding ≡ before.outstanding
Kept artifact digest before (r, ok true) =
    (r.outstanding ≡ before.outstanding) × (r.state ≡ published) × (digest ≡ artifact.digest)
Kept artifact digest before (r, ok false) =
    (r.outstanding ≡ before.outstanding) × (r.state ≡ vacant) × (digest ≡ artifact.digest)

module _ (calls : PublishCalls) (artifact : ArtifactId) (digest : Bytes) (r : Reservation) where
  already_published-Kept :
      digest ≡ artifact.digest → Kept artifact digest r (already_published calls r)
  unfolding already_published mark
  already_published-Kept e = elim (Result-cases calls.remove_staged) [
    | inl (_, gone) ↦ rw (gone, already_published) (refl, refl, e)
    | inr (_, stays) ↦ rw (stays, already_published) refl
  ]

  sync_rename-Kept :
      (durability : Durability)
      → digest ≡ artifact.digest
      → Kept artifact digest r (sync_rename calls durability (mark r published))
  unfolding sync_rename mark
  sync_rename-Kept best_effort e = (refl, refl, e)
  sync_rename-Kept durable e = elim (Result-cases calls.sync_parent) [
    | inl (_, synced) ↦ rw (synced, sync_rename) (refl, refl, e)
    | inr (_, lost) ↦ rw (lost, sync_rename) refl
  ]

  install-Kept :
      (durability : Durability)
      → digest ≡ artifact.digest
      → Kept artifact digest r (install calls durability r)
  unfolding install
  install-Kept durability e =
      elim calls.rename
          as (λ x. calls.rename ≡ x → Kept artifact digest r (install calls durability r)) [
            | renamed ↦ λ h. rw (h, install) (sync_rename-Kept durability e)
            | already_exists ↦ λ h. rw (h, install) (already_published-Kept e)
            | rename_failed message ↦ λ h. rw (h, install) refl
          ]
        refl

  publish_reserved-Kept :
      (durability : Durability)
      → Kept artifact digest r (publish_reserved calls artifact digest durability r)
  unfolding publish_reserved
  publish_reserved-Kept durability = elim (Bool-cases (bytes_eq digest artifact.digest)) [
    | inr differs ↦ rw (differs, publish_reserved) refl
    | inl same ↦
        let e = bytes_eq→eq digest artifact.digest same in
        elim (Result-cases calls.create_dir) [
          | inr (_, f) ↦ rw (same, publish_reserved, f) refl
          | inl (_, d) ↦ elim (Result-cases calls.try_exists) [
            | inr (_, f) ↦ rw (same, publish_reserved, d, f) refl
            | inl (true, x) ↦ rw (same, publish_reserved, d, x) (already_published-Kept e)
            | inl (false, x) ↦ rw (same, publish_reserved, d, x) (install-Kept durability e)
          ]
        ]
  ]

module _ (reserver : Reserver) where
  open reserver use {Ledger}

  -- The account of a publication.
  abbrev pub Accounted :
      ℕ → ArtifactId → StagedArtifact → Ledger → Result LocalError FilePublication → Type 0
  Accounted base artifact staged ledger (ok (created r)) =
      Holds reserver base ledger r
      × (r.outstanding ≡ staged.reservation.outstanding)
      × (r.state ≡ published)
      × (staged.digest ≡ artifact.digest)
  Accounted base artifact staged ledger (ok (existing r)) =
      Holds reserver base ledger r
      × (r.outstanding ≡ staged.reservation.outstanding)
      × (r.state ≡ vacant)
      × (staged.digest ≡ artifact.digest)
  Accounted base artifact staged ledger (err error) = Settled reserver base ledger

  conclude-Accounted :
      (base : ℕ) (calls : PublishCalls) (artifact : ArtifactId) (staged : StagedArtifact)
      (ledger : Ledger) (result : Published)
      → Holds reserver base ledger staged.reservation
      → Kept artifact staged.digest staged.reservation result
      → let (ledger', outcome) = conclude reserver calls ledger result in
        Accounted base artifact staged ledger' outcome
  unfolding conclude publication
  conclude-Accounted base calls artifact staged ledger (r, err error) v e =
      discard-Settled reserver base ledger r calls.remove_file
        record { valid = v.valid; holds = v.holds ∙ ap (λ n. base + n) (sym e) }
  conclude-Accounted base calls artifact staged ledger (r, ok true) v (e, state, digest) =
      (record { valid = v.valid; holds = v.holds ∙ ap (λ n. base + n) (sym e) }, e, state, digest)
  conclude-Accounted base calls artifact staged ledger (r, ok false) v (e, state, digest) =
      (record { valid = v.valid; holds = v.holds ∙ ap (λ n. base + n) (sym e) }, e, state, digest)

  -- With the staged reservation held by the ledger, a publication succeeds only for the body that
  -- the artifact names, and then still holds the reservation, marked by where the bytes are: at the
  -- final path if this call installed them, nowhere if they were there already. An error takes the
  -- reservation off the ledger.
  pub publish-Accounted :
      (base : ℕ) (calls : PublishCalls) (artifact : ArtifactId) (staged : StagedArtifact)
      (durability : Durability) (ledger : Ledger)
      → Holds reserver base ledger staged.reservation
      → let (ledger', outcome) = publish reserver calls artifact staged durability ledger in
        Accounted base artifact staged ledger' outcome
  unfolding publish
  publish-Accounted base calls artifact staged durability ledger v =
      conclude-Accounted base calls artifact staged ledger _ v
        (publish_reserved-Kept calls artifact staged.digest staged.reservation durability)
