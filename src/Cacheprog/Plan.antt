-- ===== src/Cacheprog/Plan.antt =====
-- src/cacheprog/session.rs: the work list of a prefetch.
use flywheel.Prelude.{
  ℕ, ◌+◌, ◌≡◌, true, false, Option, none, some, List, [], ◌∷◌, All, ◌==◌, arith, Bool-cases,
  Option-cases, inl, inr,
}
use flywheel.Bytes.{Bytes, bytes_eq}
use flywheel.Cacheprog.{ManifestEntry, Manifest, empty_manifest}
use flywheel.Cacheprog.Objects.{
  Disk, Write, file_has_size, write_disk_file, contains_output, current_version,
}

-- The manifest that a prefetch installs: `none` is a failed GET, which ends the prefetch.
unfoldable pub fetched_manifest : Option (Option Manifest) → Option Manifest
unfolding current_version
fetched_manifest none = none
fetched_manifest (some answer) = elim (current_version answer) [
  | none ↦ some empty_manifest
  | some m ↦ some m
]

-- What the loop has collected: the objects found or made locally, and those to download.
pub record WorkList : Type 0 where
  pub disk : Disk
  pub local : ℕ
  pub wanted : List (Bytes × ManifestEntry)

-- The loop over the manifest's entries; `seen` are the outputs that had their turn, `empty_output`
-- is the digest of the empty body.
module _ (empty_output : Bytes) (io : Write) where
  unfoldable pub plan : List (Bytes × ManifestEntry) → List Bytes → Disk → WorkList
  unfolding contains_output file_has_size write_disk_file
  plan [] seen disk = record { disk = disk; local = 0; wanted = [] }
  plan ((action, entry) ∷ entries) seen disk = elim (contains_output entry.output seen) [
    | true ↦ plan entries seen disk
    | false ↦ elim (entry.size == 0) [
      | true ↦ elim (bytes_eq entry.output empty_output) [
        | false ↦ plan entries (entry.output ∷ seen) disk
        | true ↦ elim (write_disk_file disk entry.output [] io) [
          | none ↦ plan entries (entry.output ∷ seen) disk
          | some disk' ↦
              let rest = plan entries (entry.output ∷ seen) disk' in
              record rest { local = rest.local + 1 }
        ]
      ]
      | false ↦ elim (file_has_size disk entry.output entry.size) [
        | true ↦
            let rest = plan entries (entry.output ∷ seen) disk in
            record rest { local = rest.local + 1 }
        | false ↦
            let rest = plan entries (entry.output ∷ seen) disk in
            record rest { wanted = (action, entry) ∷ rest.wanted }
      ]
    ]
  ]

-- An output that had no turn yet.
abbrev Unseen : List Bytes → Bytes × ManifestEntry → Type 0
Unseen seen (action, entry) = contains_output entry.output seen ≡ false

-- Every output once, and none that is empty.
abbrev pub IsWork : List (Bytes × ManifestEntry) → Type 0
IsWork [] = Unit
IsWork ((action, entry) ∷ rest) =
    ((entry.size == 0) ≡ false)
    × All (λ (w : Bytes × ManifestEntry). bytes_eq entry.output w.1.output ≡ false) rest
    × IsWork rest

weaken :
    (o : Bytes) (seen : List Bytes) (ws : List (Bytes × ManifestEntry))
    → All (Unseen (o ∷ seen)) ws
    → All (Unseen seen) ws
unfolding contains_output
weaken o seen [] h = tt
weaken o seen (w ∷ ws) h = (ground (arith, h.0), weaken o seen ws h.1)

apart :
    (o : Bytes) (seen : List Bytes) (ws : List (Bytes × ManifestEntry))
    → All (Unseen (o ∷ seen)) ws
    → All (λ (w : Bytes × ManifestEntry). bytes_eq o w.1.output ≡ false) ws
unfolding contains_output
apart o seen [] h = tt
apart o seen (w ∷ ws) h = (ground (arith, h.0), apart o seen ws h.1)

module _ (empty_output : Bytes) (io : Write) where
  plan_lem :
      (entries : List (Bytes × ManifestEntry)) (seen : List Bytes) (disk : Disk)
      → let work = plan empty_output io entries seen disk in
        All (Unseen seen) work.wanted × IsWork work.wanted
  unfolding plan
  plan_lem [] seen disk = (tt, tt)
  plan_lem ((action, entry) ∷ entries) seen disk =
      let skip = plan_lem entries seen disk in
      let (unseen, work) = plan_lem entries (entry.output ∷ seen) disk in
      let rest = (plan empty_output io entries (entry.output ∷ seen) disk).wanted in
      let next : All (Unseen seen) rest × IsWork rest =
        (weaken entry.output seen rest unseen, work) in
      elim (Bool-cases (contains_output entry.output seen)) [
        | inl again ↦ rw (again, plan) skip
        | inr new ↦ elim (Bool-cases (entry.size == 0)) [
          | inl none_left ↦ elim (Bool-cases (bytes_eq entry.output empty_output)) [
            | inr other ↦ rw (new, plan) (rw none_left (rw other next))
            | inl empty ↦ elim (Option-cases (write_disk_file disk entry.output [] io)) [
              | inl lost ↦ rw (new, plan) (rw none_left (rw empty (rw lost next)))
              | inr (disk', made) ↦
                  let (unseen', work') = plan_lem entries (entry.output ∷ seen) disk' in
                  rw (new, plan)
                    (rw none_left (rw empty (rw made (weaken entry.output seen _ unseen', work'))))
            ]
          ]
          | inr some_left ↦ elim (Bool-cases (file_has_size disk entry.output entry.size)) [
            | inl local ↦ rw (new, plan) (rw some_left (rw local next))
            | inr missing ↦
                rw (new, plan)
                  (rw some_left (
                    rw missing (
                      (new, weaken entry.output seen _ unseen),
                      (some_left, apart entry.output seen _ unseen, work),
                    )))
          ]
        ]
      ]

  -- A prefetch downloads every output at most once, however many actions of the manifest share it,
  -- and none of size zero.
  pub plan-IsWork :
      (manifest : Manifest) (disk : Disk)
      → IsWork (plan empty_output io manifest.entries [] disk).wanted
  plan-IsWork manifest disk = (plan_lem manifest.entries [] disk).1
