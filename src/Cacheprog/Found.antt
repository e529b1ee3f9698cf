-- ===== src/Cacheprog/Found.antt =====
-- src/cacheprog/mod.rs: what a `get` answers.
use flywheel.Prelude.{
  ℕ, ◌≡◌, refl, ap, Bool, true, false, not, ◌&&◌, some, length, arith, Bool-cases, Option-cases,
  inl, inr,
}
use flywheel.Bytes.{Bytes}
use flywheel.Bytes.Order.{bytes_eq_refl}
use flywheel.Identity.{Hex}
use flywheel.Cacheprog.{ManifestEntry, lookup}
use flywheel.Cacheprog.Merged.{lookup-insert_key}
use flywheel.Cacheprog.Objects.{
  Disk, Helper, Write, landed, Answer, found, Remote, no_answer, absent, present, manifest_entry,
  file_has_size, publish_temporary, write_disk_file, etag_digest, contradicts, answer_local,
  answer_remote, wait_for, get, contains_output,
}
use flywheel.Cacheprog.Integrity.{Verified, write-Verified}

module _ (hex : Hex) (sha256 : Bytes → Bytes) where
  has_size-lookup :
      (disk : Disk) (name : Bytes) (size : ℕ)
      → file_has_size disk name size ≡ true
      → (body : Bytes) × (lookup name disk ≡ some body)
  unfolding file_has_size
  has_size-lookup disk name size h = elim (Option-cases (lookup name disk)) [
    | inl gone ↦ absurd (ground arith)
    | inr (body, here) ↦ (body, here)
  ]

  publish-lookup :
      (disk : Disk) (name body : Bytes) (renamed : Bool) (disk' : Disk)
      → publish_temporary disk name body renamed ≡ some disk'
      → (other : Bytes) × (lookup name disk' ≡ some other)
  unfolding publish_temporary
  publish-lookup disk name body true disk' h =
      let k = lookup-insert_key name name body disk in
      let same = bytes_eq_refl name in (body, ground (arith, k))
  publish-lookup disk name body false disk' h = elim (Option-cases (lookup name disk)) [
    | inl gone ↦ absurd (ground arith)
    | inr (other, here) ↦ (other, ground arith)
  ]

  write-lookup :
      (disk : Disk) (name body : Bytes) (io : Write) (disk' : Disk)
      → write_disk_file disk name body io ≡ some disk'
      → (other : Bytes) × (lookup name disk' ≡ some other)
  unfolding write_disk_file
  write-lookup disk name body io disk' h =
      elim (Bool-cases (file_has_size disk name (length body))) [
        | inl there ↦
            let (other, here) = has_size-lookup disk name (length body) there in
            (other, ground arith)
        | inr missing ↦ elim (Bool-cases io.written) [
          | inl written ↦ publish-lookup disk name (landed io body) io.renamed disk' (ground arith)
          | inr unwritten ↦ absurd (ground arith)
        ]
      ]

  -- A found answer names a file that hashes to its output ID.
  abbrev pub Sound : Helper × Answer → Type 0
  Sound (h, answer) =
      Verified hex sha256 h.disk
      × ((id : Bytes) (size : ℕ) (name : Bytes)
          → answer ≡ found id size name
          → (body : Bytes) × (lookup name h.disk ≡ some body) × (sha256 body ≡ id))

  named :
      (disk : Disk) (name id body : Bytes)
      → Verified hex sha256 disk
      → lookup name disk ≡ some body
      → hex.decode_all name ≡ some id
      → sha256 body ≡ id
  named disk name id body v here decoded =
      let e = v name body here in
      let k = hex.decode_all-encode (sha256 body) in ground (arith, k, ap hex.decode_all e)

  answer_local-Sound :
      (h : Helper) (action : Bytes) (entry : ManifestEntry) (canonical : Bool)
      → Verified hex sha256 h.disk
      → file_has_size h.disk entry.output entry.size ≡ true
      → Sound (answer_local hex sha256 h action entry canonical)
  unfolding answer_local
  answer_local-Sound h action entry canonical v there =
      let (body, here) = has_size-lookup h.disk entry.output entry.size there in
      elim (Option-cases (hex.decode_all entry.output)) [
        | inl odd ↦ rw (odd, answer_local) (v, λ id size name e. cc)
        | inr (known, decoded) ↦ elim (Bool-cases canonical) [
          | inr lost ↦ rw (decoded, answer_local) (rw lost (v, λ id size name e. cc))
          | inl reached ↦
              rw (decoded, answer_local)
                (rw reached (
                  v,
                  λ id size name e.
                      (body, ground arith, named h.disk entry.output id body v here (ground arith)),
                ))
        ]
      ]

  answer_remote-Sound :
      (h : Helper) (action : Bytes) (remote : Remote) (io : Write) (canonical : Bool)
      → io.lost ≡ 0
      → Verified hex sha256 h.disk
      → Sound (answer_remote hex sha256 h action remote io canonical)
  unfolding answer_remote
  answer_remote-Sound h action no_answer io canonical whole v = (v, λ id size name e. cc)
  answer_remote-Sound h action absent io canonical whole v = (v, λ id size name e. cc)
  answer_remote-Sound h action (present etag body) io canonical whole v =
      let output = hex.encode (sha256 body) in
      elim (Bool-cases (contradicts (etag_digest etag) output)) [
        | inl corrupt ↦ rw (corrupt, answer_remote) (v, λ id size name e. cc)
        | inr agrees ↦ elim (Option-cases (write_disk_file h.disk output body io)) [
          | inl unwritten ↦ rw (agrees, answer_remote) (rw unwritten (v, λ id size name e. cc))
          | inr (disk, w) ↦
              let v' = write-Verified hex sha256 h.disk output body io disk whole refl v w in
              let (other, here) = write-lookup h.disk output body io disk w in
              elim (Bool-cases canonical) [
                | inr lost ↦ rw (agrees, answer_remote) (rw w (rw lost (v', λ id size name e. cc)))
                | inl reached ↦ elim (Option-cases (hex.decode_all output)) [
                  | inl odd ↦
                      rw (agrees, answer_remote)
                        (rw w (rw reached (rw odd (v', λ id size name e. cc))))
                  | inr (known, decoded) ↦
                      rw (agrees, answer_remote)
                        (rw w (
                          rw reached (
                            rw decoded (
                              v',
                              λ id size name e. (
                                other,
                                ground arith,
                                named disk output id other v' here (ground arith),
                              ),
                            ))))
                ]
              ]
        ]
      ]

  -- With files that are named by the digests of what they hold, before the request and after a
  -- download that it waits for, and if a file that this request writes and reports as written has
  -- its whole body: a `get` leaves such files, and when it answers with an output ID and a file,
  -- what the file holds hashes to this ID, whatever the remote cache answers, the manifest says,
  -- and whichever of the filesystem's calls report a failure.
  pub get-Sound :
      (h : Helper) (action_id : Bytes) (settled : Helper) (remote : Remote) (io : Write)
      (canonical : Bool)
      → io.lost ≡ 0
      → Verified hex sha256 h.disk
      → Verified hex sha256 settled.disk
      → Sound (get hex sha256 h action_id settled remote io canonical)
  unfolding get
  get-Sound h action_id settled remote io canonical whole v v' =
      let action = hex.encode action_id in
      elim (Option-cases (manifest_entry h.session action)) [
        | inl unknown ↦ rw (unknown, get) (answer_remote-Sound h action remote io canonical whole v)
        | inr (entry, known) ↦
            let after = wait_for hex sha256 h entry settled in
            let va : Verified hex sha256 after.disk = waited h entry settled v v' in
            elim (Bool-cases (file_has_size after.disk entry.output entry.size)) [
              | inl there ↦
                  rw (known, get)
                    (rw there (answer_local-Sound after action entry canonical va there))
              | inr missing ↦
                  rw (known, get)
                    (rw missing (answer_remote-Sound after action remote io canonical whole va))
            ]
      ]
    where
      waited :
          (h : Helper) (entry : ManifestEntry) (settled : Helper)
          → Verified hex sha256 h.disk
          → Verified hex sha256 settled.disk
          → Verified hex sha256 (wait_for hex sha256 h entry settled).disk
      waited h entry settled v v' =
          elim (Bool-cases (
            not (file_has_size h.disk entry.output entry.size)
            && contains_output entry.output h.session.inflight)) [
              | inl waits ↦ unfold wait_for in rw (waits) v'
              | inr goes ↦ unfold wait_for in rw (goes) v
            ]
