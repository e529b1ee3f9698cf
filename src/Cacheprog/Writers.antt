-- ===== src/Cacheprog/Writers.antt =====
-- src/cacheprog: what `put` and the prefetch leave in the object directory.
use flywheel.Prelude.{
  ◌≡◌, ap, subst, Bool, ◌&&◌, some, [], length, ◌==◌, if◌then◌else◌, arith, Bool-cases,
  Option-cases, inl, inr,
}
use flywheel.Bytes.{Bytes, bytes_eq}
use flywheel.Bytes.Order.{bytes_eq→eq}
use flywheel.Identity.{Hex}
use flywheel.Cacheprog.{ManifestEntry}
use flywheel.Cacheprog.Objects.{
  Disk, Helper, Write, PutRequest, Remote, no_answer, absent, present, file_has_size,
  publish_temporary, write_disk_file, put, download_object,
}
use flywheel.Cacheprog.Integrity.{Verified, publish-Verified, write-Verified}

module _ (hex : Hex) (sha256 : Bytes → Bytes) where
  -- Two other writers of the object directory keep its files named by the digests of what they
  -- hold: a `put`, whatever body and output ID the go command sends, if a file that it reports as
  -- written has its whole body; and a prefetch download, whatever the remote cache sends for a
  -- manifest entry.
  pub put-download-Verified :
      (h : Helper) (request : PutRequest) (io : Write) (canonical sent : Bool) (io' : Write)
      (entry : ManifestEntry) (remote : Remote) (disk' : Disk) (fresh : Bool)
      → io.lost ≡ 0
      → Verified hex sha256 h.disk
      → Verified hex sha256 (put hex sha256 h request io canonical sent).0.disk
        × (download_object hex sha256 h.disk entry remote io' ≡ some (disk', fresh)
            → Verified hex sha256 disk')
  unfolding put download_object
  put-download-Verified h request io canonical sent io' entry remote disk' fresh whole v =
      (by_put, by_download remote)
    where
      by_put : Verified hex sha256 (put hex sha256 h request io canonical sent).0.disk
      by_put = elim (Option-cases (if request.body_size == 0 then some [] else request.body)) [
        | inl nothing ↦ rw (nothing, put) v
        | inr (body, b) ↦
            elim (Bool-cases
              (length body == request.body_size && bytes_eq (sha256 body) request.output_id)) [
                | inr wrong ↦ rw (b, put) (rw wrong v)
                | inl right ↦
                    let output = hex.encode request.output_id in
                    let same : sha256 body ≡ request.output_id =
                      bytes_eq→eq (sha256 body) request.output_id (ground arith) in
                    elim (Option-cases (write_disk_file h.disk output body io)) [
                      | inl unwritten ↦ rw (b, put) (rw right (rw unwritten v))
                      | inr (disk, w) ↦
                          let kept =
                            write-Verified hex sha256 h.disk output body io disk whole
                              (ap hex.encode same) v w in
                          elim (Bool-cases (canonical && sent)) [
                            | inl all ↦ rw (b, put) (rw right (rw w (rw all kept)))
                            | inr part ↦ rw (b, put) (rw right (rw w (rw part kept)))
                          ]
                    ]
              ]
      ]

      by_download :
          (remote : Remote)
          → download_object hex sha256 h.disk entry remote io' ≡ some (disk', fresh)
          → Verified hex sha256 disk'
      by_download no_answer e = subst (Verified hex sha256) (ground arith) v
      by_download absent e = subst (Verified hex sha256) (ground arith) v
      by_download (present etag body) e =
          elim (Bool-cases (file_has_size h.disk entry.output entry.size)) [
            | inl there ↦ subst (Verified hex sha256) (ground arith) v
            | inr missing ↦
                elim (Bool-cases (
                  io'.written
                  && (length body == entry.size
                      && bytes_eq (hex.encode (sha256 body)) entry.output))) [
                        | inr wrong ↦ absurd (ground arith)
                        | inl right ↦
                            elim (Option-cases
                              (publish_temporary h.disk entry.output body io'.renamed)) [
                                | inl lost ↦ absurd (ground arith)
                                | inr (disk, w) ↦
                                    let kept =
                                      publish-Verified hex sha256 h.disk entry.output body
                                        io'.renamed disk
                                        (bytes_eq→eq (hex.encode (sha256 body)) entry.output
                                          (ground arith))
                                        v w in
                                    subst (Verified hex sha256) (ground arith) kept
                              ]
                      ]
          ]
