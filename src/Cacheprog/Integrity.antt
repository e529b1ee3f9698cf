-- ===== src/Cacheprog/Integrity.antt =====
-- src/cacheprog/mod.rs: what the files of the object directory hold, and what is answered.
use flywheel.Prelude.{
  ◌≡◌, ◌-◌, refl, ap, ◌∙◌, subst, Bool, true, false, some, [], ◌∷◌, length, take, arith, Bool-cases,
  Option-cases, inl, inr,
}
use flywheel.Bytes.{Bytes, bytes_eq}
use flywheel.Bytes.Order.{bytes_eq→eq}
use flywheel.Identity.{Hex}
use flywheel.Cacheprog.{lookup, insert_key}
use flywheel.Cacheprog.Merged.{lookup-insert_key}
use flywheel.Cacheprog.Objects.{
  Disk, Write, landed, file_has_size, publish_temporary, write_disk_file,
}

take_length : (b : Bytes) → take (length b) b ≡ b
take_length [] = refl
take_length (x ∷ xs) = ap (λ l. x ∷ l) (take_length xs)

landed_whole : (io : Write) (body : Bytes) → io.lost ≡ 0 → landed io body ≡ body
landed_whole io body whole =
    let all : length body - io.lost ≡ length body = omega arith in
    ap (λ n. take n body) all ∙ take_length body

module _ (hex : Hex) (sha256 : Bytes → Bytes) where
  -- Every file is named by the digest of what it holds.
  abbrev pub Verified : Disk → Type 0
  Verified disk =
      (name body : Bytes) → lookup name disk ≡ some body → hex.encode (sha256 body) ≡ name

  insert-Verified :
      (disk : Disk) (name body : Bytes)
      → hex.encode (sha256 body) ≡ name
      → Verified disk
      → Verified (insert_key name body disk)
  insert-Verified disk name body e v j other h = elim (Bool-cases (bytes_eq name j)) [
    | inl same ↦
        let k = lookup-insert_key j name body disk in
        let is : name ≡ j = bytes_eq→eq name j same in ground (arith, k)
    | inr different ↦ let k = lookup-insert_key j name body disk in v j other (ground (arith, k))
  ]

  pub publish-Verified :
      (disk : Disk) (name body : Bytes) (renamed : Bool) (disk' : Disk)
      → hex.encode (sha256 body) ≡ name
      → Verified disk
      → publish_temporary disk name body renamed ≡ some disk'
      → Verified disk'
  unfolding publish_temporary
  publish-Verified disk name body true disk' e v h =
      subst Verified (ground arith) (insert-Verified disk name body e v)
  publish-Verified disk name body false disk' e v h = elim (Option-cases (lookup name disk)) [
    | inl gone ↦ absurd (ground arith)
    | inr (other, here) ↦ let same : disk ≡ disk' = ground arith in subst Verified same v
  ]

  pub write-Verified :
      (disk : Disk) (name body : Bytes) (io : Write) (disk' : Disk)
      → io.lost ≡ 0
      → hex.encode (sha256 body) ≡ name
      → Verified disk
      → write_disk_file disk name body io ≡ some disk'
      → Verified disk'
  unfolding write_disk_file
  write-Verified disk name body io disk' whole e v h =
      elim (Bool-cases (file_has_size disk name (length body))) [
        | inl there ↦ let same : disk ≡ disk' = ground arith in subst Verified same v
        | inr missing ↦ elim (Bool-cases io.written) [
          | inl written ↦
              publish-Verified disk name (landed io body) io.renamed disk'
                (ap (λ b. hex.encode (sha256 b)) (landed_whole io body whole) ∙ e) v (ground arith)
          | inr unwritten ↦ absurd (ground arith)
        ]
      ]
