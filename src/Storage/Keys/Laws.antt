-- ===== src/Storage/Keys/Laws.antt =====
-- src/storage/metadata/rocksdb.rs: when two keys are equal, the order of the queue's keys, and their
-- decoding.
use mathlib.Core.Path.{ap₂}
use flywheel.Prelude.{
  ℕ, zero, suc, ◌+◌, ◌≡◌, ◌<◌, refl, sym, ap, ◌∙◌, true, ◌&&◌, [], ◌∷◌, ◌++◌, arith, length,
  length-append, take, drop, Bool-cases, inl, inr, ◌==◌, IsU64,
}
use flywheel.Bytes.{Bytes, bytes_eq, bytes_lt, starts_with, to_be_bytes, from_be_bytes}
use flywheel.Bytes.Order.{bytes_eq_refl, bytes_eq→eq, bytes_lt-append, bytes_lt-append_left}
use flywheel.Bytes.Words.{length-to_be_bytes, from_be_bytes-to_be_bytes, bytes_lt-to_be_bytes}
use flywheel.Storage.Ids.{ChannelId, UlidText, ArtifactId, artifact_eq, IsDigest}
use flywheel.Storage.Errors.{ok}
use flywheel.Storage.Keys.{
  artifact_key, reference_key, eviction_key, decode_eviction_key, starts_with-eq,
}

bytes_eq-append :
    (a b x y : Bytes)
    → length a ≡ length b
    → bytes_eq (a ++ x) (b ++ y) ≡ (bytes_eq a b && bytes_eq x y)
unfolding bytes_eq
bytes_eq-append [] [] x y e = refl
bytes_eq-append [] (_ ∷ b) x y e = absurd (omega arith)
bytes_eq-append (_ ∷ a) [] x y e = absurd (omega arith)
bytes_eq-append (c ∷ a) (d ∷ b) x y e = ground (arith, bytes_eq-append a b x y)

bytes_eq-to_be_bytes :
    (d e : ℕ) → IsU64 d → IsU64 e → bytes_eq (to_be_bytes 8 d) (to_be_bytes 8 e) ≡ (d == e)
bytes_eq-to_be_bytes d e hd he = elim (Bool-cases (bytes_eq (to_be_bytes 8 d) (to_be_bytes 8 e))) [
  | inl same ↦
      let eq : d ≡ e =
        sym (from_be_bytes-to_be_bytes 8 d (omega arith))
        ∙ ap from_be_bytes (bytes_eq→eq (to_be_bytes 8 d) (to_be_bytes 8 e) same)
        ∙ from_be_bytes-to_be_bytes 8 e (omega arith) in
      rw same (ground arith)
  | inr other ↦ elim (Bool-cases (d == e)) [
    | inl eq ↦ absurd (ground (arith, bytes_eq_refl (to_be_bytes 8 d)))
    | inr ne ↦ rw (other, ne)
  ]
]

take-append : (n : ℕ) (xs ys : Bytes) → length xs ≡ n → take n (xs ++ ys) ≡ xs
take-append zero [] ys e = refl
take-append zero (x ∷ xs) ys e = absurd (omega arith)
take-append (suc n) [] ys e = absurd (omega arith)
take-append (suc n) (x ∷ xs) ys e = ap (◌∷◌ x) (take-append n xs ys (omega arith))

drop-append : (n : ℕ) (xs ys : Bytes) → length xs ≡ n → drop n (xs ++ ys) ≡ ys
drop-append zero [] ys e = refl
drop-append zero (x ∷ xs) ys e = absurd (omega arith)
drop-append (suc n) [] ys e = absurd (omega arith)
drop-append (suc n) (x ∷ xs) ys e = drop-append n xs ys (omega arith)

drop-nil : (n : ℕ) → drop {A = ℕ} n [] ≡ []
drop-nil zero = refl
drop-nil (suc n) = refl

drop-drop : (n m : ℕ) (xs : Bytes) → drop (n + m) xs ≡ drop m (drop n xs)
drop-drop zero m xs = let e : 0 + m ≡ m = omega arith in rw e
drop-drop (suc n) m [] = let e : suc n + m ≡ suc (n + m) = omega arith in rw (e, drop-nil m)
drop-drop (suc n) m (x ∷ xs) =
    let e : suc n + m ≡ suc (n + m) = omega arith in rw e (drop-drop n m xs)

module _ (text : UlidText) where
  as_key-eq : (c d : ChannelId) → bytes_eq (text.as_key c) (text.as_key d) ≡ (c == d)
  as_key-eq c d = elim (Bool-cases (bytes_eq (text.as_key c) (text.as_key d))) [
    | inl same ↦
        let eq = text.as_key_inj c d (bytes_eq→eq (text.as_key c) (text.as_key d) same) in
        rw same (ground arith)
    | inr other ↦ elim (Bool-cases (c == d)) [
      | inl eq ↦ absurd (ground (arith, bytes_eq_refl (text.as_key c)))
      | inr ne ↦ rw (other, ne)
    ]
  ]

  pub artifact_key-eq :
      (c d : ChannelId) (a b : ArtifactId)
      → bytes_eq (artifact_key text c a) (artifact_key text d b) ≡ (c == d && artifact_eq a b)
  unfolding artifact_key
  artifact_key-eq c d a b =
      bytes_eq-append (text.as_key c) (text.as_key d) a.digest b.digest
        (text.as_key_length c ∙ sym (text.as_key_length d))
      ∙ ap (λ x. x && artifact_eq a b) (as_key-eq c d)

  pub reference_key-eq :
      (c d : ChannelId) (r s : Bytes)
      → bytes_eq (reference_key text c r) (reference_key text d s) ≡ (c == d && bytes_eq r s)
  unfolding reference_key
  reference_key-eq c d r s =
      bytes_eq-append (text.as_key c) (text.as_key d) r s
        (text.as_key_length c ∙ sym (text.as_key_length d))
      ∙ ap (λ x. x && bytes_eq r s) (as_key-eq c d)

  pub eviction_key-eq :
      (c d : ChannelId) (t u : ℕ) (a b : ArtifactId)
      → IsU64 t
      → IsU64 u
      → bytes_eq (eviction_key text c t a) (eviction_key text d u b)
        ≡ (c == d && (t == u && artifact_eq a b))
  unfolding eviction_key
  eviction_key-eq c d t u a b ht hu =
      bytes_eq-append (text.as_key c) (text.as_key d) (to_be_bytes 8 t ++ a.digest)
        (to_be_bytes 8 u ++ b.digest) (text.as_key_length c ∙ sym (text.as_key_length d))
      ∙ ap₂ ◌&&◌ (as_key-eq c d) (
          bytes_eq-append (to_be_bytes 8 t) (to_be_bytes 8 u) a.digest b.digest
            (length-to_be_bytes 8 t ∙ sym (length-to_be_bytes 8 u))
          ∙ ap (λ x. x && artifact_eq a b) (bytes_eq-to_be_bytes t u ht hu))

  -- Within a channel, a queue key with an earlier deadline is below one with a later 64-bit
  -- deadline.
  pub eviction_key-lt :
      (c : ChannelId) (t u : ℕ) (a b : ArtifactId)
      → IsU64 u
      → t < u
      → bytes_lt (eviction_key text c t a) (eviction_key text c u b) ≡ true
  unfolding eviction_key
  eviction_key-lt c t u a b hu lt =
      bytes_lt-append_left (text.as_key c) (to_be_bytes 8 t ++ a.digest)
        (to_be_bytes 8 u ++ b.digest)
      ∙ bytes_lt-append (to_be_bytes 8 t) (to_be_bytes 8 u) a.digest b.digest
          (length-to_be_bytes 8 t ∙ sym (length-to_be_bytes 8 u))
          (bytes_lt-to_be_bytes 8 t u (omega arith) lt)

  -- A queue key with a deadline of 64 bits and a digest of 32 bytes decodes to both.
  pub decode_eviction_key-eviction_key :
      (c : ChannelId) (t : ℕ) (a : ArtifactId)
      → IsU64 t
      → IsDigest a.digest
      → decode_eviction_key (eviction_key text c t a) ≡ ok (t, a)
  unfolding eviction_key decode_eviction_key
  decode_eviction_key-eviction_key c t a ht hd =
      let word = to_be_bytes 8 t in
      let tail = word ++ a.digest in
      let key = text.as_key c ++ tail in
      let long : length key ≡ 66 = omega (
        arith,
        length-append (text.as_key c) tail,
        length-append word a.digest,
        text.as_key_length c,
        length-to_be_bytes 8 t,
      ) in
      let rest : drop 26 key ≡ tail = drop-append 26 (text.as_key c) tail (text.as_key_length c) in
      let digest : drop 34 key ≡ a.digest =
        drop-drop 26 8 key
        ∙ ap (drop 8) rest
        ∙ drop-append 8 word a.digest (length-to_be_bytes 8 t) in
      let deadline : from_be_bytes (take 8 (drop 26 key)) ≡ t =
        ap (λ l. from_be_bytes (take 8 l)) rest
        ∙ ap from_be_bytes (take-append 8 word a.digest (length-to_be_bytes 8 t))
        ∙ from_be_bytes-to_be_bytes 8 t (omega arith) in
      ground (arith, long, deadline, digest)

  pub starts_with-artifact_key :
      (c d : ChannelId) (a : ArtifactId)
      → starts_with (artifact_key text d a) (text.as_key c) ≡ (c == d)
  unfolding artifact_key
  starts_with-artifact_key c d a =
      starts_with-eq (text.as_key d) (text.as_key c) a.digest
        (text.as_key_length d ∙ sym (text.as_key_length c))
      ∙ as_key-eq d c
      ∙ ground arith

  pub starts_with-eviction_key :
      (c d : ChannelId) (t : ℕ) (a : ArtifactId)
      → starts_with (eviction_key text d t a) (text.as_key c) ≡ (c == d)
  unfolding eviction_key
  starts_with-eviction_key c d t a =
      starts_with-eq (text.as_key d) (text.as_key c) (to_be_bytes 8 t ++ a.digest)
        (text.as_key_length d ∙ sym (text.as_key_length c))
      ∙ as_key-eq d c
      ∙ ground arith
