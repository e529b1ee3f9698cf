-- ===== src/Http/Lengths.antt =====
-- src/transport/http/mod.rs: the length that a read declares, and the bytes of its body.
use flywheel.Prelude.{
  ℕ, ◌+◌, ◌-◌, ◌≡◌, ◌≤◌, ◌⊎◌, refl, Bool, true, false, not, ◌&&◌, Option, some, min, ltb, ◌==◌,
  arith, Bool-cases, inl, inr, subst, head?,
}
use flywheel.Bytes.{Bytes}
use flywheel.Text.{decimal}
use flywheel.Storage.Ids.{ArtifactId, ArtifactMetadata, StoredEncoding, identity, zstd}
use flywheel.Http.{content_length, Body, empty, file_bytes, whole_file, decoded, json, Response}
use flywheel.Http.Range.{RangeSelection, full, partial, unsatisfiable, parse_range}
use flywheel.Http.Ranges.{Within, parse_range-Within}
use flywheel.Http.Serve.{
  RequestHeaders, Selected, answer_headers, answer_body, answer, selection, located_response,
  accepts_zstd, not_satisfiable,
}
use flywheel.Identity.{Hex}

-- The bytes that a body yields from a stored file of `m.stored_len` bytes, which decodes to
-- `m.content_len`. No read answers with a document.
abbrev pub body_length : ArtifactMetadata → Body → ℕ
body_length m empty = 0
body_length m (file_bytes start length) = min length (m.stored_len - start)
body_length m whole_file = m.stored_len
body_length m (decoded length) = min length m.content_len
body_length m (json document) = 0

-- An identity body is stored as it is.
abbrev pub IsStored : ArtifactMetadata → Type 0
IsStored m = m.encoding ≡ identity → m.stored_len ≡ m.content_len

-- A response that a read can end in.
abbrev pub Honest : ArtifactMetadata → Response → Type 0
Honest m r =
    (r.status ≡ 416)
    ⊎ (r.status ≡ 500)
    ⊎ (head? r.headers ≡ some (content_length, decimal (body_length m r.body)))

module _ (hex : Hex) (artifact : ArtifactId) where
  answer-identity :
      (m : ArtifactMetadata) (is_partial seek : Bool) (chosen : Selected)
      → chosen.start + chosen.length ≤ m.content_len
      → m.stored_len ≡ m.content_len
      → Honest
          (record m { encoding = identity })
          (answer hex artifact
            (record m { encoding = identity })
            false
            is_partial
            false
            chosen
            seek).0
  unfolding answer answer_body answer_headers
  answer-identity m is_partial seek chosen inside stored = elim (Bool-cases (chosen.length == 0)) [
    | inl none_left ↦
        let e : chosen.length ≡ 0 = ground arith in rw (none_left, answer) (inr (inr (rw e refl)))
    | inr some_left ↦ elim (Bool-cases (ltb 0 chosen.start && not seek)) [
      | inl lost ↦ rw (some_left, answer) (rw lost (inr (inl refl)))
      | inr found ↦
          let e : min chosen.length (m.stored_len - chosen.start) ≡ chosen.length = omega arith in
          rw (some_left, answer) (rw found (inr (inr (rw e refl))))
    ]
  ]

  answer-zstd :
      (m : ArtifactMetadata) (seek passthrough : Bool)
      → let m' : ArtifactMetadata = record m { encoding = zstd } in
        Honest m'
          (answer hex artifact m' false false passthrough
            record { start = 0; end = m.content_len - 1; length = m.content_len }
            seek).0
  unfolding answer answer_body answer_headers
  answer-zstd m seek true = elim (Bool-cases (m.content_len == 0)) [
    | inl none_left ↦ rw (none_left, answer) (inr (inr refl))
    | inr some_left ↦ rw (some_left, answer) (inr (inr refl))
  ]
  answer-zstd m seek false = elim (Bool-cases (m.content_len == 0)) [
    | inl none_left ↦
        let e : m.content_len ≡ 0 = ground arith in rw (none_left, answer) (inr (inr (rw e refl)))
    | inr some_left ↦
        let e : min m.content_len m.content_len ≡ m.content_len = omega arith in
        rw (some_left, answer) (inr (inr (rw e refl)))
  ]

  module _ (to_str : Bytes → Option Bytes) where
    selected :
        (m : ArtifactMetadata) (headers : RequestHeaders) (seek : Bool) (r : RangeSelection)
        → parse_range to_str headers.range m.content_len ≡ r
        → m.stored_len ≡ m.content_len
        → let m' : ArtifactMetadata = record m { encoding = identity } in
          Honest m' (located_response hex to_str artifact m' headers false seek).0
    unfolding located_response selection not_satisfiable
    selected m headers seek full e stored =
        rw (e, located_response)
          (answer-identity m false seek
            record { start = 0; end = m.content_len - 1; length = m.content_len } (omega arith)
            stored)
    selected m headers seek unsatisfiable e stored = rw (e, located_response) (inl refl)
    selected m headers seek (partial start end) e stored =
        let within : Within m.content_len (partial start end) =
          subst (Within m.content_len) e (parse_range-Within to_str headers.range m.content_len) in
        rw (e, located_response)
          (answer-identity m true seek record { start = start; end = end; length = end - start + 1 }
            (omega arith) stored)

    by_encoding :
        (m : ArtifactMetadata) (headers : RequestHeaders) (seek : Bool) (encoding : StoredEncoding)
        → (encoding ≡ identity → m.stored_len ≡ m.content_len)
        → let m' : ArtifactMetadata = record m { encoding = encoding } in
          Honest m' (located_response hex to_str artifact m' headers false seek).0
    by_encoding m headers seek identity stored = selected m headers seek _ refl (stored refl)
    by_encoding m headers seek zstd stored =
        unfold located_response selection in
        answer-zstd m seek (accepts_zstd to_str headers.accept_encoding)

    -- A GET of a body that was located and is stored as its encoding says ends in 416, in 500,
    -- or in a response whose first header, Content-Length, is the number of bytes that its body
    -- yields, ranges and the passing through of zstd included.
    pub located_response-Honest :
        (m : ArtifactMetadata) (headers : RequestHeaders) (seek : Bool)
        → IsStored m
        → Honest m (located_response hex to_str artifact m headers false seek).0
    located_response-Honest m headers seek stored = by_encoding m headers seek m.encoding stored
