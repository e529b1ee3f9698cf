-- ===== src/Proxy/Contacts.antt =====
-- src/proxy/mod.rs: what the entry points of the proxies send, and what they leave.
use flywheel.Prelude.{
  ℕ, ◌+◌, ◌≡◌, ◌≤◌, refl, ap, ◌∙◌, true, Option, All, length, ltb, arith, Bool-cases, Option-cases,
  inl, inr,
}
use flywheel.Bytes.{Bytes}
use flywheel.Storage.Ids.{ChannelId, ReferenceRecord}
use flywheel.Storage.Errors.{Result, ok, Result-cases}
use flywheel.Proxy.{Protocol, Transform, untouched, upstream_accept, cache_variant}
use flywheel.Proxy.Origins.{
  Urls, ProxyError, AllowedOrigins, UpstreamBases, check_origin, checked, build_url, decode_url,
  proxy_reference,
}
use flywheel.Proxy.Upstream.{Sent, Request, Wire, send_validated}
use flywheel.Proxy.Hops.{Passes, send_validated-Fetched}
use flywheel.Proxy.Store.{Store}
use flywheel.Proxy.Fetch.{Proxy, consult, look, fetch_url, fetch, fetch_encoded_url}

module _ (urls : Urls) (store : Store) (allowed : AllowedOrigins urls)
    (network : Wire urls → Request urls → Sent) (sha256 hex_encode : Bytes → Bytes)
    (rewrite : Transform → urls.Url → Bytes → Result ProxyError Bytes) (ttl : ℕ)
    (protocol : Protocol) where
  open urls use {Url}
  open store use {World}

  abbrev State : Type 0
  State = Proxy urls store allowed network sha256 hex_encode rewrite ttl

  -- Only allowed origins were contacted, at most eighteen times since `p`.
  abbrev pub Contacted : State → State → Type 0
  Contacted p q =
      All (Passes urls network allowed protocol) q.wire × (length q.wire ≤ length p.wire + 18)

  consult-Contacted :
      (p : State) (channel : ChannelId) (reference : Bytes) (current : Option ReferenceRecord)
      (url : Url) (transform : Transform)
      → check_origin urls allowed protocol url ≡ true
      → All (Passes urls network allowed protocol) p.wire
      → Contacted p
          (consult urls store allowed network sha256 hex_encode rewrite ttl protocol p channel
            reference current url transform).0
  unfolding consult
  consult-Contacted p channel reference current url transform h k =
      let accept = upstream_accept transform in
      let sent = send_validated urls network allowed protocol p.wire url current accept in
      let (all, few, last) =
        send_validated-Fetched urls network allowed protocol p.wire url current accept h k in
      elim (Bool-cases (ltb 0 p.permits)) [
        | inr full ↦ rw (full, consult) (k, omega arith)
        | inl free ↦ elim (Result-cases sent.1) [
          | inl (reply, e) ↦ rw (free, consult) (rw e (all, omega arith))
          | inr (error, e) ↦ rw (free, consult) (rw e (all, omega arith))
        ]
      ]

  look-wire :
      (p : State) (channel : ChannelId) (reference : Bytes) (now : ℕ) (url : Url)
      (transform : Transform)
      → (look urls store allowed network sha256 hex_encode rewrite ttl protocol p channel reference
          now url transform).0.wire
        ≡ p.wire
  unfolding look
  look-wire p channel reference now url transform =
      elim (Result-cases (store.resolve_reference p.world channel reference).1) [
        | inl (found, e) ↦ rw (e, look) refl
        | inr (error, e) ↦ rw (e, look) refl
      ]

  fetch_url-Contacted :
      (p : State) (channel : ChannelId) (first second : ℕ) (url : Url) (transform : Transform)
      → check_origin urls allowed protocol url ≡ true
      → All (Passes urls network allowed protocol) p.wire
      → Contacted p
          (fetch_url urls store allowed network sha256 hex_encode rewrite ttl protocol p channel
            first second url transform).0
  unfolding fetch_url
  fetch_url-Contacted p channel first second url transform h k =
      let reference =
        proxy_reference urls sha256 hex_encode protocol url (cache_variant transform) in
      let before =
        look urls store allowed network sha256 hex_encode rewrite ttl protocol p channel reference
          first url transform in
      let again =
        look urls store allowed network sha256 hex_encode rewrite ttl protocol before.0 channel
          reference second url transform in
      let quiet = look-wire p channel reference first url transform in
      let quiet' = look-wire before.0 channel reference second url transform ∙ quiet in
      let still : Contacted p p = (k, omega arith) in
      elim (Result-cases before.1) [
        | inr (error, e) ↦ rw (e, fetch_url) (rw quiet still)
        | inl ((_, served), e) ↦ elim (Option-cases served) [
          | inr (outcome, s) ↦ rw (e, fetch_url) (rw s (rw quiet still))
          | inl stale ↦ elim (Result-cases again.1) [
            | inr (error, e') ↦ rw (e, fetch_url) (rw stale (rw e' (rw quiet' still)))
            | inl ((current, served'), e') ↦ elim (Option-cases served') [
              | inr (outcome, s) ↦ rw (e, fetch_url) (rw stale (rw e' (rw s (rw quiet' still))))
              | inl stale' ↦
                  rw (e, fetch_url)
                    (rw stale (
                      rw e' (
                        rw stale' (
                          let (all, few) =
                            consult-Contacted again.0 channel reference current url transform h
                              (rw quiet' k) in
                          (all, ground (arith, ap length quiet'))))))
            ]
          ]
        ]
      ]

  checked-passes :
      (url target : Url)
      → checked urls allowed protocol url ≡ ok target
      → check_origin urls allowed protocol target ≡ true
  unfolding checked
  checked-passes url target e = ground arith

  build_url-passes :
      (bases : UpstreamBases urls) (path : Bytes) (target : Url)
      → build_url urls allowed bases protocol path ≡ ok target
      → check_origin urls allowed protocol target ≡ true
  unfolding build_url
  build_url-passes bases path target e = ground (arith, λ (u : Url). checked-passes u target)

  decode_url-passes :
      (decode : Bytes → Option Bytes) (encoded suffix : Bytes) (target : Url)
      → decode_url urls allowed decode protocol encoded suffix ≡ ok target
      → check_origin urls allowed protocol target ≡ true
  unfolding decode_url
  decode_url-passes decode encoded suffix target e =
      ground (arith, λ (u : Url). checked-passes u target)

  -- Whatever path or encoded URL a client sends, whatever the cache answers and wherever the
  -- upstreams redirect: a fetch contacts only origins that are allowed for its protocol, if all
  -- requests sent before did so, and it sends at most eighteen requests.
  pub fetch-Contacted :
      (decode : Bytes → Option Bytes) (bases : UpstreamBases urls) (p : State) (channel : ChannelId)
      (first second : ℕ) (path encoded suffix : Bytes) (transform : Transform)
      → All (Passes urls network allowed protocol) p.wire
      → Contacted p
          (fetch urls store allowed network sha256 hex_encode rewrite ttl protocol bases p channel
            first second path transform).0
        × Contacted p
            (fetch_encoded_url urls store allowed network sha256 hex_encode rewrite ttl protocol
              decode p channel first second encoded suffix).0
  unfolding fetch fetch_encoded_url
  fetch-Contacted decode bases p channel first second path encoded suffix transform k =
      (by_path, by_url)
    where
      still : Contacted p p
      still = (k, omega arith)

      by_path :
          Contacted p
            (fetch urls store allowed network sha256 hex_encode rewrite ttl protocol bases p channel
              first second path transform).0
      by_path = elim (Result-cases (build_url urls allowed bases protocol path)) [
        | inr (error, e) ↦ rw (e, fetch) still
        | inl (url, e) ↦
            rw (e, fetch)
              (fetch_url-Contacted p channel first second url transform
                (build_url-passes bases path url e) k)
      ]

      by_url :
          Contacted p
            (fetch_encoded_url urls store allowed network sha256 hex_encode rewrite ttl protocol
              decode p channel first second encoded suffix).0
      by_url = elim (Result-cases (decode_url urls allowed decode protocol encoded suffix)) [
        | inr (error, e) ↦ rw (e, fetch_encoded_url) still
        | inl (url, e) ↦
            rw (e, fetch_encoded_url)
              (fetch_url-Contacted p channel first second url untouched
                (decode_url-passes decode encoded suffix url e) k)
      ]
