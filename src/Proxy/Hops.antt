-- ===== src/Proxy/Hops.antt =====
-- src/proxy/mod.rs: what a fetch sends, and how often.
use flywheel.Prelude.{
  ℕ, zero, suc, ◌+◌, ◌*◌, ◌≡◌, ◌≤◌, refl, subst, sym, Bool, true, false, ◌&&◌, ◌||◌, Option, none,
  some, ◌∷◌, All, length, ltb, arith, Bool-cases, Option-cases, inl, inr, ◌⊎◌,
}
use flywheel.Bytes.{Bytes}
use flywheel.Storage.Ids.{ReferenceRecord}
use flywheel.Storage.Errors.{Result, ok, Result-cases}
use flywheel.Proxy.{Protocol}
use flywheel.Proxy.Origins.{Urls, ProxyError, AllowedOrigins, check_origin}
use flywheel.Proxy.Upstream.{
  Reply, Sent, answered, failed, is_redirect, is_server_error, Request, Wire, request_of, attempts,
  next_hop, hops, send_validated,
}

module _ (urls : Urls) where
  open urls use {Url}

  request_of-target :
      (accept : Option Bytes) (current : Option ReferenceRecord) (url : Url)
      → (request_of urls accept current url).target ≡ url
  unfolding request_of
  request_of-target accept none url = refl
  request_of-target accept (some r) url = refl

  module _ (network : Wire urls → Request urls → Sent) where
    Sent-cases :
        (s : Sent) → ((r : Reply) × (s ≡ answered r)) ⊎ ((c : Bool) × (t : Bool) × (s ≡ failed c t))
    Sent-cases (answered r) = inl (r, refl)
    Sent-cases (failed c t) = inr (c, t, refl)

    -- The attempts send one request, at most `left` times.
    attempts-length :
        (left : ℕ) (wire : Wire urls) (request : Request urls)
        → length (attempts urls network left wire request).0 ≤ length wire + left
    unfolding attempts
    attempts-length zero wire request = omega arith
    attempts-length (suc left) wire request =
        let again = attempts-length left (request ∷ wire) request in
        elim (Sent-cases (network wire request)) [
          | inl (reply, e) ↦ elim (Bool-cases (is_server_error reply.status && ltb 0 left)) [
            | inl h ↦ rw (e, attempts) (rw h (omega arith))
            | inr h ↦ rw (e, attempts) (rw h (omega arith))
          ]
          | inr (c, t, e) ↦ elim (Bool-cases (ltb 0 left && (c || t))) [
            | inl h ↦ rw (e, attempts) (rw h (omega arith))
            | inr h ↦ rw (e, attempts) (rw h (omega arith))
          ]
        ]

    attempts-All {κ} :
        (P : Request urls → Type κ) (left : ℕ) (wire : Wire urls) (request : Request urls)
        → P request
        → All P wire
        → All P (attempts urls network left wire request).0
    unfolding attempts
    attempts-All P zero wire request p h = h
    attempts-All P (suc left) wire request p h =
        let again = attempts-All P left (request ∷ wire) request p (p, h) in
        elim (Sent-cases (network wire request)) [
          | inl (reply, e) ↦ elim (Bool-cases (is_server_error reply.status && ltb 0 left)) [
            | inl k ↦ rw (e, attempts) (rw k again)
            | inr k ↦ rw (e, attempts) (rw k (p, h))
          ]
          | inr (c, t, e) ↦ elim (Bool-cases (ltb 0 left && (c || t))) [
            | inl k ↦ rw (e, attempts) (rw k again)
            | inr k ↦ rw (e, attempts) (rw k (p, h))
          ]
        ]

    module _ (allowed : AllowedOrigins urls) (protocol : Protocol) where
      abbrev pub Passes : Request urls → Type 0
      Passes request = check_origin urls allowed protocol request.target ≡ true

      next_hop-Passes :
          (target : Url) (reply : Reply) {next : Url}
          → next_hop urls network allowed protocol target reply ≡ ok (some next)
          → check_origin urls allowed protocol next ≡ true
      unfolding next_hop
      next_hop-Passes target reply {next} h = ground arith

      next_hop-final :
          (target : Url) (reply : Reply)
          → next_hop urls network allowed protocol target reply ≡ ok none
          → is_redirect reply.status ≡ false
      unfolding next_hop
      next_hop-final target reply h = ground arith

      -- What a fetch leaves of the wire, from a wire and a number of hops.
      abbrev pub Fetched : Wire urls → ℕ → Wire urls × Result ProxyError Reply → Type 0
      Fetched wire left after =
          All Passes after.0
          × (length after.0 ≤ length wire + 3 * left)
          × ((reply : Reply) → after.1 ≡ ok reply → is_redirect reply.status ≡ false)

      hops-Fetched :
          (build : Url → Request urls)
          → ((url : Url) → (build url).target ≡ url)
          → (left : ℕ) (wire : Wire urls) (target : Url)
          → check_origin urls allowed protocol target ≡ true
          → All Passes wire
          → Fetched wire left (hops urls network allowed protocol build left wire target)
      unfolding hops
      hops-Fetched build same zero wire target p h = (h, omega arith, λ reply e. cc)
      hops-Fetched build same (suc left) wire target p h =
          let tried = attempts urls network 3 wire (build target) in
          let passes =
            attempts-All Passes 3 wire (build target)
              (subst (λ t. check_origin urls allowed protocol t ≡ true) (sym (same target)) p) h in
          let few = attempts-length 3 wire (build target) in
          elim (Result-cases tried.1) [
            | inr (error, e) ↦ rw (e, hops) (passes, omega arith, λ reply k. cc)
            | inl (found, e) ↦ elim (Option-cases found) [
              | inl gone ↦ rw (e, hops) (rw gone (passes, omega arith, λ reply k. cc))
              | inr (reply, here) ↦
                  elim (Result-cases (next_hop urls network allowed protocol target reply)) [
                    | inr (error, k) ↦
                        rw (e, hops) (rw here (rw k (passes, omega arith, λ r m. cc)))
                    | inl (leads, k) ↦ elim (Option-cases leads) [
                      | inl final ↦
                          rw (e, hops)
                            (rw here (
                              rw k (
                                rw final (
                                  passes,
                                  omega arith,
                                  λ r m. ground (arith, next_hop-final target reply),
                                ))))
                      | inr (next, on) ↦
                          let (all, count, last) =
                            hops-Fetched build same left tried.0 next
                              (next_hop-Passes target reply (ground arith)) passes in
                          rw (e, hops) (rw here (rw k (rw on (all, omega arith, last))))
                    ]
                  ]
            ]
          ]

      -- A fetch of a URL whose origin is allowed ends after at most eighteen requests, six hops
      -- of three attempts; if all requests sent before went to allowed origins, each of them
      -- does, wherever the upstreams redirect; and a response that it returns is no redirect.
      pub send_validated-Fetched :
          (wire : Wire urls) (url : Url) (current : Option ReferenceRecord) (accept : Option Bytes)
          → check_origin urls allowed protocol url ≡ true
          → All Passes wire
          → Fetched wire 6 (send_validated urls network allowed protocol wire url current accept)
      unfolding send_validated
      send_validated-Fetched wire url current accept p h =
          hops-Fetched (request_of urls accept current) (request_of-target accept current) 6 wire
            url p h
