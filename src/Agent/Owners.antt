-- ===== src/Agent/Owners.antt =====
-- src/agent/mod.rs: whom a request is sent to, and what its outcome does to the routing state.
use flywheel.Prelude.{
  ℕ, ◌≡◌, ◌⊎◌, refl, sym, ap, ◌∙◌, Bool, false, some, ◌||◌, arith, Bool-cases, Option-cases, inl,
  inr, ◌<◌,
}
use flywheel.Bytes.{Bytes}
use flywheel.Ring.{RingMember, key_position, owner}
use flywheel.Discovery.{Limits, ring}
use flywheel.Discovery.Invariant.{Inv, ring-Inv, record_success-Inv, record_failure-Inv}
use flywheel.Agent.{Method, RouteClass, Request}
use flywheel.Agent.Routes.{classify, is_channel_path, build_cache_object, plain_object, segments}
use flywheel.Agent.Forward.{
  AgentState, Outbound, SendOutcome, response_headers, send_failed, outbound, record_send_failure,
  exchange, forward_request,
}

module _ (sha256 hex_encode : Bytes → Bytes) (limits : Limits) where
  record_send_failure-Inv :
      (s : AgentState) (member : RingMember) (now : ℕ) (c t : Bool)
      → 0 < limits.failure_limit
      → Inv sha256 hex_encode limits s.inner
      → Inv sha256 hex_encode limits
          (record_send_failure sha256 hex_encode limits s member now c t).inner
  unfolding record_send_failure
  record_send_failure-Inv s member now c t pos v = elim (Bool-cases (c || t)) [
    | inl h ↦
        rw (h, record_send_failure)
          (record_failure-Inv sha256 hex_encode limits pos s.inner member.id now v)
    | inr h ↦ rw (h, record_send_failure) v
  ]

  exchange-Inv :
      (s : AgentState) (member : RingMember) (class : RouteClass) (prefetch : Bool) (later : ℕ)
      (outcome : SendOutcome)
      → 0 < limits.failure_limit
      → Inv sha256 hex_encode limits s.inner
      → Inv sha256 hex_encode limits
          (exchange sha256 hex_encode limits s member class prefetch later outcome).0.inner
  unfolding exchange
  exchange-Inv s member class prefetch later (response_headers status headers body) pos v =
      record_success-Inv sha256 hex_encode limits pos s.inner member.id v
  exchange-Inv s member class prefetch later (send_failed c t) pos v =
      record_send_failure-Inv s member later c t pos v

  -- What a request does to the routing state, with a failure limit of at least one: the invariant
  -- of discovery is kept; and where the send fails with no failed connection and no timeout, as
  -- when a client aborts its upload, the state is what looking up the ring leaves, with no failure
  -- counted.
  pub forward_request-Inv :
      (s : AgentState) (request : Request) (prefetch : Bool) (now later : ℕ)
      (send : Outbound → SendOutcome)
      → 0 < limits.failure_limit
      → Inv sha256 hex_encode limits s.inner
      → let after =
          (forward_request sha256 hex_encode limits s request prefetch now later send).0 in
        Inv sha256 hex_encode limits after.inner
        × (((o : Outbound) → send o ≡ send_failed false false)
            → (after.inner ≡ s.inner) ⊎ (after.inner ≡ (ring sha256 hex_encode s.inner now).0))
  unfolding forward_request
  forward_request-Inv s request prefetch now later send pos v =
      let routed = classify request.method request.path in
      let found = ring sha256 hex_encode s.inner now in
      let v' = ring-Inv sha256 hex_encode limits pos s.inner now v in
      elim (Bool-cases (is_channel_path request.path)) [
        | inl channels ↦ rw (channels, forward_request) (v, λ h. inl refl)
        | inr elsewhere ↦ elim (Option-cases (key_position sha256 routed.kind routed.id)) [
          | inl long ↦ rw (elsewhere, forward_request) (rw long (v, λ h. inl refl))
          | inr (position, keyed) ↦ elim (Option-cases (owner found.1 position)) [
            | inl nobody ↦
                rw (elsewhere, forward_request) (rw keyed (rw nobody (v', λ h. inr refl)))
            | inr (member, owns) ↦
                let sent = outbound member request in
                rw (elsewhere, forward_request)
                  (rw keyed (
                    rw owns (
                      exchange-Inv (record s { inner = found.0 }) member routed.class prefetch later
                          (send sent) pos v',
                      λ h. inr (
                          neutral (record s { inner = found.0 }) member routed.class (send sent)
                            (h sent)),
                    )))
          ]
        ]
      ]
    where
      neutral :
          (t : AgentState) (member : RingMember) (class : RouteClass) (outcome : SendOutcome)
          → outcome ≡ send_failed false false
          → (exchange sha256 hex_encode limits t member class prefetch later outcome).0.inner
            ≡ t.inner
      neutral t member class outcome e = rw e (unfold exchange record_send_failure in refl)

classify-method :
    (m m' : Method) (path : Bytes)
    → ((classify m path).kind ≡ (classify m' path).kind)
      × ((classify m path).id ≡ (classify m' path).id)
unfolding classify
classify-method m m' path = elim (Option-cases (build_cache_object (segments path))) [
  | inr ((kind, id), e) ↦ rw (e, classify) (refl, refl)
  | inl e ↦ elim (Option-cases (plain_object (segments path))) [
    | inr ((kind, id), k) ↦ rw (e, classify) (rw k (refl, refl))
    | inl k ↦ rw (e, classify) (rw k (refl, refl))
  ]
]

module _ (sha256 hex_encode : Bytes → Bytes) (limits : Limits) where
  -- A request that is sent goes to the owner of its path's key.
  sent_lem :
      (s : AgentState) (request : Request) (prefetch : Bool) (now later : ℕ)
      (send : Outbound → SendOutcome) (o : Outbound)
      → (forward_request sha256 hex_encode limits s request prefetch now later send).2 ≡ some o
      → (position : ℕ) × (member : RingMember) × (key_position sha256
            (classify request.method request.path).kind
            (classify request.method request.path).id
          ≡ some position)
        × (owner (ring sha256 hex_encode s.inner now).1 position ≡ some member)
        × (member.address ≡ o.address)
  unfolding forward_request
  sent_lem s request prefetch now later send o e =
      let routed = classify request.method request.path in
      let found = ring sha256 hex_encode s.inner now in
      elim (Bool-cases (is_channel_path request.path)) [
        | inl channels ↦ absurd (ground arith)
        | inr elsewhere ↦ elim (Option-cases (key_position sha256 routed.kind routed.id)) [
          | inl long ↦ absurd (ground arith)
          | inr (position, keyed) ↦ elim (Option-cases (owner found.1 position)) [
            | inl nobody ↦ absurd (ground arith)
            | inr (member, owns) ↦ (position, member, keyed, owns, unfold outbound in ground arith)
          ]
        ]
      ]

  -- Of two requests for one path, at one time and one routing state, both go to the same shard if
  -- both are sent, whatever their methods, headers and bodies are.
  pub forward_request-address :
      (s : AgentState) (r r' : Request) (prefetch prefetch' : Bool) (now later later' : ℕ)
      (send send' : Outbound → SendOutcome) {o o' : Outbound}
      → r.path ≡ r'.path
      → (forward_request sha256 hex_encode limits s r prefetch now later send).2 ≡ some o
      → (forward_request sha256 hex_encode limits s r' prefetch' now later' send').2 ≡ some o'
      → o.address ≡ o'.address
  forward_request-address s r r' prefetch prefetch' now later later' send send' {o} {o'} same e e' =
      let (position, member, keyed, owns, there) = sent_lem s r prefetch now later send o e in
      let (position', member', keyed', owns', there') =
        sent_lem s r' prefetch' now later' send' o' e' in
      let (kinds, ids) = classify-method r.method r'.method r.path in
      let kind : (classify r.method r.path).kind ≡ (classify r'.method r'.path).kind =
        kinds ∙ ap (λ p. (classify r'.method p).kind) same in
      let id : (classify r.method r.path).id ≡ (classify r'.method r'.path).id =
        ids ∙ ap (λ p. (classify r'.method p).id) same in
      let key =
        ap (λ k. key_position sha256 k (classify r.method r.path).id) kind
        ∙ ap (key_position sha256 (classify r'.method r'.path).kind) id in
      let positions : position ≡ position' = ground (arith, key) in
      let members : member ≡ member' =
        ground (arith, ap (owner (ring sha256 hex_encode s.inner now).1) positions) in
      sym there ∙ ap (λ (m : RingMember). m.address) members ∙ there'
