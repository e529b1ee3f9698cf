-- ===== src/Discovery/Ejection.antt =====
-- src/agent/discovery.rs: when a member is ejected, and what that keeps it from.
use flywheel.Prelude.{
  ℕ, ◌+◌, ◌≡◌, ◌<◌, ◌≤◌, ◌↔◌, ◌≢◌, sym, ap, subst, ◌∙◌, Bool, true, false, List, [], ◌∷◌, map, All,
  Option, none, some, arith, Bool-cases, Option-cases, inl, inr, leb, saturating_add32, u32_max,
  u64_max, wrapping_add, wrapping_add_exact,
}
use flywheel.Bytes.{Bytes, bytes_eq, bytes_lt}
use flywheel.Bytes.Order.{bytes_eq→eq, bytes_eq_iff, bytes_lt_irrefl}
use flywheel.Sort.{sort}
use flywheel.Sort.Sorted.{IsStrict, All-sort}
use flywheel.Sort.Filters.{All-dedup}
use flywheel.Ring
use flywheel.Ring.{Ring, RingMember, owner, member_lt, same_member}
use flywheel.Ring.Owner.{owner-All}
use flywheel.Discovery.{
  RingInner, Limits, MemberHealth, find_member, set_member, rebuild, ring, record_failure,
  no_retry_due,
}
use flywheel.Discovery.Rebuild.{
  readmit, eligible, soonest, health_ids, Pending, soonest-Pending, readmit_idle,
}
use flywheel.Discovery.Invariant.{Inv, rebuild_lem, record_failure-Inv}

no_retry_due-Pending : (now : ℕ) (o : Option ℕ) → no_retry_due now o ≡ true → Pending now o
unfolding no_retry_due
no_retry_due-Pending now none h = tt
no_retry_due-Pending now (some d) h = ground arith

-- At time `t` a member with this ID is off the ring.
abbrev OutBy : ℕ → Bool → Option ℕ → Type 0
OutBy t false o = Unit
OutBy t true none = ⊥
OutBy t true (some deadline) = t < deadline

abbrev Out : ℕ → Bytes → MemberHealth → Type 0
Out t id h = OutBy t (bytes_eq h.member.id id) h.next_retry

OutBy-some : (t : ℕ) (b : Bool) (d : ℕ) → t < d → OutBy t b (some d)
OutBy-some t true d h = h
OutBy-some t false d h = tt

-- The rest of a list that rises strictly has other IDs than its head.
rest-Out :
    (t : ℕ) (id : Bytes) (x : MemberHealth) (xs : List MemberHealth)
    → x.member.id ≡ id
    → All (λ y. bytes_lt x.member.id y ≡ true) (health_ids xs)
    → All (Out t id) xs
rest-Out t id x [] e h = tt
rest-Out t id x (y ∷ ys) e h = (out, rest-Out t id x ys e h.1)
  where
    other : bytes_eq y.member.id id ≡ false
    other = ground (arith, bytes_eq→eq y.member.id id, bytes_lt_irrefl id, h.0)

    out : Out t id y
    out = rw other tt

set_member-Out :
    (t : ℕ) (id : Bytes) (new : MemberHealth) (hs : List MemberHealth)
    → IsStrict bytes_lt (health_ids hs)
    → Out t id new
    → All (Out t id) (set_member id new hs)
unfolding set_member
set_member-Out t id new [] s o = tt
set_member-Out t id new (x ∷ xs) s o = elim (Bool-cases (bytes_eq x.member.id id)) [
  | inl here ↦ rw here (o, rest-Out t id x xs (bytes_eq→eq x.member.id id here) s.0)
  | inr other ↦ rw other (rw other tt, set_member-Out t id new xs s.1 o)
]

readmit-Out :
    (t now : ℕ) (id : Bytes) (h : MemberHealth) → now ≤ t → Out t id h → Out t id (readmit now h)
unfolding readmit
readmit-Out t now id h le o = elim (Bool-cases (bytes_eq h.member.id id)) [
  | inl same ↦ elim (Option-cases h.next_retry) [
    | inl e ↦ absurd (subst (OutBy t true) e (subst (λ b. OutBy t b h.next_retry) same o))
    | inr (d, e) ↦
        let late : t < d = subst (OutBy t true) e (subst (λ b. OutBy t b h.next_retry) same o) in
        let later : leb d now ≡ false = ground arith in rw (e, readmit) (rw later o)
  ]
  | inr other ↦ elim (Option-cases h.next_retry) [
    | inl e ↦ rw (e, readmit) o
    | inr (d, e) ↦ elim (Bool-cases (leb d now)) [
      | inl due ↦ rw (e, readmit) (rw due (rw other tt))
      | inr later ↦ rw (e, readmit) (rw later o)
    ]
  ]
]

readmit-All-Out :
    (t now : ℕ) (id : Bytes) (hs : List MemberHealth)
    → now ≤ t
    → All (Out t id) hs
    → All (Out t id) (map (readmit now) hs)
readmit-All-Out t now id [] le o = tt
readmit-All-Out t now id (h ∷ hs) le o =
    (readmit-Out t now id h le o.0, readmit-All-Out t now id hs le o.1)

abbrev Other : Bytes → RingMember → Type 0
Other id m = bytes_eq m.id id ≡ false

eligible-Other :
    (t : ℕ) (id : Bytes) (hs : List MemberHealth) → All (Out t id) hs → All (Other id) (eligible hs)
unfolding eligible
eligible-Other t id [] o = tt
eligible-Other t id (h ∷ hs) o = elim (Option-cases h.next_retry) [
  | inl e ↦ rw (e, eligible) (different h o.0 e, eligible-Other t id hs o.1)
  | inr (d, e) ↦ rw (e, eligible) (eligible-Other t id hs o.1)
]
  where
    different : (h : MemberHealth) → Out t id h → h.next_retry ≡ none → Other id h.member
    different h out e = elim (Bool-cases (bytes_eq h.member.id id)) [
      | inl same ↦ absurd (subst (OutBy t true) e (subst (λ b. OutBy t b h.next_retry) same out))
      | inr other ↦ other
    ]

module _ (sha256 hex_encode : Bytes → Bytes) (limits : Limits) where
  -- In a state that keeps the invariant, the ring to route on is at every time that of the
  -- members with no deadline or with one that has passed, though no timer runs.
  pub ring-eligible :
      (inner : RingInner) (now : ℕ)
      → Inv sha256 hex_encode limits inner
      → (ring sha256 hex_encode inner now).1
        ≡ Ring.new sha256 hex_encode (eligible (map (readmit now) inner.members))
  unfolding ring
  ring-eligible inner now v = elim (Bool-cases (no_retry_due now inner.earliest_retry)) [
    | inl idle ↦
        let pending : Pending now (soonest none inner.members) =
          subst (Pending now) v.watched (no_retry_due-Pending now inner.earliest_retry idle) in
        rw (idle, readmit_idle now inner.members (soonest-Pending now none inner.members pending).1)
          v.routed
    | inr due ↦ rw (due, rebuild_lem sha256 hex_encode limits inner now)
  ]

  -- With a 32-bit limit, a failure ejects its member exactly when the member is known, is not
  -- ejected already, and has now failed as often as the limit says.
  pub record_failure-ejects_iff :
      (inner : RingInner) (id : Bytes) (now : ℕ)
      → limits.failure_limit ≤ u32_max
      → ((record_failure sha256 hex_encode limits inner id now).1 ≡ true) ↔ (
          (h : MemberHealth) × (find_member id inner.members ≡ some h)
          × (h.next_retry ≡ none)
          × (limits.failure_limit ≤ h.failures + 1))
  unfolding record_failure
  record_failure-ejects_iff inner id now word =
      (ejected, λ (h, found, on_ring, reached). ground arith)
    where
      ejected :
          (record_failure sha256 hex_encode limits inner id now).1 ≡ true
          → (h : MemberHealth) × (find_member id inner.members ≡ some h)
            × (h.next_retry ≡ none)
            × (limits.failure_limit ≤ h.failures + 1)
      ejected e = elim (Option-cases (find_member id inner.members)) [
        | inl missing ↦ absurd (ground arith)
        | inr (h, found) ↦ (h, found, ground arith, ground arith)
      ]

  Ring-All {κ} :
      (P : RingMember → Type κ) (ms : List RingMember)
      → All P ms
      → All P (Ring.new sha256 hex_encode ms).members
  unfolding Ring.new
  Ring-All P ms h = All-dedup same_member P (sort member_lt ms) (All-sort member_lt P ms h)

  -- The state after an ejection.
  ejected_lem :
      (inner : RingInner) (id : Bytes) (now : ℕ) (h : MemberHealth)
      → find_member id inner.members ≡ some h
      → h.next_retry ≡ none
      → limits.failure_limit ≤ saturating_add32 h.failures 1
      → (record_failure sha256 hex_encode limits inner id now).0
        ≡ rebuild sha256 hex_encode
            (record inner {
              members =
                  set_member id
                    (record h {
                      failures = saturating_add32 h.failures 1;
                      next_retry = some (wrapping_add now limits.retry_timeout_seconds);
                    })
                    inner.members;
            })
            now
  unfolding record_failure
  ejected_lem inner id now h found on_ring reached = ground arith

  -- In a state that keeps the invariant, with a failure limit of at least one and a retry deadline
  -- that fits in 64 bits: once a failure has ejected a member, no position is routed to it before
  -- this deadline; at any time from the ejection to `retry_timeout_seconds` after it, the owner of
  -- every position is another member.
  pub owner-record_failure :
      (inner : RingInner) (id : Bytes) (now t position : ℕ) {m : RingMember}
      → Inv sha256 hex_encode limits inner
      → 0 < limits.failure_limit
      → limits.failure_limit ≤ u32_max
      → (record_failure sha256 hex_encode limits inner id now).1 ≡ true
      → now ≤ t
      → now + limits.retry_timeout_seconds ≤ u64_max
      → t < now + limits.retry_timeout_seconds
      → owner
          (ring sha256 hex_encode (record_failure sha256 hex_encode limits inner id now).0 t).1
          position
        ≡ some m
      → m.id ≢ id
  owner-record_failure inner id now t position {m} v pos word e from fits before owns same =
      let later : t < wrapping_add now limits.retry_timeout_seconds =
        ground (arith, wrapping_add_exact now limits.retry_timeout_seconds fits) in
      let (h, found, on_ring, reached) = (record_failure-ejects_iff inner id now word).0 e in
      let after = (record_failure sha256 hex_encode limits inner id now).0 in
      let out : MemberHealth = record h {
        failures = saturating_add32 h.failures 1;
        next_retry = some (wrapping_add now limits.retry_timeout_seconds);
      } in
      let marked = record inner { members = set_member id out inner.members } in
      let state =
        ejected_lem inner id now h found on_ring (omega arith)
        ∙ rebuild_lem sha256 hex_encode limits marked now in
      let listed : after.members ≡ map (readmit now) (set_member id out inner.members) =
        ap (λ s. s.members) state in
      let outs : All (Out t id) after.members = subst (All (Out t id)) (sym listed) (
        readmit-All-Out t now id (set_member id out inner.members) from (
          set_member-Out t id out inner.members v.sorted (
            OutBy-some t (bytes_eq h.member.id id) (wrapping_add now limits.retry_timeout_seconds)
              later))) in
      let others =
        eligible-Other t id (map (readmit t) after.members)
          (readmit-All-Out t t id after.members (omega arith) outs) in
      let route =
        ring-eligible after t (record_failure-Inv sha256 hex_encode limits pos inner id now v) in
      let apart =
        owner-All (Other id) (Ring.new sha256 hex_encode (eligible (map (readmit t) after.members)))
          position (Ring-All (Other id) (eligible (map (readmit t) after.members)) others)
          (subst (λ r. owner r position ≡ some m) route owns) in
      ground (arith, (bytes_eq_iff m.id id).1 same)
