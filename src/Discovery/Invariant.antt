-- ===== src/Discovery/Invariant.antt =====
-- src/agent/discovery.rs: the invariant of the routing state, operation by operation.
use flywheel.Prelude.{
  ℕ, ◌≡◌, ◌<◌, refl, sym, ap, ◌∙◌, List, [], ◌∷◌, map, All, Option, none, some, arith, Bool-cases,
  Option-cases, inl, inr, ltb, leb, ◌==◌, saturating_add32, wrapping_add,
}
use flywheel.Bytes.{Bytes, bytes_eq, bytes_lt}
use flywheel.Sort.{sort, dedup}
use flywheel.Sort.Sorted.{IsStrict, All-sort}
use flywheel.Sort.Filters.{map-sort, map-dedup, All-dedup}
use flywheel.Ring
use flywheel.Ring.{Ring, RingMember}
use flywheel.Ring.Points.{dedup-sort-IsStrict}
use flywheel.Discovery.{
  RingInner, Limits, MemberHealth, health_lt, same_health, find_member, set_member, rebuild, new,
  ring, record_failure, record_success, apply_snapshot, carry_health, no_retry_due,
}
use flywheel.Discovery.Rebuild.{
  readmit, eligible, soonest, health_ids, rebuild_members_lem, health_ids-readmit,
}
use flywheel.Discovery.Members.{
  find_member-id, All-find_member, All-set_member, health_ids-set_member, eligible-set_member,
  soonest-set_member,
}

abbrev pub LimitedBy : Limits → ℕ → Option ℕ → Type 0
LimitedBy limits failures none = failures < limits.failure_limit
LimitedBy limits failures (some _) = Unit

-- A member on the ring has fewer failures than eject it.
abbrev pub Limited : Limits → MemberHealth → Type 0
Limited limits h = LimitedBy limits h.failures h.next_retry

All-units {ℓ} : {A : Type ℓ} (xs : List A) → All (λ _. Unit {0}) xs
All-units [] = tt
All-units (x ∷ xs) = (tt, All-units xs)

module _ (sha256 hex_encode : Bytes → Bytes) (limits : Limits) where
  -- The IDs rise strictly; nobody on the ring has reached the failure limit; the retry deadline
  -- to watch is the soonest of all; and the ring is the one of the members with no deadline.
  pub record Inv (inner : RingInner) : Type 0 where
    pub sorted : IsStrict bytes_lt (health_ids inner.members)
    pub limited : All (Limited limits) inner.members
    pub watched : inner.earliest_retry ≡ soonest none inner.members
    pub routed : inner.ring ≡ Ring.new sha256 hex_encode (eligible inner.members)

  pub rebuild_lem :
      (inner : RingInner) (now : ℕ)
      → rebuild sha256 hex_encode inner now ≡ record inner {
        members = map (readmit now) inner.members;
        ring = Ring.new sha256 hex_encode (eligible (map (readmit now) inner.members));
        earliest_retry = soonest none (map (readmit now) inner.members);
      }
  unfolding rebuild
  rebuild_lem inner now = rw (rebuild_members_lem now none inner.members)

  module _ (at_least_one : 0 < limits.failure_limit) where
    readmit-Limited :
        (now : ℕ) (hs : List MemberHealth)
        → All (Limited limits) hs
        → All (Limited limits) (map (readmit now) hs)
    unfolding readmit
    readmit-Limited now [] p = tt
    readmit-Limited now (h ∷ hs) p = (limited_after, readmit-Limited now hs p.1)
      where
        limited_after : Limited limits (readmit now h)
        limited_after = elim (Option-cases h.next_retry) [
          | inl e ↦ rw (e, readmit) p.0
          | inr (d, e) ↦ elim (Bool-cases (leb d now)) [
            | inl due ↦ rw (e, readmit) (rw due at_least_one)
            | inr later ↦ rw (e, readmit) (rw later p.0)
          ]
        ]

    pub rebuild-Inv :
        (inner : RingInner) (now : ℕ)
        → IsStrict bytes_lt (health_ids inner.members)
        → All (Limited limits) inner.members
        → Inv (rebuild sha256 hex_encode inner now)
    rebuild-Inv inner now s l = rw (rebuild_lem inner now) (record {
      sorted = rw (health_ids-readmit now inner.members) s;
      limited = readmit-Limited now inner.members l;
      watched = refl;
      routed = refl;
    })

    pub new-Inv : Inv (new sha256 hex_encode)
    unfolding new eligible soonest
    new-Inv = record { sorted = tt; limited = tt; watched = refl; routed = refl }

    pub ring-Inv :
        (inner : RingInner) (now : ℕ) → Inv inner → Inv (ring sha256 hex_encode inner now).0
    unfolding ring
    ring-Inv inner now v = elim (Bool-cases (no_retry_due now inner.earliest_retry)) [
      | inl idle ↦ rw idle v
      | inr due ↦ rw due (rebuild-Inv inner now v.sorted v.limited)
    ]

    -- A new failure count that keeps the member below the limit keeps the invariant.
    counted-Inv :
        (inner : RingInner) (id : Bytes) (old : MemberHealth) (n : ℕ)
        → Inv inner
        → find_member id inner.members ≡ some old
        → Limited limits (record old { failures = n })
        → Inv (record inner { members = set_member id (record old { failures = n }) inner.members })
    counted-Inv inner id old n v found l =
        let counted = record old { failures = n } in
        record {
          sorted =
              rw
                (health_ids-set_member id counted inner.members
                  (find_member-id id inner.members found))
                v.sorted;
          limited = All-set_member id counted (Limited limits) inner.members l v.limited;
          watched =
              v.watched
              ∙ sym (soonest-set_member id counted old refl refl none inner.members found);
          routed =
              v.routed
              ∙ ap (Ring.new sha256 hex_encode)
                  (sym (eligible-set_member id counted old refl refl inner.members found));
        }

    LimitedBy-zero : (o : Option ℕ) → LimitedBy limits 0 o
    LimitedBy-zero none = at_least_one
    LimitedBy-zero (some d) = tt

    pub record_success-Inv :
        (inner : RingInner) (id : Bytes) → Inv inner → Inv (record_success inner id)
    unfolding record_success
    record_success-Inv inner id v = elim (Option-cases (find_member id inner.members)) [
      | inl missing ↦ rw (missing, record_success) v
      | inr (old, found) ↦ elim (Bool-cases (old.failures == 0)) [
        | inl healthy ↦ rw (found, record_success) (rw healthy v)
        | inr failing ↦
            rw (found, record_success)
              (rw failing (counted-Inv inner id old 0 v found (LimitedBy-zero old.next_retry)))
      ]
    ]

    pub record_failure-Inv :
        (inner : RingInner) (id : Bytes) (now : ℕ)
        → Inv inner
        → Inv (record_failure sha256 hex_encode limits inner id now).0
    unfolding record_failure
    record_failure-Inv inner id now v = elim (Option-cases (find_member id inner.members)) [
      | inl missing ↦ rw (missing, record_failure) v
      | inr (old, found) ↦
          let n = saturating_add32 old.failures 1 in
          elim (Option-cases old.next_retry) [
            | inr (d, out) ↦
                rw (found, record_failure) (rw out (counted-Inv inner id old n v found (rw out tt)))
            | inl on_ring ↦ elim (Bool-cases (ltb n limits.failure_limit)) [
              | inl few ↦
                  rw (found, record_failure)
                    (rw on_ring
                      (rw few (counted-Inv inner id old n v found (rw on_ring (ground arith)))))
              | inr many ↦
                  let out : MemberHealth = record old {
                    failures = n;
                    next_retry = some (wrapping_add now limits.retry_timeout_seconds);
                  } in
                  rw (found, record_failure)
                    (rw on_ring (
                      rw many (
                        rebuild-Inv (record inner { members = set_member id out inner.members }) now
                          (rw
                            (health_ids-set_member id out inner.members
                              (find_member-id id inner.members found))
                            v.sorted)
                          (All-set_member id out (Limited limits) inner.members tt v.limited))))
            ]
          ]
    ]

    carry_health-Limited :
        (hs : List MemberHealth) (m : RingMember)
        → All (Limited limits) hs
        → Limited limits (carry_health hs m)
    unfolding carry_health
    carry_health-Limited hs m l = elim (Option-cases (find_member m.id hs)) [
      | inl missing ↦ rw (missing, carry_health) at_least_one
      | inr (old, found) ↦
          rw (found, carry_health) (All-find_member m.id (Limited limits) hs l found)
    ]

    carried-Limited :
        (hs : List MemberHealth) (ms : List RingMember)
        → All (Limited limits) hs
        → All (Limited limits) (map (carry_health hs) ms)
    carried-Limited hs [] l = tt
    carried-Limited hs (m ∷ ms) l = (carry_health-Limited hs m l, carried-Limited hs ms l)

    pub apply_snapshot-Inv :
        (inner : RingInner) (discovered : List RingMember) (now : ℕ)
        → Inv inner
        → Inv (apply_snapshot sha256 hex_encode inner discovered now)
    unfolding apply_snapshot
    apply_snapshot-Inv inner discovered now v =
        let carried = map (carry_health inner.members) discovered in
        let members = dedup same_health (sort health_lt carried) in
        let names : health_ids members ≡ dedup bytes_eq (sort bytes_lt (health_ids carried)) =
          map-dedup same_health bytes_eq (λ h. h.member.id) (λ x y. refl) (sort health_lt carried)
          ∙ ap (dedup bytes_eq) (
              map-sort (λ _. Unit {0}) health_lt bytes_lt (λ h. h.member.id) (λ x y _ _. refl)
                carried (All-units carried)) in
        rebuild-Inv (record inner { members = members; last_refresh = some now; last_error = none })
          now (rw names (dedup-sort-IsStrict (health_ids carried)))
          (All-dedup same_health (Limited limits) (sort health_lt carried) (
            All-sort health_lt (Limited limits) carried
              (carried-Limited inner.members discovered v.limited)))
