-- ===== src/Discovery/Rebuild.antt =====
-- src/agent/discovery.rs: the loop of `rebuild` against its description member by member.
use flywheel.Prelude.{
  ℕ, ◌<◌, ◌≡◌, refl, subst, List, [], ◌∷◌, map, All, Option, none, some, arith, leb, Bool-cases,
  Option-cases, inl, inr, if◌then◌else◌,
}
use flywheel.Bytes.{Bytes}
use flywheel.Ring.{RingMember}
use flywheel.Discovery.{MemberHealth, sooner, rebuild_members}

-- A member whose retry deadline has passed is healthy again.
unfoldable pub readmit : ℕ → MemberHealth → MemberHealth
readmit now h = elim h.next_retry [
  | none ↦ h
  | some deadline ↦ if leb deadline now then record h { failures = 0; next_retry = none } else h
]

-- The members without a deadline.
unfoldable pub eligible : List MemberHealth → List RingMember
eligible [] = []
eligible (h ∷ hs) = elim h.next_retry [ none ↦ h.member ∷ eligible hs | some _ ↦ eligible hs ]

-- The least deadline of the rest and of what is given.
unfoldable pub soonest : Option ℕ → List MemberHealth → Option ℕ
soonest earliest [] = earliest
soonest earliest (h ∷ hs) = elim h.next_retry [
  | none ↦ soonest earliest hs
  | some deadline ↦ soonest (sooner earliest deadline) hs
]

abbrev pub health_ids : List MemberHealth → List Bytes
health_ids = map (λ h. h.member.id)

pub rebuild_members_lem :
    (now : ℕ) (earliest : Option ℕ) (hs : List MemberHealth)
    → rebuild_members now earliest hs ≡ record {
      members = map (readmit now) hs;
      eligible = eligible (map (readmit now) hs);
      earliest = soonest earliest (map (readmit now) hs);
    }
unfolding rebuild_members readmit eligible soonest
rebuild_members_lem now earliest [] = refl
rebuild_members_lem now earliest (h ∷ hs) = elim (Option-cases h.next_retry) [
  | inl e ↦ ground (arith, rebuild_members_lem now earliest hs)
  | inr (d, e) ↦
      ground
        (arith, rebuild_members_lem now earliest hs, rebuild_members_lem now (sooner earliest d) hs)
]

pub health_ids-readmit :
    (now : ℕ) (hs : List MemberHealth) → health_ids (map (readmit now) hs) ≡ health_ids hs
unfolding readmit
health_ids-readmit now [] = refl
health_ids-readmit now (h ∷ hs) = ground (arith, health_ids-readmit now hs)

-- Beyond `now`, or no deadline.
abbrev pub Pending : ℕ → Option ℕ → Type 0
Pending now none = Unit
Pending now (some deadline) = now < deadline

-- What is left of the deadlines lies in the future.
pub readmit-Pending :
    (now : ℕ) (hs : List MemberHealth) → All (λ h. Pending now h.next_retry) (map (readmit now) hs)
unfolding readmit
readmit-Pending now [] = tt
readmit-Pending now (h ∷ hs) = (pending h, readmit-Pending now hs)
  where
    pending : (h : MemberHealth) → Pending now (readmit now h).next_retry
    pending h = elim (Option-cases h.next_retry) [
      | inl e ↦ rw (e, readmit) (rw e tt)
      | inr (d, e) ↦ elim (Bool-cases (leb d now)) [
        | inl due ↦ rw (e, readmit) (rw due tt)
        | inr later ↦ rw (e, readmit) (rw later (rw e (ground arith)))
      ]
    ]

sooner-Pending :
    (now : ℕ) (earliest : Option ℕ) (d : ℕ)
    → Pending now (sooner earliest d)
    → Pending now earliest × (now < d)
unfolding sooner
sooner-Pending now none d p = (tt, p)
sooner-Pending now (some e) d p = (omega arith, omega arith)

-- Before the soonest deadline nothing is due.
pub soonest-Pending :
    (now : ℕ) (earliest : Option ℕ) (hs : List MemberHealth)
    → Pending now (soonest earliest hs)
    → Pending now earliest × All (λ h. Pending now h.next_retry) hs
unfolding soonest sooner
soonest-Pending now earliest [] p = (p, tt)
soonest-Pending now earliest (h ∷ hs) p = elim (Option-cases h.next_retry) [
  | inl e ↦
      let (first, rest) = soonest-Pending now earliest hs (rw (e, soonest) at p) in
      (first, (rw e tt, rest))
  | inr (d, e) ↦
      let (first, rest) = soonest-Pending now (sooner earliest d) hs (rw (e, soonest) at p) in
      let (kept, later) = sooner-Pending now earliest d first in (kept, (rw e later, rest))
]

-- With no deadline due, readmission changes nothing.
pub readmit_idle :
    (now : ℕ) (hs : List MemberHealth)
    → All (λ h. Pending now h.next_retry) hs
    → map (readmit now) hs ≡ hs
unfolding readmit
readmit_idle now [] p = refl
readmit_idle now (h ∷ hs) p = elim (Option-cases h.next_retry) [
  | inl e ↦ ground (arith, readmit_idle now hs p.1)
  | inr (d, e) ↦
      let late : now < d = subst (Pending now) e p.0 in ground (arith, readmit_idle now hs p.1)
]
