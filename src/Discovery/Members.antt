-- ===== src/Discovery/Members.antt =====
-- src/agent/discovery.rs: finding and overwriting one entry of the member list.
use flywheel.Prelude.{
  ℕ, ◌≡◌, refl, subst, true, false, List, [], ◌∷◌, All, Option, some, arith, Bool-cases,
  Option-cases, inl, inr, if◌then◌else◌,
}
use flywheel.Bytes.{Bytes, bytes_eq}
use flywheel.Bytes.Order.{bytes_eq→eq}
use flywheel.Discovery.{MemberHealth, find_member, set_member, sooner}
use flywheel.Discovery.Rebuild.{health_ids, eligible, soonest}

module _ (id : Bytes) where
  pub find_member-id :
      (hs : List MemberHealth) {h : MemberHealth} → find_member id hs ≡ some h → h.member.id ≡ id
  unfolding find_member
  find_member-id [] {h} e = cc
  find_member-id (x ∷ xs) {h} e =
      ground (arith, find_member-id xs {h = h}, bytes_eq→eq x.member.id id)

  pub All-find_member {κ} :
      (P : MemberHealth → Type κ) (hs : List MemberHealth) {h : MemberHealth}
      → All P hs
      → find_member id hs ≡ some h
      → P h
  unfolding find_member
  All-find_member P [] {h} p e = absurd (ground arith)
  All-find_member P (x ∷ xs) {h} p e = elim (Bool-cases (bytes_eq x.member.id id)) [
    | inl here ↦ subst P (ground arith) p.0
    | inr other ↦ All-find_member P xs p.1 (ground arith)
  ]

  module _ (new : MemberHealth) where
    pub All-set_member {κ} :
        (P : MemberHealth → Type κ) (hs : List MemberHealth)
        → P new
        → All P hs
        → All P (set_member id new hs)
    unfolding set_member
    All-set_member P [] n p = tt
    All-set_member P (x ∷ xs) n p =
        elim (bytes_eq x.member.id id)
          as (λ b. All P (if b then new ∷ xs else x ∷ set_member id new xs)) [
            | true ↦ (n, p.1)
            | false ↦ (p.0, All-set_member P xs n p.1)
          ]

    pub health_ids-set_member :
        (hs : List MemberHealth)
        → new.member.id ≡ id
        → health_ids (set_member id new hs) ≡ health_ids hs
    unfolding set_member
    health_ids-set_member [] e = refl
    health_ids-set_member (x ∷ xs) e =
        ground (arith, health_ids-set_member xs e, bytes_eq→eq x.member.id id)

    -- The new entry's place in the ring is the old one's.
    module _ (old : MemberHealth) (same_member : new.member ≡ old.member)
        (same_retry : new.next_retry ≡ old.next_retry) where
      pub eligible-set_member :
          (hs : List MemberHealth)
          → find_member id hs ≡ some old
          → eligible (set_member id new hs) ≡ eligible hs
      unfolding find_member set_member eligible
      eligible-set_member [] e = refl
      eligible-set_member (x ∷ xs) e = elim (Bool-cases (bytes_eq x.member.id id)) [
        | inl here ↦ ground arith
        | inr other ↦ ground (arith, eligible-set_member xs)
      ]

      pub soonest-set_member :
          (earliest : Option ℕ) (hs : List MemberHealth)
          → find_member id hs ≡ some old
          → soonest earliest (set_member id new hs) ≡ soonest earliest hs
      unfolding find_member set_member soonest
      soonest-set_member earliest [] e = refl
      soonest-set_member earliest (x ∷ xs) e = elim (Bool-cases (bytes_eq x.member.id id)) [
        | inl here ↦ ground arith
        | inr other ↦ elim (Option-cases x.next_retry) [
          | inl n ↦ ground (arith, soonest-set_member earliest xs)
          | inr (d, n) ↦ ground (arith, soonest-set_member (sooner earliest d) xs)
        ]
      ]
