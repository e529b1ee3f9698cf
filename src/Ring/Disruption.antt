-- ===== src/Ring/Disruption.antt =====
-- src/agent/ring.rs: what a change of membership moves.
use flywheel.Prelude.{
  ℕ, zero, suc, ◌+◌, ◌≡◌, refl, sym, ap, ◌∙◌, Bool, true, List, [], ◌∷◌, arith, filter,
  filter-append, head?, none, some, leb, Option-cases, inl, inr, if◌then◌else◌, Bool-cases,
}
use mathlib.Core.Option
use flywheel.Bytes.{Bytes}
use flywheel.Sort.{sort}
use flywheel.Sort.Filters.{filter-sort}
use flywheel.Ring.{RingMember, virtual_nodes}
use flywheel.Ring.Points.{ids, label_lt, label_lt-Order, canonical, canonical-filter}
use flywheel.Ring.Labels.{vnode_labels, member_labels}
use flywheel.Ring.Owner.{successor, continuum, owner_id, owner-successor, filter-map}

module _ {ℓ} {A : Type ℓ} (p q : A → Bool) where
  head?-filter :
      (xs : List A) {x : A} → head? xs ≡ some x → p x ≡ true → head? (filter p xs) ≡ some x
  head?-filter [] h k = absurd (ground arith)
  head?-filter (y ∷ ys) h k = ground arith

  head?-filter-filter :
      (xs : List A) {x : A}
      → head? (filter q xs) ≡ some x
      → p x ≡ true
      → head? (filter q (filter p xs)) ≡ some x
  head?-filter-filter [] h k = h
  head?-filter-filter (y ∷ ys) {x} h k = ground (arith, head?-filter-filter ys {x = x})

  head?-filter-filter-none :
      (xs : List A) → head? (filter q xs) ≡ none → head? (filter q (filter p xs)) ≡ none
  head?-filter-filter-none [] h = h
  head?-filter-filter-none (y ∷ ys) h = ground (arith, head?-filter-filter-none ys)

-- Dropping entries other than the successor leaves it the successor.
successor-filter {ℓ} :
    {A : Type ℓ} (keep : ℕ × A → Bool) (position : ℕ) (points : List (ℕ × A)) {e : ℕ × A}
    → successor position points ≡ some e
    → keep e ≡ true
    → successor position (filter keep points) ≡ some e
successor-filter keep position points {e} h k =
    elim (Option-cases (head? (filter (λ x. leb position x.0) points))) [
      | inl past ↦
          rw (head?-filter-filter-none keep (λ x. leb position x.0) points past)
            (head?-filter keep keep points (ground arith) k)
      | inr (x, found) ↦
          let same : x ≡ e = ground arith in
          rw (
            head?-filter-filter keep (λ x. leb position x.0) points {x = e} (found ∙ ap some same)
              k)
    ]

module _ (sha256 : Bytes → Bytes) (keep : Bytes → Bool) where
  filter-vnode_labels :
      (id : Bytes) (vnode left : ℕ)
      → filter (λ e. keep e.1) (vnode_labels sha256 id vnode left)
        ≡ (if keep id then vnode_labels sha256 id vnode left else [])
  unfolding vnode_labels
  filter-vnode_labels id vnode zero = ground arith
  filter-vnode_labels id vnode (suc left) = ground (arith, filter-vnode_labels id (vnode + 1) left)

  filter-member_labels :
      (names : List Bytes)
      → filter (λ e. keep e.1) (member_labels sha256 names)
        ≡ member_labels sha256 (filter keep names)
  unfolding member_labels
  filter-member_labels [] = refl
  filter-member_labels (id ∷ names) =
      rw
        (
          filter-append (λ (e : ℕ × Bytes). keep e.1) (vnode_labels sha256 id 0 virtual_nodes)
              (member_labels sha256 names),
          filter-vnode_labels id 0 virtual_nodes,
          filter-member_labels names,
        )
        (elim (Bool-cases (keep id)) [ inl e ↦ rw e | inr e ↦ rw e ])

  -- Removing members drops their virtual nodes and moves no other one.
  pub continuum-filter :
      (ms : List RingMember)
      → continuum sha256 (filter (λ m. keep m.id) ms) ≡ filter (λ e. keep e.1) (continuum sha256 ms)
  continuum-filter ms =
      ap (λ l. sort label_lt (member_labels sha256 (ids l))) (canonical-filter keep ms)
      ∙ ap (λ l. sort label_lt (member_labels sha256 l))
          (sym (filter-map (λ m. m.id) keep (canonical ms)))
      ∙ ap (sort label_lt) (sym (filter-member_labels (ids (canonical ms))))
      ∙ sym (
          filter-sort label_lt label_lt-Order (λ e. keep e.1)
            (member_labels sha256 (ids (canonical ms))))

-- Consistent hashing: if a shard owns a position, it still owns it after any set of other shards is
-- removed from the membership.
pub owner_id-filter :
    (sha256 hex_encode : Bytes → Bytes) (keep : Bytes → Bool) (ms : List RingMember) (position : ℕ)
    (id : Bytes)
    → owner_id sha256 hex_encode ms position ≡ some id
    → keep id ≡ true
    → owner_id sha256 hex_encode (filter (λ m. keep m.id) ms) position ≡ some id
owner_id-filter sha256 hex_encode keep ms position id h k =
    let before = sym (owner-successor sha256 hex_encode ms position) ∙ h in
    let after = owner-successor sha256 hex_encode (filter (λ m. keep m.id) ms) position in
    elim (Option-cases (successor position (continuum sha256 ms))) [
      | inl missing ↦ absurd (ground arith)
      | inr (e, found) ↦
          let same : e.1 ≡ id = ground arith in
          let kept =
            successor-filter (λ (x : ℕ × Bytes). keep x.1) position (continuum sha256 ms) found
              (ap keep same ∙ k) in
          after
          ∙ ap (λ l. Option.map (λ (x : ℕ × Bytes). x.1) (successor position l))
              (continuum-filter sha256 keep ms)
          ∙ ap (Option.map (λ (x : ℕ × Bytes). x.1)) kept
          ∙ ap some same
    ]
