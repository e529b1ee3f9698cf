-- ===== src/Ring/Owner.antt =====
-- src/agent/ring.rs: `Ring::owner` against the successor on the continuum.
use mathlib.Core.Option
use native.Mathlib.Decide.{dec_lt}
use native.Mathlib.Nat.{mod_self, mod-eq_of_lt}
use flywheel.Prelude.{
  ℕ, zero, suc, ◌<◌, ◌≤◌, ◌%◌, ◌≡◌, refl, sym, ap, subst, ◌∙◌, Bool, List, [], ◌∷◌, map, arith,
  length, All, get_or, get_elem?, get_elem?-get_or, All-get_elem?, filter, head?, Option, none,
  some, leb, All-filter, Option-cases, inl, inr,
}
use flywheel.Bytes.{Bytes}
use flywheel.Sort.{sort}
use flywheel.Sort.Sorted.{All-sort}
use flywheel.Ring.{Ring, RingMember, point_lt, member_points, partition_point, new, owner}
use flywheel.Ring.Points.{ids, label_lt, canonical, canonical-IsStrict}
use flywheel.Ring.Labels.{label, member_labels, label-sort, member_points_below}

abbrev pub or_else {ℓ} : {A : Type ℓ} → Option A → Option A → Option A
or_else (some a) o = some a
or_else none o = o

-- The first entry at or past the position, and past the last one the first of all.
abbrev pub successor {ℓ} : {A : Type ℓ} → ℕ → List (ℕ × A) → Option (ℕ × A)
successor position points = or_else (head? (filter (λ e. leb position e.0) points)) (head? points)

get_elem?-partition_point :
    (position : ℕ) (points : List (ℕ × ℕ))
    → get_elem? points (partition_point position points)
      ≡ head? (filter (λ e. leb position e.0) points)
unfolding partition_point
get_elem?-partition_point position [] = refl
get_elem?-partition_point position ((p, i) ∷ points) =
    ground (arith, get_elem?-partition_point position points)

partition_point-le :
    (position : ℕ) (points : List (ℕ × ℕ)) → partition_point position points ≤ length points
unfolding partition_point
partition_point-le position [] = omega arith
partition_point-le position ((p, i) ∷ points) = ground (arith, partition_point-le position points)

get_elem?-length {ℓ} : {A : Type ℓ} (xs : List A) → get_elem? xs (length xs) ≡ none
get_elem?-length [] = refl
get_elem?-length (x ∷ xs) = get_elem?-length xs

-- The index that `owner` computes is that of the successor.
pick-successor :
    (position : ℕ) (e : ℕ × ℕ) (rest : List (ℕ × ℕ))
    → get_elem? (e ∷ rest) (partition_point position (e ∷ rest) % length (e ∷ rest))
      ≡ successor position (e ∷ rest)
pick-successor position e rest =
    let points : List (ℕ × ℕ) = e ∷ rest in
    let n = partition_point position points in
    let at = get_elem?-partition_point position points in
    elim (dec_lt n (length points)) [
      | yes inside ↦
          rw (mod-eq_of_lt inside) (ground (arith, at, get_elem?-get_or points n e inside))
      | no past ↦
          let full : n ≡ length points = omega (arith, partition_point-le position points) in
          rw (full, mod_self (length points)) (ground (arith, at, full, get_elem?-length points))
    ]

module _ {ℓ κ} {A : Type ℓ} {B : Type κ} (f : A → B) where
  head?-map : (xs : List A) → head? (map f xs) ≡ Option.map f (head? xs)
  head?-map [] = refl
  head?-map (x ∷ xs) = refl

  pub filter-map :
      (p : B → Bool) (xs : List A) → filter p (map f xs) ≡ map f (filter (λ x. p (f x)) xs)
  filter-map p [] = refl
  filter-map p (x ∷ xs) = ground (arith, filter-map p xs)

All-head? {ℓ ν} :
    {A : Type ℓ} (P : A → Type ν) (xs : List A) {x : A} → All P xs → head? xs ≡ some x → P x
All-head? P [] h e = absurd (ground arith)
All-head? P (y ∷ ys) h e = subst P (ground arith) h.0

successor-label :
    (names : List Bytes) (position : ℕ) (points : List (ℕ × ℕ))
    → successor position (map (label names) points)
      ≡ Option.map (label names) (successor position points)
successor-label names position points =
    rw
      (
        filter-map (label names) (λ e. leb position e.0) points,
        head?-map (label names) (filter (λ e. leb position e.0) points),
        head?-map (label names) points,
      )
      (ground arith)

successor-All {ν} :
    (P : ℕ × ℕ → Type ν) (position : ℕ) (points : List (ℕ × ℕ)) {e : ℕ × ℕ}
    → All P points
    → successor position points ≡ some e
    → P e
successor-All P position points h e =
    elim (Option-cases (head? (filter (λ e. leb position e.0) points))) [
      | inl none_past ↦ All-head? P points h (ground arith)
      | inr (x, past) ↦
          All-head? P (filter (λ e. leb position e.0) points) (All-filter P _ points h)
            (ground arith)
    ]

get_elem?-ids :
    (ms : List RingMember) (i : ℕ)
    → i < length ms
    → Option.map (λ m. m.id) (get_elem? ms i) ≡ some (get_or (ids ms) i [])
get_elem?-ids [] i h = elim h [ ]
get_elem?-ids (m ∷ ms) zero h = refl
get_elem?-ids (m ∷ ms) (suc i) h = get_elem?-ids ms i (omega arith)

-- The member at an entry of the continuum.
abbrev member_at : List RingMember → Option (ℕ × ℕ) → Option RingMember
member_at ms none = none
member_at ms (some (_, i)) = get_elem? ms i

owner-member_at :
    (ms : List RingMember) (points : List (ℕ × ℕ)) (print : Bytes) (position : ℕ)
    → owner (record { members = ms; points = points; fingerprint = print }) position
      ≡ member_at ms (successor position points)
unfolding owner
owner-member_at ms [] print position = refl
owner-member_at ms (e ∷ rest) print position =
    let picked = pick-successor position e rest in ground (arith, picked)

id-member_at :
    (ms : List RingMember) (o : Option (ℕ × ℕ))
    → ((e : ℕ × ℕ) → o ≡ some e → e.1 < length ms)
    → Option.map (λ m. m.id) (member_at ms o)
      ≡ Option.map (λ e. e.1) (Option.map (label (ids ms)) o)
id-member_at ms none h = refl
id-member_at ms (some (p, i)) h = get_elem?-ids ms i (h (p, i) refl)

-- The IDs on the circle of positions: every virtual node of every member, sorted.
abbrev pub continuum : (Bytes → Bytes) → List RingMember → List (ℕ × Bytes)
continuum sha256 ms = sort label_lt (member_labels sha256 (ids (canonical ms)))

module _ (sha256 hex_encode : Bytes → Bytes) where
  -- The owner's ID, if the ring has members.
  abbrev pub owner_id : List RingMember → ℕ → Option Bytes
  owner_id ms position = Option.map (λ m. m.id) (owner (new sha256 hex_encode ms) position)

  -- The owner of a position is the member of the first virtual node at or past it, or past the
  -- last one of the first: the two array accesses of `owner` are in bounds.
  pub owner-successor :
      (ms : List RingMember) (position : ℕ)
      → owner_id ms position ≡ Option.map (λ e. e.1) (successor position (continuum sha256 ms))
  unfolding new
  owner-successor ms position =
      let members = canonical ms in
      let points = sort point_lt (member_points sha256 0 members) in
      let below =
        All-sort point_lt (λ (e : ℕ × ℕ). e.1 < length members) (member_points sha256 0 members)
          (member_points_below sha256 (length members) 0 members (omega arith)) in
      ap (Option.map (λ m. m.id)) (owner-member_at members points _ position)
      ∙ id-member_at members (successor position points) (λ e found.
        successor-All (λ (e : ℕ × ℕ). e.1 < length members) position points below found)
      ∙ ap (Option.map (λ e. e.1)) (
          sym (successor-label (ids members) position points)
          ∙ ap (successor position) (label-sort sha256 members (canonical-IsStrict ms)))

-- An owner is one of the members.
pub owner-All {κ} :
    (P : RingMember → Type κ) (ring : Ring) (position : ℕ) {m : RingMember}
    → All P ring.members
    → owner ring position ≡ some m
    → P m
owner-All P ring position h e =
    let entry = successor position ring.points in
    elim (Option-cases entry) [
      | inl missing ↦
          absurd
            (ground (arith, owner-member_at ring.members ring.points ring.fingerprint position))
      | inr ((p, i), found) ↦
          All-get_elem? P ring.members i h
            (ground (arith, owner-member_at ring.members ring.points ring.fingerprint position))
    ]
