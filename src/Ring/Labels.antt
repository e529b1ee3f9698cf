-- ===== src/Ring/Labels.antt =====
-- src/agent/ring.rs: replacing the member indices of the sorted points by member IDs.
use mathlib.Core.List.{append_assoc}
use native.Mathlib.Decide.{dec_lt}
use flywheel.Prelude.{
  ℕ, zero, suc, ◌+◌, ◌<◌, ◌≤◌, ◌≡◌, refl, ap, subst, ◌∙◌, true, ◌&&◌, ◌||◌, List, [], ◌∷◌, ◌++◌,
  map, arith, length, All, All-append, get_or, get_or-append_right, map-append, length-append, ltb,
  ◌==◌,
}
use flywheel.Bytes.{Bytes, bytes_lt}
use flywheel.Bytes.Order.{bytes_lt_irrefl, bytes_lt_asym}
use flywheel.Sort.{sort}
use flywheel.Sort.Sorted.{IsStrict}
use flywheel.Sort.Filters.{map-sort}
use flywheel.Ring.{
  RingMember, member_lt, point_lt, vnode_point, vnode_points, member_points, virtual_nodes,
}
use flywheel.Ring.Points.{ids, label_lt}

-- A point with the ID that its index stands for.
abbrev pub label : List Bytes → ℕ × ℕ → ℕ × Bytes
label names (p, i) = (p, get_or names i [])

module _ (sha256 : Bytes → Bytes) where
  unfoldable pub vnode_labels : Bytes → ℕ → ℕ → List (ℕ × Bytes)
  vnode_labels id vnode zero = []
  vnode_labels id vnode (suc left) =
      (vnode_point sha256 id vnode, id) ∷ vnode_labels id (vnode + 1) left

  unfoldable pub member_labels : List Bytes → List (ℕ × Bytes)
  member_labels [] = []
  member_labels (id ∷ rest) = vnode_labels id 0 virtual_nodes ++ member_labels rest

  label-vnode_points :
      (names : List Bytes) (id : Bytes) (index vnode left : ℕ)
      → get_or names index [] ≡ id
      → map (label names) (vnode_points sha256 id index vnode left) ≡ vnode_labels id vnode left
  unfolding vnode_points vnode_labels
  label-vnode_points names id index vnode zero e = refl
  label-vnode_points names id index vnode (suc left) e =
      ground (arith, label-vnode_points names id index (vnode + 1) left)

  names_at :
      (names : List Bytes) (id : Bytes) (rest : List Bytes)
      → get_or (names ++ id ∷ rest) (length names) [] ≡ id
  names_at names id rest =
      let e : length names + 0 ≡ length names = omega arith in
      subst (λ k. get_or (names ++ id ∷ rest) k [] ≡ id) e
        (get_or-append_right names (id ∷ rest) [] 0)

  label-member_points :
      (names : List Bytes) (index : ℕ) (ms : List RingMember)
      → index ≡ length names
      → map (label (names ++ ids ms)) (member_points sha256 index ms) ≡ member_labels (ids ms)
  unfolding member_points member_labels
  label-member_points names index [] e = refl
  label-member_points names index (m ∷ ms) e =
      let full = names ++ m.id ∷ ids ms in
      let rest =
        label-member_points (names ++ m.id ∷ []) (index + 1) ms
          (omega (arith, length-append names (m.id ∷ []))) in
      let same : (names ++ m.id ∷ []) ++ ids ms ≡ full = append_assoc names (m.id ∷ []) (ids ms) in
      let front =
        label-vnode_points full m.id index 0 virtual_nodes
          (ap (λ k. get_or full k []) e ∙ names_at names m.id (ids ms)) in
      map-append (label full) (vnode_points sha256 m.id index 0 virtual_nodes)
        (member_points sha256 (index + 1) ms)
      ∙ ap (λ l. l ++ map (label full) (member_points sha256 (index + 1) ms)) front
      ∙ ap (◌++◌ (vnode_labels m.id 0 virtual_nodes)) (
          subst
            (λ ns. map (label ns) (member_points sha256 (index + 1) ms) ≡ member_labels (ids ms))
            same rest)

  vnode_points_below :
      (n : ℕ) (id : Bytes) (index vnode left : ℕ)
      → index < n
      → All (λ e. e.1 < n) (vnode_points sha256 id index vnode left)
  unfolding vnode_points
  vnode_points_below n id index vnode zero h = tt
  vnode_points_below n id index vnode (suc left) h =
      (h, vnode_points_below n id index (vnode + 1) left h)

  -- Every point's index is one of a member.
  pub member_points_below :
      (n index : ℕ) (ms : List RingMember)
      → index + length ms ≤ n
      → All (λ e. e.1 < n) (member_points sha256 index ms)
  unfolding member_points
  member_points_below n index [] h = tt
  member_points_below n index (m ∷ ms) h =
      All-append (λ e. e.1 < n) (vnode_points sha256 m.id index 0 virtual_nodes)
        (member_points sha256 (index + 1) ms)
        (vnode_points_below n m.id index 0 virtual_nodes (omega arith))
        (member_points_below n (index + 1) ms (omega arith))

rises_at :
    (m : RingMember) (ms : List RingMember) (j : ℕ)
    → All (λ y. member_lt m y ≡ true) ms
    → j < length ms
    → bytes_lt m.id (get_or (ids ms) j []) ≡ true
rises_at m [] j h lt = elim lt [ ]
rises_at m (y ∷ ys) zero h lt = h.0
rises_at m (y ∷ ys) (suc j) h lt = rises_at m ys j h.1 (omega arith)

ids_rise :
    (ms : List RingMember) (i j : ℕ)
    → IsStrict member_lt ms
    → i < j
    → j < length ms
    → bytes_lt (get_or (ids ms) i []) (get_or (ids ms) j []) ≡ true
ids_rise [] i j s lt h = elim h [ ]
ids_rise (m ∷ ms) i zero s lt h = absurd (omega arith)
ids_rise (m ∷ ms) zero (suc j) s lt h = rises_at m ms j s.0 (omega arith)
ids_rise (m ∷ ms) (suc i) (suc j) s lt h = ids_rise ms i j s.1 (omega arith) (omega arith)

-- Over strictly rising IDs, indices compare as the IDs do.
ids_compare :
    (ms : List RingMember) (i j : ℕ)
    → IsStrict member_lt ms
    → i < length ms
    → j < length ms
    → bytes_lt (get_or (ids ms) i []) (get_or (ids ms) j []) ≡ ltb i j
ids_compare ms i j s hi hj = elim (dec_lt i j) [
  | yes lt ↦ ground (arith, ids_rise ms i j s lt hj)
  | no ge ↦ elim (dec_lt j i) [
    | yes gt ↦ ground (
      arith,
      bytes_lt_asym (get_or (ids ms) j []) (get_or (ids ms) i []) (ids_rise ms j i s gt hi),
    )
    | no le ↦
        let e : i ≡ j = omega arith in rw e (ground (arith, bytes_lt_irrefl (get_or (ids ms) j [])))
  ]
]

-- The sorted points, read by ID, are the sorted labels of the member IDs.
pub label-sort :
    (sha256 : Bytes → Bytes) (ms : List RingMember)
    → IsStrict member_lt ms
    → map (label (ids ms)) (sort point_lt (member_points sha256 0 ms))
      ≡ sort label_lt (member_labels sha256 (ids ms))
label-sort sha256 ms s =
    map-sort (λ (e : ℕ × ℕ). e.1 < length ms) point_lt label_lt (label (ids ms))
      (λ (p, i) (q, j) hi hj. ap (λ b. ltb p q || (p == q && b)) (ids_compare ms i j s hi hj))
      (member_points sha256 0 ms) (member_points_below sha256 (length ms) 0 ms (omega arith))
    ∙ ap (sort label_lt) (label-member_points sha256 [] 0 ms refl)
