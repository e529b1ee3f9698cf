-- ===== src/Ring/Convergence.antt =====
-- src/agent/ring.rs: the continuum that different agents build.
use mathlib.Core.List.{Perm, Permᴰ}
use mathlib.Core.Logic.{∥∥₁_elim}
use mathlib.Core.Path.{ap₂}
use flywheel.Prelude.{ℕ, ◌+◌, ◌≡◌, refl, sym, ap, ◌∙◌, List, [], ◌∷◌, All, arith}
use flywheel.Bytes.{Bytes, bytes_eq, bytes_lt}
use flywheel.Bytes.Order.{bytes_lt_trans, bytes_lt_total, bytes_lt_asym}
use flywheel.Sort.{insert, sort, dedup}
use flywheel.Sort.Filters.{map-sort, map-dedup}
use flywheel.Ring.{RingMember, member_lt, same_member, point_lt, join_lines, member_points, new}
use flywheel.Ring.Points.{ids, canonical}

-- Byte strings that are not ordered are equal, so the order of insertion does not show.
insert_comm :
    (x y : Bytes) (l : List Bytes)
    → insert bytes_lt x (insert bytes_lt y l) ≡ insert bytes_lt y (insert bytes_lt x l)
unfolding insert
insert_comm x y [] = ground (arith, bytes_lt_total x y, bytes_lt_asym x y)
insert_comm x y (z ∷ zs) = ground (
  arith,
  bytes_lt_total x y,
  bytes_lt_asym x y,
  bytes_lt_trans x y z,
  bytes_lt_trans y x z,
  bytes_lt_trans x z y,
  bytes_lt_trans z x y,
  bytes_lt_trans y z x,
  bytes_lt_trans z y x,
  bytes_lt_total x z,
  bytes_lt_total y z,
  insert_comm x y zs,
)

sort-Permᴰ : {xs ys : List Bytes} → Permᴰ xs ys → sort bytes_lt xs ≡ sort bytes_lt ys
unfolding sort
sort-Permᴰ Permᴰ.nil = refl
sort-Permᴰ (Permᴰ.cons e p) = ap₂ (insert bytes_lt) e (sort-Permᴰ p)
sort-Permᴰ (Permᴰ.swap {a} {b} {a' = a'} {b' = b'} {l} e f) =
    insert_comm a b (sort bytes_lt l)
    ∙ ap₂ (λ x y. insert bytes_lt x (insert bytes_lt y (sort bytes_lt l))) f e
sort-Permᴰ (Permᴰ.trans p q) = sort-Permᴰ p ∙ sort-Permᴰ q

Bytes-set : IsSet Bytes
Bytes-set = hlevel

lists_set : IsSet (List Bytes)
lists_set = hlevel

sort-perm : {xs ys : List Bytes} → Perm xs ys → sort bytes_lt xs ≡ sort bytes_lt ys
sort-perm p = ∥∥₁_elim p (lists_set _ _) sort-Permᴰ

All-members : (ms : List RingMember) → All (λ _. Unit {0}) ms
All-members [] = tt
All-members (m ∷ ms) = (tt, All-members ms)

ids-canonical :
    (ms : List RingMember) → ids (canonical ms) ≡ dedup bytes_eq (sort bytes_lt (ids ms))
ids-canonical ms =
    map-dedup same_member bytes_eq (λ m. m.id) (λ x y. refl) (sort member_lt ms)
    ∙ ap (dedup bytes_eq) (
        map-sort (λ _. Unit {0}) member_lt bytes_lt (λ m. m.id) (λ x y _ _. refl) ms
          (All-members ms))

member_points-ids :
    (sha256 : Bytes → Bytes) (index : ℕ) (ms ns : List RingMember)
    → ids ms ≡ ids ns
    → member_points sha256 index ms ≡ member_points sha256 index ns
unfolding member_points
member_points-ids sha256 index [] [] e = refl
member_points-ids sha256 index [] (n ∷ ns) e = cc
member_points-ids sha256 index (m ∷ ms) [] e = cc
member_points-ids sha256 index (m ∷ ms) (n ∷ ns) e =
    ground (arith, member_points-ids sha256 (index + 1) ms ns)

-- Agents that discover the same member IDs, in whatever order and at whatever addresses, derive
-- the same IDs in the same order, the same points and the same fingerprint.
pub new-perm :
    (sha256 hex_encode : Bytes → Bytes) (ms ns : List RingMember)
    → Perm (ids ms) (ids ns)
    → (ids (new sha256 hex_encode ms).members ≡ ids (new sha256 hex_encode ns).members)
      × ((new sha256 hex_encode ms).points ≡ (new sha256 hex_encode ns).points)
      × ((new sha256 hex_encode ms).fingerprint ≡ (new sha256 hex_encode ns).fingerprint)
unfolding new
new-perm sha256 hex_encode ms ns p =
    let same : ids (canonical ms) ≡ ids (canonical ns) =
      ids-canonical ms ∙ ap (dedup bytes_eq) (sort-perm p) ∙ sym (ids-canonical ns) in
    (
      same,
      ap (sort point_lt) (member_points-ids sha256 0 (canonical ms) (canonical ns) same),
      ap (λ l. hex_encode (sha256 (join_lines l))) same,
    )
