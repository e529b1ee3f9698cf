-- ===== src/Ring/Points.antt =====
-- src/agent/ring.rs: the continuum as a sorted list of points labelled by member IDs instead of
-- by indices into the member list.
use flywheel.Prelude.{
  ℕ, ◌≡◌, sym, ap, ◌∙◌, Bool, false, ◌&&◌, ◌||◌, List, map, arith, filter, ltb, ◌==◌,
}
use flywheel.Bytes.{Bytes, bytes_eq, bytes_lt}
use flywheel.Bytes.Order.{
  bytes_eq_refl, bytes_eq→eq, bytes_lt_trans, bytes_lt_total, bytes_lt_asym, bytes_lt_neg_trans,
}
use flywheel.Sort.{sort, dedup}
use flywheel.Sort.Sorted.{Order, IsStrict, sort-IsSorted}
use flywheel.Sort.Filters.{filter-sort, filter-dedup, dedup-IsStrict}
use flywheel.Ring.{RingMember, member_lt, same_member, point_lt}

abbrev pub ids : List RingMember → List Bytes
ids = map (λ m. m.id)

-- A point with the ID of its member, in the order of the continuum.
abbrev pub label_lt : ℕ × Bytes → ℕ × Bytes → Bool
label_lt (p, a) (q, b) = ltb p q || (p == q && bytes_lt a b)

pub bytes_lt-Order : Order bytes_lt
bytes_lt-Order = record { asym = bytes_lt_asym; neg_trans = bytes_lt_neg_trans }

pub member_lt-Order : Order member_lt
member_lt-Order = record {
  asym = λ a b. bytes_lt_asym a.id b.id;
  neg_trans = λ a b c. bytes_lt_neg_trans a.id b.id c.id;
}

pub label_lt-Order : Order label_lt
label_lt-Order = record {
  asym = λ (p, a) (q, b) h. ground (arith, bytes_lt_asym a b);
  neg_trans = λ (p, a) (q, b) (r, c) h k. ground (arith, bytes_lt_neg_trans a b c);
}

pub point_lt-Order : Order point_lt
point_lt-Order = record {
  asym = λ (p, a) (q, b) h. ground arith;
  neg_trans = λ (p, a) (q, b) (r, c) h k. ground arith;
}

-- The members of a ring: sorted, one to an ID.
abbrev pub canonical : List RingMember → List RingMember
canonical ms = dedup same_member (sort member_lt ms)

same-respects_lt :
    (a b c : Bytes)
    → bytes_eq a b ≡ false
    → bytes_lt b a ≡ false
    → bytes_lt c b ≡ false
    → bytes_eq a c ≡ false
same-respects_lt a b c h k l = ground (arith, bytes_eq→eq a c, bytes_lt_total a b, bytes_eq_refl a)

pub canonical-filter :
    (keep : Bytes → Bool) (ms : List RingMember)
    → canonical (filter (λ m. keep m.id) ms) ≡ filter (λ m. keep m.id) (canonical ms)
canonical-filter keep ms =
    ap (dedup same_member) (sym (filter-sort member_lt member_lt-Order (λ m. keep m.id) ms))
    ∙ sym (
        filter-dedup same_member member_lt (λ m. keep m.id)
          (λ x y e. ap keep (bytes_eq→eq x.id y.id e)) (λ x y z. same-respects_lt x.id y.id z.id)
          (sort member_lt ms) (sort-IsSorted member_lt member_lt-Order ms))

-- The members of every ring have strictly rising IDs.
pub canonical-IsStrict : (ms : List RingMember) → IsStrict member_lt (canonical ms)
canonical-IsStrict ms =
    dedup-IsStrict member_lt same_member (λ a b c. bytes_lt_trans a.id b.id c.id)
      (λ a b h k. ground (arith, bytes_lt_total a.id b.id, bytes_eq_refl a.id)) (sort member_lt ms)
      (sort-IsSorted member_lt member_lt-Order ms)

-- Sorted and deduplicated IDs rise strictly.
pub dedup-sort-IsStrict : (xs : List Bytes) → IsStrict bytes_lt (dedup bytes_eq (sort bytes_lt xs))
dedup-sort-IsStrict xs =
    dedup-IsStrict bytes_lt bytes_eq bytes_lt_trans
      (λ a b h k. ground (arith, bytes_lt_total a b, bytes_eq_refl a)) (sort bytes_lt xs)
      (sort-IsSorted bytes_lt bytes_lt-Order xs)
