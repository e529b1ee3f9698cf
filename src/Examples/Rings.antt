-- ===== src/Examples/Rings.antt =====
-- A ring of two shards, and its discovery.
use mathlib.Core.Option
use flywheel.Prelude.{◌++◌, ℕ, ◌≡◌, ◌≢◌, refl, arith, some, List, [], ◌∷◌, Bool, filter}
use flywheel.Bytes.{Bytes, bytes_eq, from_be_bytes, bytes_lt, to_be_bytes}
use flywheel.Sort.{sort, insert, dedup, dedup_after}
use flywheel.Ring
use flywheel.Ring.{
  RingMember, Ring, SocketAddr, v4, owner, partition_point, position, vnode_point, vnode_points,
  member_points, routing_key, encode_parts,
}
use flywheel.Ring.Owner.{owner_id, owner-successor, successor, continuum}
use flywheel.Discovery
use flywheel.Discovery.{
  Limits, RingInner, MemberHealth, ring, record_failure, find_member, set_member, apply_snapshot,
  rebuild, rebuild_members, sooner, no_retry_due, carry_health,
}
use flywheel.Discovery.Invariant.{Inv}
use flywheel.Discovery.Runs.{Event, discovers, run, step, run-new-Inv}
use flywheel.Discovery.Ejection.{owner-record_failure}
use flywheel.Ring.Disruption.{owner_id-filter}

abbrev pub address : SocketAddr
address = record { ip = v4 1; port = 80 }

abbrev pub first_shard : RingMember
first_shard = record { id = 1 ∷ []; address = address }

abbrev pub second_shard : RingMember
second_shard = record { id = 2 ∷ []; address = address }

abbrev pub shards : List RingMember
shards = second_shard ∷ first_shard ∷ []

abbrev pub plain : Bytes → Bytes
plain b = b

abbrev keeps_first : Bytes → Bool
keeps_first id = bytes_eq id (1 ∷ [])

owner_id-filter_example :
    owner_id plain plain (filter (λ m. keeps_first m.id) shards) 0 ≡ some (1 ∷ [])
unfolding owner Ring.new member_points vnode_points vnode_point position partition_point sort insert
    dedup dedup_after bytes_eq bytes_lt from_be_bytes to_be_bytes
owner_id-filter_example = owner_id-filter plain plain keeps_first shards 0 (1 ∷ []) refl refl

abbrev kind : Bytes
kind = 1 ∷ []

abbrev object : Bytes
object = 2 ∷ []

abbrev example_key : Bytes
example_key = 0 ∷ 19 ∷ (Ring.routing_version ++ (0 ∷ 1 ∷ 1 ∷ 0 ∷ 1 ∷ 2 ∷ []))

owner-successor_example :
    owner_id plain plain shards 5 ≡ Option.map (λ e. e.1) (successor 5 (continuum plain shards))
owner-successor_example = owner-successor plain plain shards 5

abbrev pub limits : Limits
limits = record { failure_limit = 1; retry_timeout_seconds = 30 }

abbrev pub history : List (ℕ × Event)
history = (0, discovers shards) ∷ []

abbrev pub discovered : RingInner
discovered = run plain plain limits (Discovery.new plain plain) history

pub discovered-Inv : Inv plain plain limits discovered
discovered-Inv = run-new-Inv plain plain limits (omega arith) history

run-new-Inv_example : Inv plain plain limits discovered
run-new-Inv_example = run-new-Inv plain plain limits (omega arith) history

owner-record_failure_example : second_shard.id ≢ first_shard.id
unfolding record_failure ring run step apply_snapshot rebuild rebuild_members sooner no_retry_due
    carry_health find_member set_member Discovery.new owner Ring.new member_points vnode_points
    vnode_point position partition_point sort insert dedup dedup_after bytes_eq bytes_lt
    from_be_bytes to_be_bytes
owner-record_failure_example =
    owner-record_failure plain plain limits discovered (1 ∷ []) 7 8 0 {m = second_shard}
      discovered-Inv (omega arith) (omega arith) refl (omega arith) (omega arith) (omega arith) refl
