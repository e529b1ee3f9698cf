-- ===== src/Ring.antt =====
-- src/agent/ring.rs: the routing keys and the consistent-hash continuum. SHA-256 and the hex
-- encoder are libraries, hence parameters.
use flywheel.Prelude.{
  ℕ, zero, suc, ◌+◌, ◌≡◌, ◌<◌, ◌%◌, Bool, true, false, ◌&&◌, ◌||◌, List, [], ◌∷◌, ◌++◌, map, Option,
  none, some, length, take, get_elem?, ltb, leb, ◌==◌, if◌then◌else◌,
}
use flywheel.Bytes.{Bytes, codes, bytes_eq, bytes_lt, to_be_bytes, from_be_bytes}
use flywheel.Sort.{sort, dedup}
pub mod Keys
pub mod Points
pub mod Labels
pub mod Owner
pub mod Disruption
pub mod Convergence

-- `ROUTING_VERSION`
abbrev pub routing_version : Bytes
routing_version = codes "flywheel-routing-v1"

-- `VIRTUAL_NODES`
abbrev pub virtual_nodes : ℕ
virtual_nodes = 160

-- The loop of `routing_key`; `none` where a part exceeds the `u16` length prefix.
unfoldable pub encode_parts : List Bytes → Option Bytes
encode_parts [] = some []
encode_parts (part ∷ parts) =
    let rest = encode_parts parts in
    if ltb 0xffff (length part)
    then none
    else elim rest [ none ↦ none | some key ↦ some (to_be_bytes 2 (length part) ++ (part ++ key)) ]

unfoldable pub routing_key : Bytes → Bytes → Option Bytes
routing_key kind id = encode_parts (routing_version ∷ kind ∷ id ∷ [])

-- `std::net::IpAddr` and `SocketAddr`.
pub data IpAddr : Type 0 where
  v4 v6 : ℕ → IpAddr

pub record SocketAddr : Type 0 where
  pub ip : IpAddr
  pub port : ℕ

pub record RingMember : Type 0 where
  pub id : Bytes
  pub address : SocketAddr

pub record Ring : Type 0 where
  pub members : List RingMember
  pub points : List (ℕ × ℕ)
  pub fingerprint : Bytes

-- The comparisons that sort and deduplicate the members, and order the points.
abbrev pub member_lt : RingMember → RingMember → Bool
member_lt a b = bytes_lt a.id b.id

abbrev pub same_member : RingMember → RingMember → Bool
same_member a b = bytes_eq a.id b.id

abbrev pub point_lt : ℕ × ℕ → ℕ × ℕ → Bool
point_lt (p, i) (q, j) = ltb p q || (p == q && ltb i j)

-- `[T]::join("\n")`
unfoldable pub join_lines : List Bytes → Bytes
join_lines [] = []
join_lines (id ∷ []) = id
join_lines (id ∷ next ∷ ids) = id ++ 0x0a ∷ join_lines (next ∷ ids)

-- `partition_point(|(point, _)| *point < position)`
unfoldable pub partition_point : ℕ → List (ℕ × ℕ) → ℕ
partition_point position [] = 0
partition_point position ((p, _) ∷ points) =
    if ltb p position then suc (partition_point position points) else 0

module _ (sha256 : Bytes → Bytes) where
  unfoldable pub position : Bytes → ℕ
  position bytes = from_be_bytes (take 8 (sha256 bytes))

  unfoldable pub key_position : Bytes → Bytes → Option ℕ
  unfolding position
  key_position kind id = elim (routing_key kind id) [ none ↦ none | some key ↦ some (position key) ]

  -- The point of one virtual node.
  unfoldable pub vnode_point : Bytes → ℕ → ℕ
  unfolding position
  vnode_point id vnode = position (id ++ to_be_bytes 2 vnode)

  -- The inner loop of `Ring::new`, over the virtual nodes from `vnode` on.
  unfoldable pub vnode_points : Bytes → ℕ → ℕ → ℕ → List (ℕ × ℕ)
  vnode_points id index vnode zero = []
  vnode_points id index vnode (suc left) =
      (vnode_point id vnode, index) ∷ vnode_points id index (vnode + 1) left

  -- The outer loop, over the members from `index` on.
  unfoldable pub member_points : ℕ → List RingMember → List (ℕ × ℕ)
  member_points index [] = []
  member_points index (m ∷ members) =
      vnode_points m.id index 0 virtual_nodes ++ member_points (index + 1) members

module _ (sha256 hex_encode : Bytes → Bytes) where
  unfoldable pub new : List RingMember → Ring
  new discovered =
      let members = dedup same_member (sort member_lt discovered) in
      record {
        members = members;
        points = sort point_lt (member_points sha256 0 members);
        fingerprint = hex_encode (sha256 (join_lines (map (λ m. m.id) members)));
      }

unfoldable pub is_empty : Ring → Bool
is_empty ring = elim ring.members [ [] ↦ true | _ ∷ _ ↦ false ]

-- `none` is the empty ring, or an index out of bounds, where the source would panic
-- (`Ring.Owner`).
unfoldable pub owner : Ring → ℕ → Option RingMember
owner ring position = elim ring.points [
  | [] ↦ none
  | _ ∷ _ ↦
      elim (get_elem? ring.points (partition_point position ring.points % length ring.points)) [
        | none ↦ none
        | some (_, member) ↦ get_elem? ring.members member
      ]
]
