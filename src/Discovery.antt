-- ===== src/Discovery.antt =====
-- src/agent/discovery.rs: the shared routing state. The fields under the lock are the record
-- `RingInner`; each locked section is a function from it to the new state and the result. The
-- clock is an argument, and so are the DNS answers.
pub mod Rebuild
pub mod Members
pub mod Invariant
pub mod Runs
pub mod Ejection
use flywheel.Prelude.{
  ℕ, zero, suc, ◌+◌, ◌*◌, ◌≤◌, ◌<◌, min, max, Bool, true, false, not, ◌&&◌, ◌||◌, List, [], ◌∷◌,
  map, Option, none, some, ltb, leb, ◌==◌, if◌then◌else◌, saturating_add32, wrapping_add,
}
use flywheel.Bytes.{Bytes, bytes_eq, bytes_lt}
use flywheel.Sort.{sort, dedup}
use flywheel.Ring
use flywheel.Ring.{Ring, RingMember, SocketAddr, IpAddr, v4, v6}

pub record SrvRecord : Type 0 where
  pub target : Bytes
  pub port : ℕ

-- The TTL is in seconds.
pub record SrvSnapshot : Type 0 where
  pub records : List SrvRecord
  pub ttl : ℕ

pub record MemberHealth : Type 0 where
  pub member : RingMember
  pub failures : ℕ
  pub next_retry : Option ℕ

pub record RingInner : Type 0 where
  pub members : List MemberHealth
  pub ring : Ring
  pub earliest_retry : Option ℕ
  pub last_refresh : Option ℕ
  pub last_error : Option Bytes

-- The fields of `RingState` that never change.
pub record Limits : Type 0 where
  pub failure_limit : ℕ
  pub retry_timeout_seconds : ℕ

-- `trim_end_matches('.')`
unfoldable pub trim_end_dots : Bytes → Bytes
trim_end_dots [] = []
trim_end_dots (c ∷ cs) = elim (trim_end_dots cs) [
  | [] ↦ if c == 0x2e then [] else c ∷ []
  | d ∷ ds ↦ c ∷ d ∷ ds
]

-- `to_ascii_lowercase`
unfoldable pub ascii_lowercase : Bytes → Bytes
ascii_lowercase = map (λ c. if leb 65 c && leb c 90 then c + 32 else c)

unfoldable pub canonical_member_id : Bytes → Bytes
canonical_member_id target = ascii_lowercase (trim_end_dots target)

abbrev pub health_lt : MemberHealth → MemberHealth → Bool
health_lt a b = bytes_lt a.member.id b.member.id

abbrev pub same_health : MemberHealth → MemberHealth → Bool
same_health a b = bytes_eq a.member.id b.member.id

-- `member`: the binary search of the standard library finds the entry with the ID, which the
-- sorted list holds at most once.
unfoldable pub find_member : Bytes → List MemberHealth → Option MemberHealth
find_member id [] = none
find_member id (h ∷ hs) = if bytes_eq h.member.id id then some h else find_member id hs

-- A write through `member_mut`.
unfoldable pub set_member : Bytes → MemberHealth → List MemberHealth → List MemberHealth
set_member id new [] = []
set_member id new (h ∷ hs) = if bytes_eq h.member.id id then new ∷ hs else h ∷ set_member id new hs

-- What the loop of `rebuild` has collected.
pub record Rebuilt : Type 0 where
  pub members : List MemberHealth
  pub eligible : List RingMember
  pub earliest : Option ℕ

-- `earliest.map_or(deadline, |soonest| soonest.min(deadline))`
unfoldable pub sooner : Option ℕ → ℕ → Option ℕ
sooner none deadline = some deadline
sooner (some soonest) deadline = some (min soonest deadline)

-- The loop of `rebuild`.
unfoldable pub rebuild_members : ℕ → Option ℕ → List MemberHealth → Rebuilt
rebuild_members now earliest [] = record { members = []; eligible = []; earliest = earliest }
rebuild_members now earliest (h ∷ hs) = elim h.next_retry [
  | none ↦
      let r = rebuild_members now earliest hs in
      record { members = h ∷ r.members; eligible = h.member ∷ r.eligible; earliest = r.earliest }
  | some deadline ↦ elim (leb deadline now) [
    | true ↦
        let r = rebuild_members now earliest hs in
        record {
          members = record h { failures = 0; next_retry = none } ∷ r.members;
          eligible = h.member ∷ r.eligible;
          earliest = r.earliest;
        }
    | false ↦
        let r = rebuild_members now (sooner earliest deadline) hs in
        record { members = h ∷ r.members; eligible = r.eligible; earliest = r.earliest }
  ]
]

-- `earliest_retry.is_none_or(|deadline| now < deadline)`
unfoldable pub no_retry_due : ℕ → Option ℕ → Bool
no_retry_due now none = true
no_retry_due now (some deadline) = ltb now deadline

-- The loop of `apply_snapshot`: a discovered member with what is known of its ID.
unfoldable pub carry_health : List MemberHealth → RingMember → MemberHealth
carry_health members member = elim (find_member member.id members) [
  | none ↦ record { member = member; failures = 0; next_retry = none }
  | some h ↦ record { member = member; failures = h.failures; next_retry = h.next_retry }
]

module _ (sha256 hex_encode : Bytes → Bytes) where
  unfoldable pub rebuild : RingInner → ℕ → RingInner
  rebuild inner now =
      let r = rebuild_members now none inner.members in
      record inner {
        members = r.members;
        ring = Ring.new sha256 hex_encode r.eligible;
        earliest_retry = r.earliest;
      }

  -- `RingState::new`
  unfoldable pub new : RingInner
  new = record {
    members = [];
    ring = Ring.new sha256 hex_encode [];
    earliest_retry = none;
    last_refresh = none;
    last_error = none;
  }

  -- `RingState::ring`; the second check, under the write lock, reads the same state.
  unfoldable pub ring : RingInner → ℕ → RingInner × Ring
  ring inner now =
      if no_retry_due now inner.earliest_retry
      then (inner, inner.ring)
      else (rebuild inner now, (rebuild inner now).ring)

  -- `record_failure`: whether this call ejects the member.
  unfoldable pub record_failure : Limits → RingInner → Bytes → ℕ → RingInner × Bool
  record_failure limits inner member_id now = elim (find_member member_id inner.members) [
    | none ↦ (inner, false)
    | some found ↦
        let failures = saturating_add32 found.failures 1 in
        let counted = record found { failures = failures } in
        let kept = record inner { members = set_member member_id counted inner.members } in
        elim found.next_retry [
          | some _ ↦ (kept, false)
          | none ↦ if ltb failures limits.failure_limit then (kept, false) else (
            rebuild
                (record inner {
                  members =
                      set_member member_id
                        (record counted {
                          next_retry = some (wrapping_add now limits.retry_timeout_seconds);
                        })
                        inner.members;
                })
                now,
            true,
          )
        ]
  ]

  unfoldable pub apply_snapshot : RingInner → List RingMember → ℕ → RingInner
  apply_snapshot inner discovered now =
      let members = map (carry_health inner.members) discovered in
      rebuild
        (record inner {
          members = dedup same_health (sort health_lt members);
          last_refresh = some now;
          last_error = none;
        })
        now

-- `RingState::new` raises the limit to at least one.
unfoldable pub limits_of : ℕ → ℕ → Limits
limits_of failure_limit retry_timeout_seconds = record {
  failure_limit = max failure_limit 1;
  retry_timeout_seconds = retry_timeout_seconds;
}

-- `record_success`; the early return under the read lock leaves a healthy member alone.
unfoldable pub record_success : RingInner → Bytes → RingInner
record_success inner member_id = elim (find_member member_id inner.members) [
  | none ↦ inner
  | some found ↦ if found.failures == 0 then inner else record inner {
    members = set_member member_id (record found { failures = 0 }) inner.members;
  }
]

unfoldable pub record_refresh_error : RingInner → Bytes → RingInner
record_refresh_error inner error = record inner { last_error = some error }
