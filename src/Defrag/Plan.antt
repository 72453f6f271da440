-- ===== src/Defrag/Plan.antt =====
-- plannedMembers, isLeaderStatus, firstPendingMember, backendByName, pickTransferee and markMember
-- of controllers/etcddefrag_controller.go.
pub mod Laws
use etcd_operator.Prelude.{
  ℕ, ◌-◌, String, Bool, true, false, ◌&&◌, ◌||◌, not, List, [], ◌∷◌, ◌++◌, Option, none, some, map,
  select, find?, ◌==◌, string_eq, nat_eq, leb, if◌then◌else◌,
}
use etcd_operator.Api.Defrag.{DefragOutcome, MemberRole, leader, follower, MemberDefragStatus}
use etcd_operator.Defrag.World.{EtcdStatus, MemberBackend}

unfoldable pub is_leader_status : Option EtcdStatus → Bool
is_leader_status none = false
is_leader_status (some s) = elim s.header [
  | none ↦ false
  | some id ↦ not (s.leader == 0) && s.leader == id
]

abbrev pub is_pending : MemberDefragStatus → Bool
is_pending m = elim m.outcome [ DefragOutcome.pending ↦ true | _ ↦ false ]

module _ {X : Type 0} where
  abbrev pub row : MemberRole → MemberBackend X → MemberDefragStatus
  row role b = record {
    name = b.member.meta.name;
    role = role;
    outcome = DefragOutcome.pending;
    reason = "";
    db_size_before = 0;
    db_size_after = 0;
    reclaimed_bytes = 0;
    finished_at = none;
  }

  abbrev pub leads : MemberBackend X → Bool
  leads b = is_leader_status b.status

  -- The followers in the order of the backends, and then the leaders.
  unfoldable pub planned_members : List (MemberBackend X) → List MemberDefragStatus
  planned_members bs =
      map (row follower) (select (λ b. not (leads b)) bs) ++ map (row leader) (select leads bs)

  unfoldable pub backend_by_name : List (MemberBackend X) → String → Option (MemberBackend X)
  backend_by_name bs name = find? (λ b. b.member.meta.name == name) bs

  -- Whether leadership can be handed to `b`: the source compares pointers into the same list, which
  -- names stand for here, and the IDs of the answering members.
  can_take_over : MemberBackend X → ℕ → MemberBackend X → Bool
  can_take_over l leader_id b = elim b.status [
    | none ↦ false
    | some s ↦ elim s.header [
      | none ↦ false
      | some id ↦
          not (b.member.meta.name == l.member.meta.name)
          && not s.is_learner
          && not (id == leader_id)
    ]
  ]

  -- The member ID of the answering member, 0 when there is none.
  abbrev pub header_id : MemberBackend X → ℕ
  header_id b = elim b.status [ none ↦ 0 | some s ↦ elim s.header [ none ↦ 0 | some id ↦ id ] ]

  -- The transferee's member ID; 0 when there is no candidate.
  unfoldable pub pick_transferee : MemberBackend X → List (MemberBackend X) → ℕ
  unfolding can_take_over
  pick_transferee l bs = elim (find? (can_take_over l (header_id l)) bs) [
    | none ↦ 0
    | some b ↦ header_id b
  ]

  -- The sizes that a member's row is given.
  measured : DefragOutcome → MemberBackend X → MemberDefragStatus → MemberDefragStatus
  measured outcome b m = elim b.status [
    | none ↦ m
    | some s ↦ elim b.after [
      | none ↦ record m { db_size_before = s.db_size }
      | some size ↦
          let r = record m { db_size_before = s.db_size; db_size_after = size } in
          elim outcome [
            | DefragOutcome.defragmented ↦
                if leb size s.db_size then record r { reclaimed_bytes = s.db_size - size } else r
            | _ ↦ r
          ]
    ]
  ]

  unfoldable pub marked :
      DefragOutcome
      → String
      → Option (MemberBackend X)
      → ℕ
      → MemberDefragStatus
      → MemberDefragStatus
  unfolding measured
  marked outcome reason b now m =
      let r = record m { outcome = outcome; reason = reason; finished_at = some now } in
      elim b [ none ↦ r | some be ↦ measured outcome be r ]

  -- Only the first row of the name is marked.
  unfoldable pub mark_member :
      List MemberDefragStatus
      → String
      → DefragOutcome
      → String
      → Option (MemberBackend X)
      → ℕ
      → List MemberDefragStatus
  unfolding marked
  mark_member [] name outcome reason b now = []
  mark_member (m ∷ ms) name outcome reason b now =
      if m.name == name
      then marked outcome reason b now m ∷ ms
      else m ∷ mark_member ms name outcome reason b now

unfoldable pub first_pending_member : List MemberDefragStatus → Option MemberDefragStatus
first_pending_member ms = find? is_pending ms
