-- ===== src/Cluster/Reconcile/Script.antt =====
-- What Reconcile of controllers/etcdcluster_controller.go may ask about the members in one pass.
use etcd_operator.Prelude.{
  String, Bool, ◌++◌, map, Has, All, find?, true, false, List, [], ◌∷◌, Option, none, some, ◌≡◌,
  ◌==◌, ◌<◌, nat_eq, string_eq, length, any,
}
use etcd_operator.Api.Meta.{ok}
use etcd_operator.Api.Cluster.{EtcdCluster, ObservedClusterSpec}
use etcd_operator.Api.Member.{EtcdMember}
use etcd_operator.Members.{
  is_deleting, filter_active_members, filter_running_members, find_dormant_member,
}
use etcd_operator.Cluster.Calls.{
  Call, Step, create_member, patch_member, stamp_voter, set_voter, wake, add_learner, promote,
}
use etcd_operator.Cluster.Target.{all_members_ready}
use etcd_operator.Cluster.Voters.{Peer, url_of, IsVote}
use etcd_operator.Cluster.Bootstrap.{Env as BootstrapEnv, controls, find_seed, new_seed, wired_seed}
use etcd_operator.Cluster.Join.{find_pending_member, joined}
use etcd_operator.Cluster.ScaleUp.{Env, new_member}
use etcd_operator.Cluster.ScaleDown.{Shrinks}

-- A script that was cut short by a failure, or not.
pub data IsPrefix {A : Type 0} : List A → List A → Type 0 where
  start : (s : List A) → IsPrefix [] s
  next : (a : A) {r s : List A} → IsPrefix r s → IsPrefix (a ∷ r) (a ∷ s)

-- Some peer of etcd's list has the URL.
abbrev pub Lists : List Peer → String → Type 0
Lists peers url = (p : Peer) × Has p peers × Has url p.peer_urls

-- The joining of `m` to etcd. With its peer URL in etcd's list, that list is published to it; without
-- it, the URL is added, and the list that etcd answers with is published.
pub data IsJoin {X : Type 0} (env : Env X) (c : EtcdCluster X) (m : EtcdMember X)
    : List (Call X) → Type 0 where
  known :
      (peers : List Peer)
      → env.voters.member_list ≡ some peers
      → Lists peers (url_of c m)
      → IsJoin env c m (patch_member (joined c peers m) ∷ [])
  refused :
      (peers : List Peer)
      → env.voters.member_list ≡ some peers
      → ¬ Lists peers (url_of c m)
      → IsJoin env c m (add_learner (url_of c m) ∷ [])
  added :
      (peers answered : List Peer)
      → env.voters.member_list ≡ some peers
      → ¬ Lists peers (url_of c m)
      → env.join.add_learner (url_of c m) ≡ some answered
      → IsJoin env c m (add_learner (url_of c m) ∷ patch_member (joined c answered m) ∷ [])

-- The promotion of the first learner of etcd's list, or of none when it has none.
pub data IsPromotion {X : Type 0} (peers : List Peer) : List (Call X) → Type 0 where
  nobody : find? (λ p. p.is_learner) peers ≡ none → IsPromotion peers []
  first :
      (p : Peer) → find? (λ p. p.is_learner) peers ≡ some p → IsPromotion peers (promote p.id ∷ [])

-- The seed that the API server has made, with its vote.
abbrev pub voting : {X : Type 0} → EtcdMember X → EtcdMember X
voting m = record m { status = record (m.status) { is_voter = true } }

-- The creation of the first member and, when it was created, its vote and its own URL.
pub data IsSeeding {X : Type 0} (boot : BootstrapEnv X) (c : EtcdCluster X)
    (o : ObservedClusterSpec X) : List (Call X) → Type 0 where
  uncreated : IsSeeding boot c o (create_member (new_seed c o) ∷ [])
  created :
      {calls : List (Call X)} (m : EtcdMember X)
      → boot.create (new_seed c o) ≡ ok m
      → IsPrefix calls (stamp_voter m.meta.name ∷ patch_member (wired_seed c (voting m)) ∷ [])
      → IsSeeding boot c o (create_member (new_seed c o) ∷ calls)

-- The creation of a member, and its joining when it was created.
pub data IsGrowth {X : Type 0} (env : Env X) (c : EtcdCluster X) (o : ObservedClusterSpec X)
    : List (Call X) → Type 0 where
  uncreated : IsGrowth env c o (create_member (new_member c o) ∷ [])
  created :
      {calls : List (Call X)} (m : EtcdMember X)
      → env.create (new_member c o) ≡ ok m
      → IsJoin env c m calls
      → IsGrowth env c o (create_member (new_member c o) ∷ calls)

-- Both sides of the test that keeps scaling from racing with a removal.
pub record IsStable {X : Type 0} (c : EtcdCluster X) (listed : List (EtcdMember X)) : Type 0 where
  pub formed : (c.status.cluster_id == "") ≡ false
  pub settled : any is_deleting listed ≡ false

abbrev pub pending_of : {X : Type 0} → List (EtcdMember X) → Option (EtcdMember X)
pending_of listed = find_pending_member (filter_running_members listed)

abbrev pub dormant_of : {X : Type 0} → List (EtcdMember X) → Option (EtcdMember X)
dormant_of listed = find_dormant_member (filter_active_members listed)

-- What a pass asks about members, and why it may.
pub data Script {X : Type 0} (boot : BootstrapEnv X) (env : Env X) (c : EtcdCluster X)
    (o : ObservedClusterSpec X) (listed : List (EtcdMember X)) : List (Call X) → Type 0 where
  idle : Script boot env c o listed []
  -- The first member of a cluster that has no ID, no running seed and a target.
  seeding :
      {calls : List (Call X)}
      → (c.status.cluster_id == "") ≡ true
      → (o.replicas == 0) ≡ false
      → find_seed (filter_running_members listed) ≡ none
      → IsSeeding boot c o calls
      → Script boot env c o listed calls
  wiring :
      (m : EtcdMember X)
      → (c.status.cluster_id == "") ≡ true
      → find_seed (filter_running_members listed) ≡ some m
      → (m.spec.initial_cluster == "") ≡ true
      → controls c m ≡ true
      → Script boot env c o listed (patch_member (wired_seed c m) ∷ [])
  waking :
      (m : EtcdMember X)
      → IsStable c listed
      → dormant_of listed ≡ some m
      → Script boot env c o listed (wake m.meta.name ∷ [])
  completing :
      {calls : List (Call X)} (m : EtcdMember X)
      → IsStable c listed
      → pending_of listed ≡ some m
      → controls c m ≡ true
      → IsJoin env c m calls
      → Script boot env c o listed calls
  -- On the way to a larger cluster.
  promoting :
      {calls : List (Call X)} (peers : List Peer)
      → IsStable c listed
      → dormant_of listed ≡ none
      → pending_of listed ≡ none
      → length (filter_running_members listed) < o.replicas
      → env.voters.member_list ≡ some peers
      → IsPromotion peers calls
      → Script boot env c o listed calls
  -- At the wanted number of members: the votes that etcd's list changes, and the promotion.
  syncing :
      {calls : List (Call X)} (peers : List Peer) (votes : List (String × Bool))
      → IsStable c listed
      → pending_of listed ≡ none
      → length (filter_running_members listed) ≡ o.replicas
      → env.voters.member_list ≡ some peers
      → All (IsVote c peers (filter_running_members listed)) votes
      → IsPromotion peers calls
      → Script boot env c o listed (map (λ v. set_voter v.0 v.1) votes ++ calls)
  -- A new member, with room for it, no learner and every running one ready.
  growing :
      {calls : List (Call X)} (peers : List Peer)
      → env.voters.member_list ≡ some peers
      → find? (λ p. p.is_learner) peers ≡ none
      → IsStable c listed
      → dormant_of listed ≡ none
      → pending_of listed ≡ none
      → length (filter_running_members listed) < o.replicas
      → all_members_ready (filter_running_members listed) ≡ true
      → IsGrowth env c o calls
      → Script boot env c o listed calls
  shrinking :
      {s : Step X}
      → IsStable c listed
      → o.replicas < length (filter_running_members listed)
      → Shrinks (filter_running_members listed) s
      → Script boot env c o listed s.0
