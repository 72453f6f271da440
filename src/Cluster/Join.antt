-- ===== src/Cluster/Join.antt =====
-- completePendingMember, findPendingMember and hasPendingMember of
-- controllers/etcdcluster_controller.go: a created member joins etcd as a learner.
pub mod Entry
use etcd_operator.Prelude.{
  String, ◌<>◌, Bool, true, false, ◌&&◌, not, List, [], ◌∷◌, Option, none, some, map, ◌==◌,
  string_eq, if◌then◌else◌, any, find?, is_some, ◌*◌,
}
use etcd_operator.Prelude.Sorted.{sort_by}
use etcd_operator.Prelude.Text.{join, str_ltb}
use etcd_operator.Api.Meta.{after, second, ApiError, ok}
use etcd_operator.Api.Cluster.{EtcdCluster}
use etcd_operator.Api.Member.{EtcdMember}
use etcd_operator.Naming.PeerUrl.{member_name_from_peer_url}
use etcd_operator.Cluster.Voters.{Peer, url_of}
use etcd_operator.Cluster.Calls.{Step, ask, wait, patch_member, add_learner}
use etcd_operator.Cluster.Bootstrap.{with_initial_cluster}

-- The answers to MemberAddAsLearner, none when it fails, and to the patch.
pub record Env : Type 0 where
  pub add_learner : String → Option (List Peer)
  pub patch : Option ApiError

-- `name=url` for a peer with a URL and a name, its own or the one in the URL.
unfoldable pub initial_part : Peer → Option String
initial_part p = elim p.peer_urls [
  | [] ↦ none
  | url ∷ _ ↦
      let name = if p.name == "" then member_name_from_peer_url url else p.name in
      if name == "" then none else some (name <> ("=" <> url))
]

unfoldable pub initial_parts : List Peer → List String
unfolding initial_part
initial_parts [] = []
initial_parts (p ∷ ps) =
    let rest = initial_parts ps in elim (initial_part p) [ none ↦ rest | some s ↦ s ∷ rest ]

-- The parts after sort.Strings.
unfoldable pub sorted_parts : List Peer → List String
unfolding initial_parts
sorted_parts peers = sort_by str_ltb (initial_parts peers)

unfoldable pub initial_cluster_of : List Peer → String
unfolding sorted_parts
initial_cluster_of peers = join "," (sorted_parts peers)

-- Whether some peer has the URL.
unfoldable pub registered : List Peer → String → Bool
registered peers url = any (λ p. any (λ u. u == url) p.peer_urls) peers

module _ {X : Type 0} where
  unfoldable pub is_half_baked : EtcdMember X → Bool
  is_half_baked m = not m.spec.bootstrap && m.spec.initial_cluster == ""

  unfoldable pub find_pending_member : List (EtcdMember X) → Option (EtcdMember X)
  unfolding is_half_baked
  find_pending_member ms = find? is_half_baked ms

  unfoldable pub has_pending_member : List (EtcdMember X) → Bool
  unfolding find_pending_member
  has_pending_member ms = is_some (find_pending_member ms)

  -- The patch of Spec.InitialCluster.
  unfoldable pub joined : EtcdCluster X → List Peer → EtcdMember X → EtcdMember X
  joined c peers m = with_initial_cluster c (initial_cluster_of peers) m

  unfoldable pub publish : Env → EtcdCluster X → List Peer → EtcdMember X → Step X
  unfolding joined ask wait
  publish env c peers m = ask (patch_member (joined c peers m)) env.patch (wait 5)

  unfoldable pub complete_pending_member : Env → EtcdCluster X → List Peer → EtcdMember X → Step X
  unfolding publish registered ask
  complete_pending_member env c peers m =
      let url = url_of c m in
      if registered peers url then publish env c peers m else (elim (env.add_learner url) [
        | none ↦ (add_learner url ∷ [], ok (after (10 * second)))
        | some listed ↦ ask (add_learner url) none (publish env c listed m)
      ])
