-- ===== src/Cluster/Bootstrap.antt =====
-- bootstrap and hasPendingBootstrap of controllers/etcdcluster_controller.go: the seed member.
use etcd_operator.Prelude.{
  String, ◌<>◌, Bool, true, false, ◌&&◌, List, [], ◌∷◌, Option, none, some, ◌==◌, string_eq,
  option_eq, if◌then◌else◌, any, find?,
}
use etcd_operator.Prelude.Text.{quote}
use etcd_operator.Api.Meta.{ObjectMeta, ApiError, Answer, ok, err}
use etcd_operator.Api.Cluster.{EtcdCluster, ObservedClusterSpec}
use etcd_operator.Api.Member.{EtcdMember, MemberSpec, MemberStatus}
use etcd_operator.Naming.{
  cluster_labels, member_labels, set_keys, derive_member_tls, restore_for_seed,
  build_initial_cluster, cluster_peer_scheme, member_service_name,
}
use etcd_operator.Metadata.{apply_additional_metadata}
use etcd_operator.Cluster.Target.{observed_additional_metadata}
use etcd_operator.Cluster.Calls.{Step, ask, refuse, wait, create_member, patch_member, stamp_voter}

-- The answers to SetControllerReference, Create, the stamp of the vote and the patch. What Create
-- returns is the member as the API server stored it, under the name that it chose.
pub record Env (X : Type 0) : Type 0 where
  pub set_owner : Option ApiError
  pub create : EtcdMember X → Answer (EtcdMember X)
  pub stamp : Option ApiError
  pub patch : Option ApiError

abbrev pub blank_status : MemberStatus
blank_status = record {
  member_id = "";
  pod_name = "";
  pod_uid = "";
  is_voter = false;
  replicas = 0;
  selector = "";
  pvc_name = "";
  version = "";
  conditions = [];
}

module _ {X : Type 0} where
  -- metav1.IsControlledBy.
  unfoldable pub controls : EtcdCluster X → EtcdMember X → Bool
  controls c m = m.meta.controller == some c.meta.uid

  unfoldable pub has_pending_bootstrap : List (EtcdMember X) → Bool
  has_pending_bootstrap ms = any (λ m. m.spec.bootstrap && m.spec.initial_cluster == "") ms

  abbrev pub find_seed : List (EtcdMember X) → Option (EtcdMember X)
  find_seed = find? (λ m. m.spec.bootstrap)

  -- The metadata of a new member, owned by the cluster.
  unfoldable pub new_meta : EtcdCluster X → ObjectMeta
  new_meta c =
      let pair =
        apply_additional_metadata (cluster_labels c.meta.name) []
          (observed_additional_metadata c) in
      record {
        name = "";
        generate_name = c.meta.name <> "-";
        namespace = c.meta.namespace;
        uid = "";
        generation = 0;
        creation_timestamp = 0;
        deletion_timestamp = none;
        labels = pair.0;
        annotations = pair.1;
        controller = some c.meta.uid;
        finalizers = [];
      }

  -- What every member takes over from the target.
  unfoldable pub new_spec : EtcdCluster X → ObservedClusterSpec X → MemberSpec X
  new_spec c o = record {
    cluster_name = c.meta.name;
    version = o.version;
    storage = o.storage;
    resources = o.resources;
    additional_metadata = o.additional_metadata;
    affinity = o.affinity;
    topology_spread_constraints = o.topology_spread_constraints;
    options = o.options;
    image_pull_secrets = o.image_pull_secrets;
    bootstrap = false;
    initial_cluster = "";
    cluster_token = c.status.cluster_token;
    dormant = false;
    tls = derive_member_tls c;
    restore = none;
  }

  -- Only the seed is flagged and restores.
  unfoldable pub new_seed : EtcdCluster X → ObservedClusterSpec X → EtcdMember X
  unfolding new_meta new_spec
  new_seed c o = record {
    meta = new_meta c;
    spec = record (new_spec c o) { bootstrap = true; restore = restore_for_seed c };
    status = blank_status;
  }

  abbrev pub with_initial_cluster : EtcdCluster X → String → EtcdMember X → EtcdMember X
  with_initial_cluster c initial m = record m {
    meta = record (m.meta) {
      labels = set_keys (member_labels c.meta.name m.meta.name) m.meta.labels;
    };
    spec = record (m.spec) { initial_cluster = initial };
  }

  -- The seed's --initial-cluster lists the seed alone.
  unfoldable pub wired_seed : EtcdCluster X → EtcdMember X → EtcdMember X
  wired_seed c seed =
      with_initial_cluster c
        (build_initial_cluster (cluster_peer_scheme c) (seed.meta.name ∷ [])
          (member_service_name seed) c.meta.namespace)
        seed

  unfoldable pub wire : Env X → EtcdCluster X → EtcdMember X → Step X
  unfolding wired_seed ask wait
  wire env c seed =
      if seed.spec.initial_cluster == ""
      then ask (patch_member (wired_seed c seed)) env.patch (wait 5)
      else wait 5

  -- The vote is stamped in the branch that creates the seed, only.
  unfoldable pub create_seed : Env X → EtcdCluster X → ObservedClusterSpec X → Step X
  unfolding wire new_seed ask
  create_seed env c o = elim (env.create (new_seed c o)) [
    | err e ↦ (create_member (new_seed c o) ∷ [], err e)
    | ok seed ↦
        let stamped = record seed { status = record (seed.status) { is_voter = true } } in
        ask (create_member (new_seed c o)) none
          (ask (stamp_voter seed.meta.name) env.stamp (wire env c stamped))
  ]

  unfoldable pub foreign_seed : EtcdCluster X → EtcdMember X → String
  foreign_seed c m =
      "bootstrap-flagged EtcdMember "
      <> (quote m.meta.name
          <> (" in namespace "
              <> (quote m.meta.namespace
                  <> (" is not controlled by this EtcdCluster (uid="
                      <> (c.meta.uid <> "); refusing to adopt")))))

  unfoldable pub bootstrap :
      Env X → EtcdCluster X → ObservedClusterSpec X → List (EtcdMember X) → Step X
  unfolding create_seed wire controls refuse foreign_seed
  bootstrap env c o members = elim (find_seed members) [
    | none ↦ elim env.set_owner [ some e ↦ refuse e | none ↦ create_seed env c o ]
    | some seed ↦
        if controls c seed then wire env c seed else refuse (ApiError.other (foreign_seed c seed))
  ]
