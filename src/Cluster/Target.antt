-- ===== src/Cluster/Target.antt =====
-- The target that the cluster controller latches in status.observed, and the deadline it gives
-- itself to reach it (controllers/etcdcluster_controller.go). The deadline is in nanoseconds.
use etcd_operator.Prelude.{
  ℕ, ◌+◌, ◌*◌, String, Bool, true, false, ◌&&◌, not, List, Option, none, some, ◌≡◌, ◌==◌, string_eq,
  nat_eq, ltb, if◌then◌else◌, length, any, all, find?, Eq,
}
use etcd_operator.Api.Meta.{ConditionStatus, status_true, status_eq, second}
use etcd_operator.Api.Cluster.{
  EtcdCluster, ObservedClusterSpec, ClusterSpec, ClusterStatus, AdditionalMetadata, EtcdOptions,
  StorageMedium,
}
use etcd_operator.Api.Member.{EtcdMember}
use etcd_operator.Condition.{upsert}

-- equality.Semantic.DeepEqual at the three types it is called at.
pub record DeepEqual (X : Type 0) : Type 0 where
  pub opaque : X → X → Bool
  pub metadata : Option AdditionalMetadata → Option AdditionalMetadata → Bool
  pub options : Option EtcdOptions → Option EtcdOptions → Bool

-- A value is deeply equal to itself.
pub record IsReflexive {X : Type 0} (e : DeepEqual X) : Type 0 where
  pub opaque_refl : (x : X) → e.opaque x x ≡ true
  pub metadata_refl : (m : Option AdditionalMetadata) → e.metadata m m ≡ true
  pub options_refl : (o : Option EtcdOptions) → e.options o o ≡ true

storage_medium_dec : Discrete StorageMedium
storage_medium_dec = hlevel

instance unfoldable pub storage_medium_eq : Eq StorageMedium
unfolding storage_medium_dec
storage_medium_eq = record { dec = storage_medium_dec }

abbrev pub default_progress_deadline_seconds : ℕ
default_progress_deadline_seconds = 600

abbrev pub or_default : Option ℕ → ℕ → ℕ
or_default none d = d
or_default (some n) d = n

-- The search for a Ready condition that is true.
unfoldable pub member_ready : {X : Type 0} → EtcdMember X → Bool
member_ready m = any (λ c. c.type == "Ready" && c.status == status_true) m.status.conditions

unfoldable pub all_members_ready : {X : Type 0} → List (EtcdMember X) → Bool
unfolding member_ready
all_members_ready ms = all member_ready ms

module _ {X : Type 0} where
  abbrev pub with_status : EtcdCluster X → ClusterStatus X → EtcdCluster X
  with_status c s = record c { status = s }

  unfoldable pub observe : ClusterSpec X → ObservedClusterSpec X
  observe s = record {
    replicas = or_default s.replicas 3;
    version = s.version;
    storage = s.storage;
    resources = s.resources;
    affinity = s.affinity;
    topology_spread_constraints = s.topology_spread_constraints;
    additional_metadata = s.additional_metadata;
    options = s.options;
    image_pull_secrets = s.image_pull_secrets;
  }

  unfoldable pub snapshot_spec_into_observed : EtcdCluster X → EtcdCluster X
  unfolding observe
  snapshot_spec_into_observed c =
      with_status c (record (c.status) { observed = some (observe c.spec) })

  unfoldable pub spec_equals_observed : DeepEqual X → EtcdCluster X → Bool
  spec_equals_observed e c = elim c.status.observed [
    | none ↦ false
    | some o ↦
        o.replicas == or_default c.spec.replicas 3
        && o.version == c.spec.version
        && o.storage.size == c.spec.storage.size
        && o.storage.medium == c.spec.storage.medium
        && e.opaque o.resources c.spec.resources
        && e.opaque o.affinity c.spec.affinity
        && e.opaque o.topology_spread_constraints c.spec.topology_spread_constraints
        && e.metadata o.additional_metadata c.spec.additional_metadata
        && e.options o.options c.spec.options
        && e.opaque o.image_pull_secrets c.spec.image_pull_secrets
  ]

  unfoldable pub observed_additional_metadata : EtcdCluster X → Option AdditionalMetadata
  observed_additional_metadata c = elim c.status.observed [
    | some o ↦ o.additional_metadata
    | none ↦ c.spec.additional_metadata
  ]

  unfoldable pub reconciliation_complete : EtcdCluster X → List (EtcdMember X) → Bool
  unfolding member_ready
  reconciliation_complete c ms = elim c.status.observed [
    | none ↦ false
    | some o ↦
        if length ms == o.replicas
        then if ltb 0 o.replicas && c.status.cluster_id == "" then false else all member_ready ms
        else false
  ]

  unfoldable pub cluster_progressing : EtcdCluster X → Bool
  cluster_progressing c = elim (find? (λ k. k.type == "Progressing") c.status.conditions) [
    | none ↦ false
    | some k ↦ k.status == status_true
  ]

  unfoldable pub set_progress_deadline : ℕ → EtcdCluster X → EtcdCluster X
  set_progress_deadline now c =
      let seconds = or_default c.spec.progress_deadline_seconds default_progress_deadline_seconds in
      with_status c (record (c.status) { progress_deadline = some (now + seconds * second) })

  -- !now.Before(deadline)
  unfoldable pub deadline_expired : ℕ → EtcdCluster X → Bool
  deadline_expired now c = elim c.status.progress_deadline [
    | none ↦ false
    | some d ↦ not (ltb now d)
  ]

  -- The cluster with the condition set, and whether that changed anything.
  unfoldable pub set_cluster_condition :
      ℕ → EtcdCluster X → String → ConditionStatus → String → String → EtcdCluster X × Bool
  set_cluster_condition now c type status reason message =
      let r = upsert c.status.conditions now (record {
        type = type;
        status = status;
        reason = reason;
        message = message;
        observed_generation = c.meta.generation;
        last_transition_time = 0;
      }) in
      (with_status c (record (c.status) { conditions = r.0 }), r.1)
