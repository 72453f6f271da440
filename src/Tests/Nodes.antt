-- ===== src/Tests/Nodes.antt =====
-- The theorems about the member controller at a member of the cluster `demo`.
use etcd_operator.Prelude.{
  true, false, [], ◌∷◌, none, some, ◌≡◌, ◌⊎◌, refl, string_eq, nat_eq, bool_eq, option_eq, arith,
  any, ◌==◌,
}
use etcd_operator.Prelude.Hex.{hex16}
use etcd_operator.Api.Meta.{ok, err, ApiError, status_eq}
use etcd_operator.Api.Cluster.{EtcdCluster, StorageMedium}
use etcd_operator.Api.Member.{EtcdMember}
use etcd_operator.Cluster.Target.{storage_medium_eq}
use etcd_operator.Member.Removal.{
  Env as RemovalEnv, handle_deletion, resolve_member_id, member_finalizer,
}
use etcd_operator.Member.Removal.Release.{MayGo, handle_deletion-MayGo, resolve_member_id-hex16}
use etcd_operator.Member.Pods.{Pod, ContainerStatus, pod_ready, etcd_container_stuck}
use etcd_operator.Member.Dial.{Env as DialEnv}
use etcd_operator.Member.Health.{Env as HealthEnv, mirror, update_status}
use etcd_operator.Member.Health.Heal.{IsLost}
use etcd_operator.Member.Reconcile.Loss.{deletes, HasLostMemory, reconcile-IsLost}
use etcd_operator.Member.Health.Ready.{IsTrue, update_status-IsTrue}
use etcd_operator.Member.Storage.{
  Env as StorageEnv, IsBacked, claim_name, ensure_pvc, ensure_pvc-IsBacked,
}
use etcd_operator.Member.Reconcile.{Env as NodeEnv, reconcile}
use etcd_operator.Member.Reconcile.Start.{starts, IsStored, MayStart, reconcile-MayStart}
use etcd_operator.Tests.Fixtures.{demo, three, member}
use etcd_operator.Tests.Answers.{client_calls, answering, peer_a, ready_member}

-- `demo-a`, with the controller's finalizer.
abbrev node : EtcdMember Unit
node = record (ready_member "demo-a") {
  meta = record ((ready_member "demo-a").meta) { finalizers = member_finalizer ∷ [] };
}

-- The cluster is gone.
abbrev removal_calls : RemovalEnv Unit
removal_calls = record {
  get_cluster = err ApiError.not_found;
  list = ok three;
  client = client_calls;
  factory = answering;
  member_list = ok (peer_a ∷ []);
  member_remove = λ id. none;
  update = none;
}

node_released : (handle_deletion removal_calls node).released ≡ true
unfolding handle_deletion string_eq
node_released = refl

handle_deletion-MayGo_example : MayGo removal_calls node (handle_deletion removal_calls node)
handle_deletion-MayGo_example = handle_deletion-MayGo removal_calls node node_released

abbrev known : EtcdMember Unit
known = record node { status = record (node.status) { member_id = hex16 10 } }

resolve_member_id-hex16_example : resolve_member_id (ok []) known ≡ ok 10
resolve_member_id-hex16_example = resolve_member_id-hex16 (ok []) known 10 (omega arith) refl

abbrev crashed : ContainerStatus
crashed = record {
  name = "etcd";
  ready = false;
  restart_count = 7;
  terminated = some "Error";
  last_terminated = none;
}

abbrev crashing_pod : Pod
crashing_pod = record {
  name = "demo-a";
  uid = "pod-a";
  labels = [];
  owners = [];
  deletion_timestamp = none;
  phase = "Running";
  reason = "";
  conditions = [];
  container_statuses = crashed ∷ [];
}

-- Two of three members are ready.
abbrev two_ready : EtcdCluster Unit
two_ready = record (demo 3) { status = record ((demo 3).status) { ready_members = 2 } }

abbrev dial_calls : DialEnv Unit
dial_calls = record {
  get_cluster = ok two_ready;
  list = ok three;
  client = client_calls;
  factory = answering;
  member_list = ok (peer_a ∷ []);
  version = ok "3.5.17";
}

abbrev pod_calls : HealthEnv Unit
pod_calls = record {
  now = 1000;
  show_error = λ e. "error";
  get_pod = ok crashing_pod;
  dial = dial_calls;
  delete = none;
  update_status = none;
}

abbrev lost : EtcdMember Unit
lost = member "demo-a" 10 []

update_status-IsTrue_example :
    ((update_status pod_calls lost lost).stored ≡ lost)
    ⊎ ((p : Pod) × (pod_calls.get_pod ≡ ok p)
        × IsTrue pod_calls p lost.status.member_id
            (mirror p lost).0
            (update_status pod_calls lost lost).stored)
update_status-IsTrue_example = update_status-IsTrue pod_calls lost lost

abbrev storage_calls : StorageEnv
storage_calls = record { get = err ApiError.not_found; set_owner = none; create = none }

claim_made : (ensure_pvc node storage_calls).1 ≡ ok "data-demo-a"
unfolding ensure_pvc storage_medium_eq
claim_made = refl

ensure_pvc-IsBacked_example :
    ((node.spec.storage.medium ≡ StorageMedium.memory)
      × (ensure_pvc node storage_calls ≡ (none, ok "")))
    ⊎ (("data-demo-a" ≡ claim_name node)
        × IsBacked node storage_calls (ensure_pvc node storage_calls))
ensure_pvc-IsBacked_example = ensure_pvc-IsBacked node storage_calls "data-demo-a" claim_made

-- No Pod is there, and everything else is.
abbrev node_calls : NodeEnv Unit
node_calls = record {
  get = ok node;
  removal = removal_calls;
  update = none;
  absent_pod = err ApiError.not_found;
  lost_pod = err ApiError.not_found;
  terminal_pod = err ApiError.not_found;
  ensured_pod = err ApiError.not_found;
  delete_pod = none;
  delete_member = none;
  update_status = none;
  storage = storage_calls;
  get_secret = λ name. none;
  operator_image = "operator";
  image_repository = "";
  get_cluster = ok two_ready;
  set_owner = none;
  create_pod = none;
  patch_pod = none;
  created_uid = "pod-a";
  health = pod_calls;
}

node_starts : starts (reconcile node_calls).calls ≡ true
unfolding reconcile string_eq status_eq option_eq nat_eq storage_medium_eq
node_starts = refl

reconcile-MayStart_example :
    (m : EtcdMember Unit) × IsStored node_calls m
    × (m.meta.deletion_timestamp ≡ none)
    × (any (λ f. f == member_finalizer) m.meta.finalizers ≡ true)
    × MayStart node_calls m
reconcile-MayStart_example = reconcile-MayStart node_calls node_starts

-- The Pod of a member in memory is gone.
abbrev wiped : EtcdMember Unit
wiped = record node {
  spec = record (node.spec) {
    storage = record (node.spec.storage) { medium = StorageMedium.memory };
  };
  status = record (node.status) { pod_uid = "pod-z" };
}

abbrev wiped_calls : NodeEnv Unit
wiped_calls = record node_calls { get = ok wiped }

wiped_deleted : deletes (reconcile wiped_calls).calls ≡ true
unfolding reconcile string_eq status_eq option_eq nat_eq storage_medium_eq
wiped_deleted = refl

reconcile-IsLost_example :
    (m : EtcdMember Unit) × IsStored wiped_calls m
    × (m.meta.deletion_timestamp ≡ none)
    × (m.spec.dormant ≡ false)
    × (HasLostMemory wiped_calls m ⊎ IsLost wiped_calls.health m)
reconcile-IsLost_example = reconcile-IsLost wiped_calls wiped_deleted

-- The etcd container of a member with a claim keeps failing.
abbrev failing_calls : NodeEnv Unit
failing_calls = record node_calls { get = ok lost }

failing_deleted : deletes (reconcile failing_calls).calls ≡ true
unfolding reconcile string_eq status_eq option_eq nat_eq storage_medium_eq pod_ready
    etcd_container_stuck
failing_deleted = refl
