-- ===== src/Tests/Fixtures.antt =====
-- A cluster `demo` of three members, with the Kubernetes types that are only copied left empty.
use etcd_operator.Prelude.{ℕ, String, ◌<>◌, true, false, List, [], ◌∷◌, none, some}
use etcd_operator.Api.Meta.{ObjectMeta, Condition, status_true, Labels}
use etcd_operator.Api.Cluster.{EtcdCluster, ObservedClusterSpec, StorageSpec, StorageMedium}
use etcd_operator.Api.Member.{EtcdMember}

abbrev pub meta_of : String → ℕ → Labels → ObjectMeta
meta_of name created annotations = record {
  name = name;
  generate_name = "";
  namespace = "ns";
  uid = "uid-" <> name;
  generation = 1;
  creation_timestamp = created;
  deletion_timestamp = none;
  labels = [];
  annotations = annotations;
  controller = some "uid-demo";
  finalizers = [];
}

abbrev pub storage : StorageSpec
storage = record { size = 1; medium = StorageMedium.default_medium; storage_class_name = none }

abbrev pub observed : ℕ → ObservedClusterSpec Unit
observed n = record {
  replicas = n;
  version = "3.5.17";
  storage = storage;
  resources = tt;
  affinity = tt;
  topology_spread_constraints = tt;
  additional_metadata = none;
  options = none;
  image_pull_secrets = tt;
}

abbrev pub demo : ℕ → EtcdCluster Unit
demo n = record {
  meta = meta_of "demo" 5 [];
  spec = record {
    replicas = some 3;
    version = "3.5.17";
    storage = storage;
    progress_deadline_seconds = none;
    tls = none;
    auth = none;
    restore = none;
    resources = tt;
    additional_metadata = none;
    affinity = tt;
    topology_spread_constraints = tt;
    options = none;
    image_pull_secrets = tt;
  };
  status = record {
    ready_members = 0;
    selector = "";
    broken_members = 0;
    cluster_id = "abc";
    cluster_token = "ns-demo-uid";
    auth_enabled = false;
    observed = some (observed n);
    progress_deadline = none;
    conditions = [];
  };
}

abbrev pub ready_condition : Condition
ready_condition = record {
  type = "Ready";
  status = status_true;
  reason = "PodReady";
  message = "";
  observed_generation = 1;
  last_transition_time = 7;
}

abbrev pub member : String → ℕ → List Condition → EtcdMember Unit
member name created conditions = record {
  meta = meta_of name created [];
  spec = record {
    cluster_name = "demo";
    version = "3.5.17";
    storage = storage;
    resources = tt;
    additional_metadata = none;
    affinity = tt;
    topology_spread_constraints = tt;
    options = none;
    image_pull_secrets = tt;
    bootstrap = false;
    initial_cluster = "set";
    cluster_token = "ns-demo-uid";
    dormant = false;
    tls = none;
    restore = none;
  };
  status = record {
    member_id = "";
    pod_name = name;
    pod_uid = "";
    is_voter = true;
    replicas = 0;
    selector = "";
    pvc_name = "";
    version = "";
    conditions = conditions;
  };
}

abbrev pub three : List (EtcdMember Unit)
three =
    member "demo-a" 10 (ready_condition ∷ [])
    ∷ member "demo-b" 20 (ready_condition ∷ [])
    ∷ member "demo-c" 30 []
    ∷ []
