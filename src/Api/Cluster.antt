-- ===== src/Api/Cluster.antt =====
-- api/v1alpha2/etcdcluster_types.go. `X` stands for the Kubernetes types that the controllers only
-- copy and compare (resources, affinity, spread constraints, pull secrets). A quantity is its value.
use etcd_operator.Prelude.{ℕ, String, Bool, List, Option}
use etcd_operator.Prelude.Int.{ℤ}
use etcd_operator.Api.Meta.{Condition, ObjectMeta, Labels}

pub data StorageMedium : Type 0 where
  default_medium memory : StorageMedium

pub record StorageSpec : Type 0 where
  pub size : ℕ
  pub medium : StorageMedium
  pub storage_class_name : Option String

pub record EtcdOptions : Type 0 where
  pub quota_backend_bytes : Option ℤ
  pub auto_compaction_mode : String
  pub auto_compaction_retention : String
  pub snapshot_count : Option ℤ

pub record AdditionalMetadata : Type 0 where
  pub labels : Labels
  pub annotations : Labels

pub record ClientCertManager : Type 0 where
  pub server_issuer_ref : String
  pub operator_client_issuer_ref : Option String

-- A secret reference is the name of the Secret.
pub record ClientTls : Type 0 where
  pub server_secret_ref : Option String
  pub operator_client_secret_ref : Option String
  pub cert_manager : Option ClientCertManager

pub record PeerTls : Type 0 where
  pub secret_ref : Option String
  pub cert_manager : Option String

pub record ClusterTls : Type 0 where
  pub client : Option ClientTls
  pub peer : Option PeerTls

pub record AuthSpec : Type 0 where
  pub enabled : Bool
  pub root_credentials_secret_ref : Option String

-- What a member or an observed target takes over from the spec, field for field.
pub record ClusterSpec (X : Type 0) : Type 0 where
  pub replicas : Option ℕ
  pub version : String
  pub storage : StorageSpec
  pub progress_deadline_seconds : Option ℕ
  pub tls : Option ClusterTls
  pub auth : Option AuthSpec
  pub restore : Option X
  pub resources : X
  pub additional_metadata : Option AdditionalMetadata
  pub affinity : X
  pub topology_spread_constraints : X
  pub options : Option EtcdOptions
  pub image_pull_secrets : X

pub record ObservedClusterSpec (X : Type 0) : Type 0 where
  pub replicas : ℕ
  pub version : String
  pub storage : StorageSpec
  pub resources : X
  pub affinity : X
  pub topology_spread_constraints : X
  pub additional_metadata : Option AdditionalMetadata
  pub options : Option EtcdOptions
  pub image_pull_secrets : X

pub record ClusterStatus (X : Type 0) : Type 0 where
  pub ready_members : ℕ
  pub selector : String
  pub broken_members : ℕ
  pub cluster_id : String
  pub cluster_token : String
  pub auth_enabled : Bool
  pub observed : Option (ObservedClusterSpec X)
  pub progress_deadline : Option ℕ
  pub conditions : List Condition

pub record EtcdCluster (X : Type 0) : Type 0 where
  pub meta : ObjectMeta
  pub spec : ClusterSpec X
  pub status : ClusterStatus X
