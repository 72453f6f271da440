-- ===== src/Api/Member.antt =====
-- api/v1alpha2/etcdmember_types.go.
use etcd_operator.Prelude.{ℕ, String, Bool, List, Option}
use etcd_operator.Api.Meta.{Condition, ObjectMeta}
use etcd_operator.Api.Cluster.{StorageSpec, EtcdOptions, AdditionalMetadata}

pub record MemberTls : Type 0 where
  pub client_server_secret_ref : Option String
  pub client_mtls : Bool
  pub peer_secret_ref : Option String
  pub peer_auto_tls : Bool

pub record MemberSpec (X : Type 0) : Type 0 where
  pub cluster_name : String
  pub version : String
  pub storage : StorageSpec
  pub resources : X
  pub additional_metadata : Option AdditionalMetadata
  pub affinity : X
  pub topology_spread_constraints : X
  pub options : Option EtcdOptions
  pub image_pull_secrets : X
  pub bootstrap : Bool
  pub initial_cluster : String
  pub cluster_token : String
  pub dormant : Bool
  pub tls : Option MemberTls
  pub restore : Option X

pub record MemberStatus : Type 0 where
  pub member_id : String
  pub pod_name : String
  pub pod_uid : String
  pub is_voter : Bool
  pub replicas : ℕ
  pub selector : String
  pub pvc_name : String
  pub version : String
  pub conditions : List Condition

pub record EtcdMember (X : Type 0) : Type 0 where
  pub meta : ObjectMeta
  pub spec : MemberSpec X
  pub status : MemberStatus
