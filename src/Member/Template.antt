-- ===== src/Member/Template.antt =====
-- The Pod that a member asks for: optionFlags and buildPod of
-- controllers/etcdmember_controller.go, without the constants of its security context, ports and
-- probes, its resources and its restore containers.
use etcd_operator.Prelude.{
  ℕ, suc, String, ◌<>◌, Bool, true, false, ◌&&◌, not, List, [], ◌∷◌, ◌++◌, Option, none, some, ◌==◌,
  string_eq, if◌then◌else◌,
}
use etcd_operator.Prelude.Int.{ℤ}
use etcd_operator.Prelude.Text.{decimal}
use etcd_operator.Api.Meta.{Labels}
use etcd_operator.Api.Cluster.{EtcdOptions, StorageMedium}
use etcd_operator.Api.Member.{EtcdMember}
use etcd_operator.Naming.{
  peer_url, client_url, member_client_scheme, member_peer_scheme, member_service_name,
  member_labels, set_key, resolve_etcd_image,
}
use etcd_operator.Naming.DataDir.{member_data_dir}
use etcd_operator.Metadata.{apply_additional_metadata}
use etcd_operator.Cluster.Pdb.{label_role, role_voter}
use etcd_operator.Cluster.Target.{storage_medium_eq}
use etcd_operator.Member.Pods.{OwnerReference}
use etcd_operator.Member.Storage.{owner_of}

pub data VolumeSource : Type 0 where
  tmpfs : ℕ → VolumeSource
  claim secret : String → VolumeSource

pub record Mount : Type 0 where
  pub name : String
  pub path : String
  pub read_only : Bool

pub record Template (X : Type 0) : Type 0 where
  pub name : String
  pub namespace : String
  pub labels : Labels
  pub annotations : Labels
  pub owners : List OwnerReference
  pub hostname : String
  pub subdomain : String
  pub affinity : X
  pub topology_spread_constraints : X
  pub image_pull_secrets : X
  pub image : String
  pub command : List String
  pub mounts : List Mount
  pub volumes : List (String × VolumeSource)

-- fmt's %d.
unfoldable pub show_int : ℤ → String
show_int (ℤ.pos n) = decimal n
show_int (ℤ.negsuc n) = "-" <> decimal (suc n)

unfoldable pub option_flags : Option EtcdOptions → List String
unfolding show_int
option_flags none = []
option_flags (some o) =
    let mode = o.auto_compaction_mode in
    let retention = o.auto_compaction_retention in
    (elim o.quota_backend_bytes [
      | none ↦ []
      | some n ↦ ("--quota-backend-bytes=" <> show_int n) ∷ []
    ])
    ++ ((if mode == "" then [] else ("--auto-compaction-mode=" <> mode) ∷ [])
        ++ ((if retention == "" then [] else ("--auto-compaction-retention=" <> retention) ∷ [])
            ++ (elim o.snapshot_count [
              | none ↦ []
              | some n ↦ ("--snapshot-count=" <> show_int n) ∷ []
            ])))

module _ {X : Type 0} (m : EtcdMember X) where
  -- Only a seed that never joined, of a cluster that never formed, starts a new cluster.
  unfoldable pub cluster_state : Bool → String
  cluster_state cluster_formed =
      if m.spec.bootstrap && m.status.member_id == "" && not cluster_formed
      then "new"
      else "existing"

  unfoldable pub base_command : Bool → List String
  unfolding cluster_state peer_url client_url member_client_scheme member_peer_scheme
      member_service_name
  base_command cluster_formed =
      let client = member_client_scheme m in
      let peer = member_peer_scheme m in
      let service = member_service_name m in
      "etcd"
      ∷ ("--name=" <> m.meta.name)
      ∷ ("--data-dir=" <> member_data_dir m)
      ∷ ("--listen-peer-urls=" <> (peer <> "://0.0.0.0:2380"))
      ∷ ("--listen-client-urls=" <> (client <> "://0.0.0.0:2379"))
      ∷ ("--advertise-client-urls=" <> client_url client m.meta.name service m.meta.namespace)
      ∷ ("--initial-advertise-peer-urls=" <> peer_url peer m.meta.name service m.meta.namespace)
      ∷ ("--initial-cluster=" <> m.spec.initial_cluster)
      ∷ ("--initial-cluster-token=" <> m.spec.cluster_token)
      ∷ ("--initial-cluster-state=" <> cluster_state cluster_formed)
      ∷ "--listen-metrics-urls=http://0.0.0.0:2381"
      ∷ []

  -- The Secret behind a TLS reference; the callers test it first.
  abbrev secret_name : Option String → String
  secret_name none = ""
  secret_name (some s) = s

  -- The flags, the volume and the mount of the client side.
  unfoldable pub client_side : List String × List (String × VolumeSource) × List Mount
  unfolding member_client_scheme
  client_side = elim m.spec.tls [
    | none ↦ ([], [], [])
    | some t ↦
        if member_client_scheme m == "https"
        then (
          "--cert-file=/etc/etcd/tls/client/tls.crt"
              ∷ "--key-file=/etc/etcd/tls/client/tls.key"
              ∷ (if t.client_mtls
                  then "--client-cert-auth=true" ∷ "--trusted-ca-file=/etc/etcd/tls/client/ca.crt"
                    ∷ []
                  else []),
          ("tls-client", VolumeSource.secret (secret_name t.client_server_secret_ref)) ∷ [],
          record { name = "tls-client"; path = "/etc/etcd/tls/client"; read_only = true } ∷ [],
        )
        else ([], [], [])
  ]

  unfoldable pub peer_side : List String × List (String × VolumeSource) × List Mount
  unfolding member_peer_scheme
  peer_side = elim m.spec.tls [
    | none ↦ ([], [], [])
    | some t ↦
        if t.peer_auto_tls
        then ("--peer-auto-tls" ∷ [], [], [])
        else (if member_peer_scheme m == "https"
            then (
              "--peer-cert-file=/etc/etcd/tls/peer/tls.crt"
                  ∷ "--peer-key-file=/etc/etcd/tls/peer/tls.key"
                  ∷ "--peer-trusted-ca-file=/etc/etcd/tls/peer/ca.crt"
                  ∷ "--peer-client-cert-auth=true" ∷ [],
              ("tls-peer", VolumeSource.secret (secret_name t.peer_secret_ref)) ∷ [],
              record { name = "tls-peer"; path = "/etc/etcd/tls/peer"; read_only = true } ∷ [],
            )
            else ([], [], []))
  ]

  unfoldable pub data_volume : VolumeSource
  data_volume =
      if m.spec.storage.medium == StorageMedium.memory
      then VolumeSource.tmpfs m.spec.storage.size
      else VolumeSource.claim ("data-" <> m.meta.name)

  unfoldable pub pod_metadata : Labels × Labels
  unfolding apply_additional_metadata member_labels set_key
  pod_metadata =
      let own = member_labels m.spec.cluster_name m.meta.name in
      apply_additional_metadata
        (if m.status.is_voter then set_key label_role role_voter own else own) []
        m.spec.additional_metadata

  unfoldable pub build_pod : String → Bool → Template X
  unfolding base_command client_side peer_side data_volume pod_metadata option_flags
      resolve_etcd_image member_service_name
  build_pod image_repository cluster_formed = record {
    name = m.meta.name;
    namespace = m.meta.namespace;
    labels = pod_metadata.0;
    annotations = pod_metadata.1;
    owners = owner_of m ∷ [];
    hostname = m.meta.name;
    subdomain = member_service_name m;
    affinity = m.spec.affinity;
    topology_spread_constraints = m.spec.topology_spread_constraints;
    image_pull_secrets = m.spec.image_pull_secrets;
    image = resolve_etcd_image m image_repository;
    command =
        base_command cluster_formed
        ++ (option_flags m.spec.options ++ (client_side.0 ++ peer_side.0));
    mounts =
        record { name = "data"; path = "/var/lib/etcd"; read_only = false }
        ∷ (client_side.2 ++ peer_side.2);
    volumes = ("data", data_volume) ∷ (client_side.1 ++ peer_side.1);
  }
