-- ===== src/Naming.antt =====
-- The names, URLs and labels of controllers/helpers.go.
pub mod DataDir
pub mod Schemes
pub mod PeerUrl
use Prim.Native.Char.{code}
use etcd_operator.Prelude.{
  ℕ, String, ◌<>◌, Bool, true, false, ◌&&◌, ◌||◌, not, List, [], ◌∷◌, Option, none, some, map, ◌==◌,
  string_eq, nat_eq, if◌then◌else◌, leb,
}
use etcd_operator.Prelude.Text.{contains, join}
use etcd_operator.Api.Meta.{ObjectMeta, Labels}
use etcd_operator.Api.Cluster.{EtcdCluster, ClusterTls, ClientTls, PeerTls}
use etcd_operator.Api.Member.{EtcdMember, MemberTls}

-- An index into a map: the zero value when the key is missing.
unfoldable pub value_at : String → Labels → String
value_at k [] = ""
value_at k ((j, v) ∷ m) = if j == k then v else value_at k m

abbrev pub label_cluster : String
label_cluster = "etcd-operator.cozystack.io/cluster"

abbrev pub reserved_prefix : String
reserved_prefix = "etcd-operator.cozystack.io/"

abbrev pub ann_headless_service_name : String
ann_headless_service_name = "etcd-operator.cozystack.io/headless-service-name"

abbrev pub ann_data_dir_sub_path : String
ann_data_dir_sub_path = "etcd-operator.cozystack.io/data-dir-subpath"

abbrev pub ann_peer_auto_tls : String
ann_peer_auto_tls = "etcd-operator.cozystack.io/peer-auto-tls"

abbrev pub etcd_data_dir_root : String
etcd_data_dir_root = "/var/lib/etcd"

unfoldable pub peer_url : String → String → String → String → String
peer_url scheme member service namespace =
    scheme <> ("://" <> (member <> ("." <> (service <> ("." <> (namespace <> ".svc:2380"))))))

unfoldable pub client_url : String → String → String → String → String
client_url scheme member service namespace =
    scheme <> ("://" <> (member <> ("." <> (service <> ("." <> (namespace <> ".svc:2379"))))))

-- A reference is taken over only to a secret with a name.
abbrev named : String → Option String
named s = if s == "" then none else some s

module _ {X : Type 0} where
  unfoldable pub member_service_name : EtcdMember X → String
  member_service_name m =
      let v = value_at ann_headless_service_name m.meta.annotations in
      if v == "" then m.spec.cluster_name else v

  -- spec.tls.client and spec.tls.peer, when both levels are set.
  unfoldable pub client_tls : EtcdCluster X → Option ClientTls
  client_tls c = elim c.spec.tls [ none ↦ none | some t ↦ t.client ]

  unfoldable pub peer_tls : EtcdCluster X → Option PeerTls
  peer_tls c = elim c.spec.tls [ none ↦ none | some t ↦ t.peer ]

  unfoldable pub cluster_client_scheme : EtcdCluster X → String
  unfolding client_tls
  cluster_client_scheme c = elim (client_tls c) [ none ↦ "http" | some _ ↦ "https" ]

  unfoldable pub cluster_peer_auto_tls : EtcdCluster X → Bool
  unfolding peer_tls
  cluster_peer_auto_tls c = elim (peer_tls c) [
    | some _ ↦ false
    | none ↦ value_at ann_peer_auto_tls c.meta.annotations == "true"
  ]

  unfoldable pub cluster_peer_scheme : EtcdCluster X → String
  unfolding peer_tls cluster_peer_auto_tls
  cluster_peer_scheme c = elim (peer_tls c) [
    | some _ ↦ "https"
    | none ↦ if cluster_peer_auto_tls c then "https" else "http"
  ]

  -- Resolves to "" when the client plane has no TLS.
  unfoldable pub server_secret_name : EtcdCluster X → String
  unfolding client_tls
  server_secret_name c = elim (client_tls c) [
    | none ↦ ""
    | some t ↦ elim t.server_secret_ref [
      | some name ↦ name
      | none ↦ elim t.cert_manager [ none ↦ "" | some _ ↦ c.meta.name <> "-server-tls" ]
    ]
  ]

  unfoldable pub operator_client_secret_name : EtcdCluster X → String
  unfolding client_tls
  operator_client_secret_name c = elim (client_tls c) [
    | none ↦ ""
    | some t ↦ elim t.operator_client_secret_ref [
      | some name ↦ name
      | none ↦ elim t.cert_manager [
        | none ↦ ""
        | some cm ↦ elim cm.operator_client_issuer_ref [
          | none ↦ ""
          | some _ ↦ c.meta.name <> "-operator-client-tls"
        ]
      ]
    ]
  ]

  unfoldable pub peer_secret_name : EtcdCluster X → String
  unfolding peer_tls
  peer_secret_name c = elim (peer_tls c) [
    | none ↦ ""
    | some t ↦ elim t.secret_ref [
      | some name ↦ name
      | none ↦ elim t.cert_manager [ none ↦ "" | some _ ↦ c.meta.name <> "-peer-tls" ]
    ]
  ]

  unfoldable pub derive_member_tls : EtcdCluster X → Option MemberTls
  unfolding server_secret_name operator_client_secret_name peer_secret_name cluster_peer_auto_tls
  derive_member_tls c =
      let server : Option String = elim c.spec.tls [
        | none ↦ none
        | some _ ↦ named (server_secret_name c)
      ] in
      let mtls : Bool = elim server [
        | none ↦ false
        | some _ ↦ not (operator_client_secret_name c == "")
      ] in
      let peer : Option String = elim c.spec.tls [
        | none ↦ none
        | some _ ↦ named (peer_secret_name c)
      ] in
      let auto : Bool = elim peer [ none ↦ cluster_peer_auto_tls c | some _ ↦ false ] in
      let out : Option MemberTls = some (record {
        client_server_secret_ref = server;
        client_mtls = mtls;
        peer_secret_ref = peer;
        peer_auto_tls = auto;
      }) in
      elim server [
        | some _ ↦ out
        | none ↦ elim peer [ some _ ↦ out | none ↦ if auto then out else none ]
      ]

  unfoldable pub member_client_scheme : EtcdMember X → String
  member_client_scheme m = elim m.spec.tls [
    | none ↦ "http"
    | some t ↦ elim t.client_server_secret_ref [ none ↦ "http" | some _ ↦ "https" ]
  ]

  unfoldable pub member_peer_scheme : EtcdMember X → String
  member_peer_scheme m = elim m.spec.tls [
    | none ↦ "http"
    | some t ↦ elim t.peer_secret_ref [
      | some _ ↦ "https"
      | none ↦ if t.peer_auto_tls then "https" else "http"
    ]
  ]

  unfoldable pub restore_for_seed : EtcdCluster X → Option X
  restore_for_seed c = c.spec.restore

  unfoldable pub derive_cluster_token : EtcdCluster X → String
  derive_cluster_token c = c.meta.namespace <> ("-" <> (c.meta.name <> ("-" <> c.meta.uid)))

  unfoldable pub resolve_etcd_image : EtcdMember X → String → String
  resolve_etcd_image m default_repo =
      let repo = if default_repo == "" then "quay.io/coreos/etcd" else default_repo in
      repo <> (":v" <> m.spec.version)

unfoldable pub build_initial_cluster : String → List String → String → String → String
unfolding peer_url
build_initial_cluster scheme names service namespace =
    join "," (map (λ name. name <> ("=" <> peer_url scheme name service namespace)) names)

unfoldable pub cluster_labels : String → Labels
cluster_labels cluster =
    ("app.kubernetes.io/name", "etcd")
    ∷ ("app.kubernetes.io/instance", cluster)
    ∷ ("app.kubernetes.io/managed-by", "etcd-operator")
    ∷ (label_cluster, cluster)
    ∷ []

-- An assignment to a map's key.
unfoldable pub set_key : String → String → Labels → Labels
set_key k v [] = (k, v) ∷ []
set_key k v ((j, w) ∷ m) = let rest = set_key k v m in if j == k then (j, v) ∷ m else (j, w) ∷ rest

unfoldable pub member_labels : String → String → Labels
unfolding cluster_labels set_key
member_labels cluster member = set_key "app.kubernetes.io/component" member (cluster_labels cluster)

-- The assignment of each entry of a map.
unfoldable pub set_keys : Labels → Labels → Labels
unfolding set_key
set_keys [] m = m
set_keys ((k, v) ∷ entries) m = set_keys entries (set_key k v m)
