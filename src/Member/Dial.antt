-- ===== src/Member/Dial.antt =====
-- How the member controller reads etcd: etcdDialConfig, discoverMemberID and observeVersion of
-- controllers/etcdmember_controller.go.
use etcd_operator.Prelude.{
  ℕ, String, ◌<>◌, ◌&&◌, not, List, [], ◌∷◌, Option, none, some, map, ◌==◌, string_eq, select,
  find?,
}
use etcd_operator.Prelude.Text.{quote}
use etcd_operator.Api.Meta.{ApiError, Answer, ok, err}
use etcd_operator.Api.Cluster.{EtcdCluster}
use etcd_operator.Api.Member.{EtcdMember}
use etcd_operator.Naming.{member_client_scheme}
use etcd_operator.Members.{member_url}
use etcd_operator.Client.{
  Env as ClientEnv, Factory, TlsConfig, build_operator_tls_config, resolve_etcd_credentials,
}
use etcd_operator.Cluster.Voters.{Peer}
use etcd_operator.Member.Removal.{matches, others}

-- The answers of the API server and of etcd; `version` is that of the Status call.
pub record Env (X : Type 0) : Type 0 where
  pub get_cluster : Answer (EtcdCluster X)
  pub list : Answer (List (EtcdMember X))
  pub client : ClientEnv
  pub factory : Factory
  pub member_list : Answer (List Peer)
  pub version : Answer String

module _ {X : Type 0} (env : Env X) (m : EtcdMember X) where
  -- Without client TLS the dial is plain and anonymous.
  unfoldable pub etcd_dial_config : Answer (Option TlsConfig × String × String)
  unfolding build_operator_tls_config resolve_etcd_credentials
  etcd_dial_config = elim m.spec.tls [
    | none ↦ ok (none, "", "")
    | some t ↦ elim t.client_server_secret_ref [
      | none ↦ ok (none, "", "")
      | some _ ↦ elim env.get_cluster [
        | err e ↦ err e
        | ok c ↦ elim (build_operator_tls_config env.client c) [
          | err e ↦ err e
          | ok config ↦ elim (resolve_etcd_credentials env.client c) [
            | err e ↦ err e
            | ok (user, password, _) ↦ ok (config, user, password)
          ]
        ]
      ]
    ]
  ]

  unfoldable pub reach : List String → Option ApiError
  unfolding etcd_dial_config
  reach endpoints = elim etcd_dial_config [
    | err e ↦ some e
    | ok (config, user, password) ↦ env.factory endpoints config user password
  ]

  -- The voters among the others that have a Pod; the member itself when there is none.
  unfoldable pub discovery_endpoints : List (EtcdMember X) → List String
  unfolding others member_url
  discovery_endpoints ms =
      let url = member_url (member_client_scheme m) m.meta.namespace in
      let voters = select (λ n. not (n.status.pod_name == "") && n.status.is_voter) (others m ms) in
      elim (map url voters) [ [] ↦ url m ∷ [] | u ∷ us ↦ u ∷ us ]

  unfoldable pub discover_member_id : Answer ℕ
  unfolding discovery_endpoints reach matches
  discover_member_id = elim env.list [
    | err e ↦ err e
    | ok ms ↦ elim (reach (discovery_endpoints ms)) [
      | some e ↦ err e
      | none ↦ elim env.member_list [
        | err e ↦ err e
        | ok peers ↦ elim (find? (matches m) peers) [
          | some p ↦ ok p.id
          | none ↦ err (
              ApiError.other ("member " <> (quote m.meta.name <> " not found in etcd member list")))
        ]
      ]
    ]
  ]

  -- The member itself is asked; on a failure the version stays.
  unfoldable pub observe_version : String
  unfolding reach member_url
  observe_version =
      let self = member_url (member_client_scheme m) m.meta.namespace m in
      elim (reach (self ∷ [])) [
        | some _ ↦ m.status.version
        | none ↦ elim env.version [ err _ ↦ m.status.version | ok v ↦ v ]
      ]
