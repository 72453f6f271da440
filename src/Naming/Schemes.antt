-- ===== src/Naming/Schemes.antt =====
-- The URL schemes of the cluster and of its members in controllers/helpers.go.
use etcd_operator.Prelude.{none, ◌≡◌, ◌≢◌, ◌⊎◌, inl, inr, string_eq, arith, Option-cases}
use etcd_operator.Api.Cluster.{EtcdCluster}
use etcd_operator.Api.Member.{EtcdMember}
use etcd_operator.Naming.{
  client_tls, peer_tls, cluster_client_scheme, cluster_peer_scheme, cluster_peer_auto_tls,
  server_secret_name, peer_secret_name, derive_member_tls, member_client_scheme, member_peer_scheme,
}

-- A plane with TLS names a Secret.
abbrev pub IsSecured : {X : Type 0} → EtcdCluster X → Type 0
IsSecured c =
    ((client_tls c ≡ none) ⊎ (server_secret_name c ≢ ""))
    × ((peer_tls c ≡ none) ⊎ (peer_secret_name c ≢ ""))

-- A member whose TLS is derived from a cluster listens with the schemes that the operator dials
-- for that cluster, on the client and on the peer side, when each TLS plane names a Secret.
pub derive_member_tls-schemes :
    {X : Type 0} (c : EtcdCluster X) (m : EtcdMember X)
    → IsSecured c
    → m.spec.tls ≡ derive_member_tls c
    → (member_client_scheme m ≡ cluster_client_scheme c)
      × (member_peer_scheme m ≡ cluster_peer_scheme c)
unfolding derive_member_tls member_client_scheme member_peer_scheme cluster_client_scheme
    cluster_peer_scheme cluster_peer_auto_tls server_secret_name peer_secret_name client_tls
    peer_tls
derive_member_tls-schemes c m (client, peer) e = elim (Option-cases c.spec.tls) [
  | inl plain ↦ (ground arith, ground arith)
  | inr (t, tls) ↦ (ground arith, ground arith)
]
