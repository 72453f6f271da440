-- ===== src/Tests/Passes.antt =====
-- The theorems about the cluster controller's passes and its way to etcd.
use etcd_operator.Prelude.{
  ◌<>◌, true, false, [], ◌∷◌, ◌≡◌, ◌⊎◌, refl, Has, head, tail, string_eq, arith, inl, nat_eq,
  is_some, ap, ◌≢◌,
}
use etcd_operator.Api.Meta.{ApiError}
use etcd_operator.Naming.{
  peer_url, cluster_peer_scheme, cluster_peer_auto_tls, peer_tls, client_tls, server_secret_name,
  value_at, member_service_name,
}
use etcd_operator.Naming.PeerUrl.{
  member_name_from_peer_url, full, member_name_from_peer_url-peer_url,
}
use etcd_operator.Client.{resolve_etcd_credentials, build_operator_tls_config, auth_configured}
use etcd_operator.Client.Sound.{
  Whenever, IsRoot, IsVerified, resolve_etcd_credentials-IsRoot,
  build_operator_tls_config-IsVerified,
}
use etcd_operator.Cluster.Auth.{reconcile_auth}
use etcd_operator.Cluster.Auth.Lockout.{Latches, IsDue, reconcile_auth-Latches}
use etcd_operator.Cluster.Discovery.{try_discover_cluster, surface_discovery_error}
use etcd_operator.Cluster.Discovery.Seed.{Latches as LatchesId, try_discover_cluster-Latches}
use etcd_operator.Cluster.Discovery.Errors.{Told, surface_discovery_error-Told}
use etcd_operator.Cluster.Voters.{url_of}
use etcd_operator.Cluster.Join.{sorted_parts}
use etcd_operator.Cluster.Join.Entry.{IsLabel, IsEntry, sorted_parts-Has}
use etcd_operator.Cluster.Reconcile.{reconcile}
use etcd_operator.Cluster.Reconcile.Justified.{IsDriven, reconcile-IsDriven}
use etcd_operator.Tests.Fixtures.{demo, three}
use etcd_operator.Tests.Answers.{
  client_calls, discovery_calls, auth_calls, pass_calls, secured, peer_a, peer_b, ready_member,
}

-- Three members, two wanted.
reconcile-IsDriven_example :
    ((reconcile (pass_calls (demo 2) three)).calls ≡ [])
    ⊎ IsDriven (pass_calls (demo 2) three) (reconcile (pass_calls (demo 2) three)).calls
reconcile-IsDriven_example = reconcile-IsDriven (pass_calls (demo 2) three)

reconcile_auth-Latches_example :
    Latches auth_calls secured (reconcile_auth auth_calls secured three)
    × (((reconcile_auth auth_calls secured three).calls ≡ []) ⊎ IsDue auth_calls secured three)
reconcile_auth-Latches_example = reconcile_auth-Latches auth_calls secured three

try_discover_cluster-Latches_example :
    LatchesId discovery_calls (demo 1) three (try_discover_cluster discovery_calls (demo 1) three)
try_discover_cluster-Latches_example = try_discover_cluster-Latches discovery_calls (demo 1) three

surface_discovery_error-Told_example :
    Told discovery_calls
      (demo 1)
      "etcdserver: permission denied"
      (surface_discovery_error discovery_calls (demo 1) "MemberList failed" ApiError.conflict)
surface_discovery_error-Told_example =
    surface_discovery_error-Told discovery_calls (demo 1) "MemberList failed" ApiError.conflict refl

demo_b-IsLabel : IsLabel "demo-b"
unfolding string_eq nat_eq
demo_b-IsLabel = record {
  full = λ e. let q : true ≡ false = ap full e in ground arith;
  no_dot = refl;
  no_colon = refl;
}

demo_b-IsEntry : IsEntry (demo 3) (ready_member "demo-b") peer_b
unfolding url_of peer_url cluster_peer_scheme cluster_peer_auto_tls peer_tls value_at
    member_service_name string_eq
demo_b-IsEntry = record { more = []; urls = refl; name = inl refl }

sorted_parts-Has_example :
    Has
      ("demo-b" <> ("=" <> url_of (demo 3) (ready_member "demo-b")))
      (sorted_parts (peer_a ∷ peer_b ∷ []))
sorted_parts-Has_example =
    sorted_parts-Has (demo 3) (ready_member "demo-b") (peer_a ∷ peer_b ∷ []) peer_b demo_b-IsLabel
      (tail (head refl)) demo_b-IsEntry

member_name_from_peer_url-peer_url_example :
    member_name_from_peer_url (peer_url (cluster_peer_scheme (demo 3)) "demo-b" "demo" "ns")
    ≡ "demo-b"
member_name_from_peer_url-peer_url_example =
    member_name_from_peer_url-peer_url (demo 3) "demo-b" "demo" "ns" demo_b-IsLabel.no_colon
      demo_b-IsLabel.no_dot

secured_wants_auth : auth_configured client_calls secured ≡ true
unfolding auth_configured
secured_wants_auth = refl

resolve_etcd_credentials-IsRoot_example :
    Whenever (IsRoot client_calls secured) (resolve_etcd_credentials client_calls secured)
resolve_etcd_credentials-IsRoot_example =
    resolve_etcd_credentials-IsRoot client_calls secured secured_wants_auth refl

secured_is_secured : (is_some (client_tls secured) ≡ true) × (server_secret_name secured ≢ "")
unfolding client_tls server_secret_name string_eq
secured_is_secured = (refl, λ e. let q : true ≡ false = ap full e in ground arith)

build_operator_tls_config-IsVerified_example :
    Whenever (IsVerified client_calls secured) (build_operator_tls_config client_calls secured)
build_operator_tls_config-IsVerified_example =
    build_operator_tls_config-IsVerified client_calls secured secured_is_secured.0
      secured_is_secured.1
