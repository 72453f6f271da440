-- ===== src/Tests/Shared.antt =====
-- The theorems about conditions, names and metadata at concrete objects.
use etcd_operator.Prelude.{
  none, inl, inr, refl, arith, String, ◌<>◌, false, [], ◌∷◌, some, ◌≡◌, ◌⊎◌, ◌==◌, string_eq,
  if◌then◌else◌,
}
use etcd_operator.Api.Meta.{Condition, status_false}
use etcd_operator.Api.Cluster.{AdditionalMetadata}
use etcd_operator.Condition.{set_condition, upsert}
use etcd_operator.Condition.Laws.{
  condition_of, transition_time, condition_of-set_condition, upsert_again,
}
use etcd_operator.Api.Member.{EtcdMember}
use etcd_operator.Api.Cluster.{EtcdCluster}
use etcd_operator.Naming.Schemes.{IsSecured, derive_member_tls-schemes}
use etcd_operator.Naming.{
  client_tls, peer_tls, peer_secret_name, derive_member_tls, member_client_scheme,
  cluster_client_scheme, member_peer_scheme, cluster_peer_scheme, ann_data_dir_sub_path,
  etcd_data_dir_root, cluster_labels,
}
use etcd_operator.Naming.DataDir.{member_data_dir, IsComponent, member_data_dir_contained}
use etcd_operator.Metadata.{
  lookup, merged, apply_additional_metadata, apply_additional_metadata-IsMerged,
}
use etcd_operator.Tests.Fixtures.{demo, ready_condition, member, meta_of}

abbrev failing : Condition
failing = record (ready_condition) { status = status_false; reason = "PodNotReady" }

condition_of-set_condition_example :
    condition_of "Ready" (set_condition (ready_condition ∷ []) 100 failing) ≡ (
      if failing.type == "Ready"
      then some (record (failing) {
        last_transition_time =
            transition_time (condition_of failing.type (ready_condition ∷ [])) 100 failing;
      })
      else condition_of "Ready" (ready_condition ∷ []))
condition_of-set_condition_example =
    condition_of-set_condition "Ready" (ready_condition ∷ []) 100 failing

upsert_again_example :
    upsert (upsert (ready_condition ∷ []) 100 failing).0 200 failing
    ≡ ((upsert (ready_condition ∷ []) 100 failing).0, false)
upsert_again_example = upsert_again (ready_condition ∷ []) 100 200 failing

-- A member whose annotation asks for the directory that it had before a migration.
abbrev adopted : EtcdMember Unit
adopted = record (member "demo-a" 10 []) {
  meta = meta_of "demo-a" 10 ((ann_data_dir_sub_path, "legacy.etcd") ∷ []);
}

member_data_dir_contained_example :
    (member_data_dir adopted ≡ etcd_data_dir_root)
    ⊎ ((s : String) × IsComponent s × (member_data_dir adopted ≡ etcd_data_dir_root <> ("/" <> s)))
member_data_dir_contained_example = member_data_dir_contained adopted

abbrev team : AdditionalMetadata
team = record {
  labels = ("team", "db") ∷ ("app.kubernetes.io/name", "mine") ∷ [];
  annotations = ("etcd-operator.cozystack.io/data-dir-subpath", "..") ∷ [];
}

apply_additional_metadata-IsMerged_example :
    (lookup "team" (apply_additional_metadata (cluster_labels "demo") [] (some team)).0
      ≡ merged "team" (cluster_labels "demo") team.labels)
    × (lookup "team" (apply_additional_metadata (cluster_labels "demo") [] (some team)).1
        ≡ merged "team" [] team.annotations)
apply_additional_metadata-IsMerged_example =
    apply_additional_metadata-IsMerged "team" (cluster_labels "demo") [] team

-- A cluster with peer TLS from a Secret, and a member of it.
abbrev secured : EtcdCluster Unit
secured = record (demo 3) {
  spec = record ((demo 3).spec) {
    tls = some (record {
      client = none;
      peer = some (record { secret_ref = some "peer-tls"; cert_manager = none });
    });
  };
}

abbrev secured_member : EtcdMember Unit
secured_member = record (member "demo-a" 10 []) {
  spec = record ((member "demo-a" 10 []).spec) { tls = derive_member_tls secured };
}

peer_secret_named : (peer_secret_name secured == "") ≡ false
unfolding peer_secret_name peer_tls string_eq
peer_secret_named = refl

secured-IsSecured : IsSecured secured
unfolding client_tls
secured-IsSecured = (inl refl, inr (λ e. ground (arith, peer_secret_named)))

derive_member_tls-schemes_example :
    (member_client_scheme secured_member ≡ cluster_client_scheme secured)
    × (member_peer_scheme secured_member ≡ cluster_peer_scheme secured)
derive_member_tls-schemes_example =
    derive_member_tls-schemes secured secured_member secured-IsSecured refl
