-- ===== src/Cluster/Discovery.antt =====
-- tryDiscoverCluster and surfaceDiscoveryError of controllers/etcdcluster_controller.go: the
-- cluster ID is latched from the seed's own answer.
pub mod Seed
pub mod Errors
use etcd_operator.Prelude.{
  ℕ, String, ◌<>◌, Bool, true, false, ◌&&◌, ◌||◌, not, List, [], ◌∷◌, Option, none, some, ◌==◌,
  string_eq, if◌then◌else◌, any, ltb, ◌*◌,
}
use etcd_operator.Prelude.Text.{contains, quote, index, take_chars, drop_chars}
use etcd_operator.Api.Meta.{
  ConditionStatus, status_true, status_false, Result, no_requeue, requeue_now, after, second,
  ApiError, Answer, ok, err,
}
use etcd_operator.Api.Cluster.{EtcdCluster}
use etcd_operator.Api.Member.{EtcdMember}
use etcd_operator.Naming.{cluster_client_scheme}
use etcd_operator.Members.{member_url}
use etcd_operator.Client.{Env as ClientEnv, Factory, build_operator_tls_config, auth_configured}
use etcd_operator.Cluster.Target.{with_status, set_cluster_condition}
use etcd_operator.Cluster.Health.{Draft, put}
use etcd_operator.Cluster.Voters.{Peer, url_of}
use etcd_operator.Cluster.Bootstrap.{find_seed}
use etcd_operator.Prelude.Hex.{hex16}

-- The text of an error is its Error(); etcd's list comes with its cluster ID.
pub record Env : Type 0 where
  pub now : ℕ
  pub update_status : Option ApiError
  pub show_error : ApiError → String
  pub client : ClientEnv
  pub factory : Factory
  pub member_list : Answer (ℕ × List Peer)

-- The cluster as the API server holds it afterwards, and the answer.
abbrev pub Step : Type 0 → Type 0
Step X = EtcdCluster X × Answer Result

unfoldable pub is_auth_required_err : String → Bool
is_auth_required_err msg =
    contains msg "user name is empty"
    || contains msg "permission denied"
    || contains msg "insufficient credentials"

unfoldable pub is_auth_failed_err : String → Bool
is_auth_failed_err msg = contains msg "authentication failed" || contains msg "invalid auth token"

-- Without what stands between the first " on " and a later ": ".
unfoldable pub stable_error_message : String → String
stable_error_message s = elim (index " on " s) [
  | none ↦ s
  | some i ↦ elim (index ": " s) [
    | none ↦ s
    | some j ↦ if ltb 0 i && ltb i j then take_chars i s <> drop_chars j s else s
  ]
]

abbrev pub auth_required_message : String
auth_required_message =
    "etcd requires authentication but spec.auth is not configured, so the operator cannot manage this cluster. This usually means a snapshot from an auth-enabled cluster was restored without spec.auth. Auth is immutable post-create: delete and recreate the cluster with spec.auth.enabled and a rootCredentialsSecretRef holding the snapshot's original root password (see the restore runbook)."

abbrev pub auth_failed_message : String
auth_failed_message =
    "etcd rejected the operator's credentials (authentication failed). spec.auth.rootCredentialsSecretRef must hold the root password etcd actually has — for a cluster restored from an auth-enabled snapshot that is the snapshot's original password (etcd stores its bcrypt hash, so a fresh password will not authenticate). Correct the Secret's password (see the restore runbook)."

module _ {X : Type 0} (env : Env) where
  -- A verdict is written only when it is news; a conflict is tried again at once.
  unfoldable pub surface : EtcdCluster X → Draft X → Result → Step X
  surface before draft r =
      if draft.1
      then (elim env.update_status [
        | none ↦ (draft.0, ok r)
        | some ApiError.conflict ↦ (before, ok requeue_now)
        | some ApiError.not_found ↦ (before, err ApiError.not_found)
        | some (ApiError.other e) ↦ (before, err (ApiError.other e))
      ])
      else (before, ok r)

  -- Available is false and Degraded is true, for one reason.
  unfoldable pub broken : EtcdCluster X → String → String → Draft X
  broken c reason msg =
      put env.now "Degraded" status_true reason msg
        (put env.now "Available" status_false reason msg (c, false))

  unfoldable pub surface_discovery_error : EtcdCluster X → String → ApiError → Step X
  unfolding surface broken is_auth_required_err is_auth_failed_err stable_error_message
      auth_configured
  surface_discovery_error c what e =
      let text = env.show_error e in
      if is_auth_required_err text
        && not (auth_configured env.client c)
        && not c.status.auth_enabled
      then surface c (broken c "AuthRequiredNotConfigured" auth_required_message) no_requeue
      else (if is_auth_failed_err text
          then surface c (broken c "AuthCredentialsRejected" auth_failed_message)
              (after (30 * second))
          else surface c
              (put env.now "Available" status_false "ClusterUnreachable"
                (what <> (": " <> stable_error_message text)) (c, false))
              (after (10 * second)))

  unfoldable pub describes : EtcdCluster X → EtcdMember X → Peer → Bool
  describes c seed p = p.name == seed.meta.name || any (λ u. u == url_of c seed) p.peer_urls

  unfoldable pub discovered : EtcdCluster X → ℕ → EtcdCluster X
  discovered c n =
      let id = hex16 n in
      (set_cluster_condition env.now (with_status c (record (c.status) { cluster_id = id }))
        "Available" status_true "ClusterDiscovered" ("etcd cluster " <> (id <> " discovered"))).0

  -- Only a list of the seed alone is definitive.
  unfoldable pub latch_id : EtcdCluster X → EtcdMember X → ℕ → List Peer → Step X
  unfolding describes discovered
  latch_id c seed id [] = (c, ok (after (5 * second)))
  latch_id c seed id (p ∷ q ∷ ps) = (c, ok (after (5 * second)))
  latch_id c seed id (p ∷ []) =
      if describes c seed p
      then (elim env.update_status [
        | some e ↦ (c, err e)
        | none ↦ (discovered c id, ok no_requeue)
      ])
      else (c, ok (after (5 * second)))

  -- The dial is anonymous: discovery comes before authentication.
  unfoldable pub ask_seed : EtcdCluster X → EtcdMember X → Step X
  unfolding latch_id surface_discovery_error build_operator_tls_config member_url
  ask_seed c seed = elim (build_operator_tls_config env.client c) [
    | err e ↦ surface_discovery_error c "operator TLS config" e
    | ok config ↦
        let endpoint = member_url (cluster_client_scheme c) c.meta.namespace seed in
        elim (env.factory (endpoint ∷ []) config "" "") [
          | some e ↦ surface_discovery_error c "etcd client construction failed" e
          | none ↦ elim env.member_list [
            | err e ↦ surface_discovery_error c "MemberList failed" e
            | ok (id, peers) ↦ latch_id c seed id peers
          ]
        ]
  ]

  unfoldable pub try_discover_cluster : EtcdCluster X → List (EtcdMember X) → Step X
  unfolding ask_seed surface
  try_discover_cluster c members = elim (find_seed members) [
    | none ↦ (c, ok (after (5 * second)))
    | some seed ↦
        if seed.status.pod_name == ""
        then surface c
            (put env.now "Progressing" status_true "WaitingForSeed"
              ("seed member " <> (quote seed.meta.name <> " has no Pod yet")) (c, false))
            (after (5 * second))
        else ask_seed c seed
  ]
