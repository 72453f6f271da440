-- ===== src/Cluster/Reconcile.antt =====
-- Reconcile of controllers/etcdcluster_controller.go: one pass over a cluster and its members.
pub mod Script
pub mod Seeding
pub mod Growth
pub mod Scale
pub mod Justified
use etcd_operator.Prelude.{
  ℕ, String, Bool, true, false, ◌&&◌, ◌||◌, not, List, [], ◌∷◌, ◌++◌, Option, none, some, map, ◌==◌,
  nat_eq, string_eq, if◌then◌else◌, length, ltb, any, is_some, ◌*◌,
}
use etcd_operator.Api.Meta.{
  ConditionStatus, status_false, Result, no_requeue, after, second, ApiError, Answer, ok, err,
}
use etcd_operator.Api.Cluster.{EtcdCluster, ObservedClusterSpec}
use etcd_operator.Api.Member.{EtcdMember}
use etcd_operator.Naming.{client_tls, peer_tls, cluster_client_scheme}
use etcd_operator.Members.{
  is_deleting, filter_active_members, filter_running_members, find_dormant_member, member_endpoints,
}
use etcd_operator.Client.{dial}
use etcd_operator.Cluster.Calls.{Call, Step, wait, promote, set_voter}
use etcd_operator.Cluster.Target.{all_members_ready}
use etcd_operator.Cluster.Latch.{Env as LatchEnv, latch}
use etcd_operator.Cluster.Pdb.{Pdb}
use etcd_operator.Cluster.Health.{Env as HealthEnv, put, report, update_status}
use etcd_operator.Cluster.Voters.{votes_in_memory, vote_patches, promote_pending_learner}
use etcd_operator.Cluster.Bootstrap.{Env as BootstrapEnv, has_pending_bootstrap, bootstrap}
use etcd_operator.Cluster.Discovery.{Env as DiscoveryEnv, surface, try_discover_cluster}
use etcd_operator.Cluster.Join.{has_pending_member}
use etcd_operator.Cluster.ScaleUp.{Env as ScaleUpEnv, scale_up}
use etcd_operator.Cluster.ScaleDown.{Env as ScaleDownEnv, scale_down}
use etcd_operator.Cluster.Auth.{Env as AuthEnv, AuthCall, reconcile_auth}

-- The answers to every call of a pass. `get` and `list` are what it reads, `ensure_services` and
-- `reconcile_certificates` the outcomes of ensureServices and reconcileTLSCertificates.
pub record Env (X : Type 0) : Type 0 where
  pub get : Answer (EtcdCluster X)
  pub cert_manager_available : Bool
  pub ensure_services : Option ApiError
  pub reconcile_certificates : Option ApiError
  pub list : Answer (List (EtcdMember X))
  pub budget : Option Pdb
  pub latch : LatchEnv X
  pub bootstrap : BootstrapEnv X
  pub discovery : DiscoveryEnv
  pub scale_up : ScaleUpEnv X
  pub scale_down : ScaleDownEnv
  pub auth : AuthEnv
  pub health : HealthEnv

-- The cluster as the API server holds it, when there is one, what was asked about members and of
-- etcd, and the answer.
pub record Pass (X : Type 0) : Type 0 where
  pub stored : Option (EtcdCluster X)
  pub calls : List (Call X)
  pub auth_calls : List AuthCall
  pub answer : Answer Result

module _ {X : Type 0} where
  -- spec.tls asks cert-manager for a certificate.
  unfoldable pub has_cert_manager_tls : EtcdCluster X → Bool
  unfolding client_tls peer_tls
  has_cert_manager_tls c =
      (elim (client_tls c) [ none ↦ false | some t ↦ is_some t.cert_manager ])
      || (elim (peer_tls c) [ none ↦ false | some t ↦ is_some t.cert_manager ])

  abbrev pub quiet : Option (EtcdCluster X) → Answer Result → Pass X
  quiet c answer = record { stored = c; calls = []; auth_calls = []; answer = answer }

  -- A pass that leaves the cluster's status.
  abbrev pub acting : EtcdCluster X → Step X → Pass X
  acting c s = record { stored = some c; calls = s.0; auth_calls = []; answer = s.1 }

module _ {X : Type 0} (env : Env X) (c : EtcdCluster X) (o : ObservedClusterSpec X) where
  -- The promotion once the member count is right: the calls, the retry, the members in memory.
  unfoldable pub promote_converged :
      List (EtcdMember X) → List (Call X) × Option Result × List (EtcdMember X)
  unfolding dial member_endpoints promote_pending_learner votes_in_memory vote_patches
  promote_converged running =
      let endpoints = member_endpoints (cluster_client_scheme c) running c.meta.namespace in
      let voters = env.scale_up.voters in
      if not (c.status.cluster_id == "") && ltb 0 (length running)
      then (elim (dial env.scale_up.client env.scale_up.factory c endpoints) [
        | some _ ↦ ([], none, running)
        | none ↦
            let r = promote_pending_learner voters c running in
            let votes : List (Call X) = elim voters.member_list [
              | none ↦ []
              | some peers ↦ map (λ p. set_voter p.0 p.1) (vote_patches voters c peers running)
            ] in
            let held : List (EtcdMember X) = elim voters.member_list [
              | none ↦ running
              | some peers ↦ votes_in_memory voters c peers running
            ] in
            (votes ++ map promote r.1.0, r.1.1, held)
      ])
      else ([], none, running)

  -- updateStatus at the end of a pass that holds `memory` and that the API server holds as `kept`.
  unfoldable pub finish :
      (kept memory : EtcdCluster X)
      → List (Call X)
      → List AuthCall
      → List (EtcdMember X)
      → Option Result
      → Pass X
  unfolding report update_status
  finish kept memory calls auth_calls active pending =
      let h = update_status env.health memory o active pending env.budget in
      let draft = report env.health.now memory o.replicas active (not (is_some pending)) in
      record {
        stored =
            some (if draft.1 && not (is_some env.health.update_status) then h.stored else kept);
        calls = calls;
        auth_calls = auth_calls;
        answer = h.answer;
      }

  -- The member count is right: promotion, then authentication, then the status.
  unfoldable pub converge : (active running : List (EtcdMember X)) → Pass X
  unfolding promote_converged reconcile_auth finish
  converge active running =
      let promoted = promote_converged running in
      elim promoted.1 [
        | some r ↦ finish c c promoted.0 [] active (some r)
        | none ↦
            let auth = reconcile_auth env.auth c promoted.2 in
            elim auth.answer [
              | none ↦ finish auth.stored auth.memory promoted.0 auth.calls active none
              | some (ok r) ↦ finish auth.stored auth.memory promoted.0 auth.calls active (some r)
              | some (err e) ↦ record {
                stored = some auth.stored;
                calls = promoted.0;
                auth_calls = auth.calls;
                answer = err e;
              }
            ]
      ]

  -- No cluster ID yet.
  unfoldable pub form : (active running : List (EtcdMember X)) → Pass X
  unfolding finish has_pending_bootstrap bootstrap try_discover_cluster
  form active running =
      if o.replicas == 0
      then finish c c [] [] active none
      else (if length running == 0 || has_pending_bootstrap running
          then acting c (bootstrap env.bootstrap c o running)
          else (let found = try_discover_cluster env.discovery c running in
              quiet (some found.0) found.1))

  -- current < desired
  unfoldable pub raise : (active running : List (EtcdMember X)) → Pass X
  unfolding find_dormant_member all_members_ready scale_up wait
  raise active running =
      if is_some (find_dormant_member active) || all_members_ready running
      then acting c (scale_up env.scale_up c o active)
      else acting c (wait 5)

  -- current > desired; with no member the source's members[0] would panic.
  unfoldable pub lower : List (EtcdMember X) → Pass X
  unfolding scale_down
  lower [] = quiet (some c) (err (ApiError.other "index out of range"))
  lower (m ∷ ms) = acting c (scale_down env.scale_down c m ms)

  unfoldable pub scale : List (EtcdMember X) → Pass X
  unfolding form raise lower converge wait has_pending_member scale_up filter_active_members
      filter_running_members
  scale listed =
      let active = filter_active_members listed in
      let running = filter_running_members listed in
      let current = length running in
      if c.status.cluster_id == ""
      then form active running
      else (if any is_deleting listed
          then acting c (wait 5)
          else (if has_pending_member running
              then acting c (scale_up env.scale_up c o active)
              else (if ltb current o.replicas
                  then raise active running
                  else (if ltb o.replicas current
                      then lower running
                      else converge active running))))

module _ {X : Type 0} (env : Env X) where
  -- The dereference of a target that is not there would panic; the latch has ended that pass.
  unfoldable pub driven : EtcdCluster X → List (EtcdMember X) → Pass X
  unfolding scale
  driven c listed = elim c.status.observed [
    | none ↦ quiet (some c) (err (ApiError.other "nil pointer"))
    | some o ↦ scale env c o listed
  ]

  -- From the member list on.
  unfoldable pub drive : EtcdCluster X → List (EtcdMember X) → Pass X
  unfolding latch driven filter_running_members
  drive c listed =
      let step = latch env.latch c (filter_running_members listed) in
      elim step.1 [ some answer ↦ quiet (some step.0) answer | none ↦ driven step.0 listed ]

  abbrev pub cert_manager_message : String
  cert_manager_message =
      "spec.tls.{client,peer}.certManager is set but cert-manager.io/v1 is not registered on this cluster; install cert-manager and restart the operator, or switch to BYO Secrets"

  unfoldable pub reconcile_cluster : EtcdCluster X → Pass X
  unfolding has_cert_manager_tls surface drive
  reconcile_cluster c =
      if is_some c.meta.deletion_timestamp
      then quiet (some c) (ok no_requeue)
      else (if not env.cert_manager_available && has_cert_manager_tls c
          then (let s =
                surface env.discovery c
                  (put env.discovery.now "Available" status_false "CertManagerNotInstalled"
                    cert_manager_message (c, false))
                  no_requeue in
              quiet (some s.0) s.1)
          else (elim env.ensure_services [
            | some e ↦ quiet (some c) (err e)
            | none ↦ elim env.reconcile_certificates [
              | some e ↦ quiet (some c) (err e)
              | none ↦ elim env.list [ err e ↦ quiet (some c) (err e) | ok listed ↦ drive c listed ]
            ]
          ]))

  unfoldable pub reconcile : Pass X
  unfolding reconcile_cluster
  reconcile = elim env.get [
    | err ApiError.not_found ↦ quiet none (ok no_requeue)
    | err ApiError.conflict ↦ quiet none (err ApiError.conflict)
    | err (ApiError.other e) ↦ quiet none (err (ApiError.other e))
    | ok c ↦ reconcile_cluster c
  ]
