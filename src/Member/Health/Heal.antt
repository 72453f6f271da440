-- ===== src/Member/Health/Heal.antt =====
-- When updateStatus of controllers/etcdmember_controller.go gives a member up.
use etcd_operator.Prelude.{
  ◌*◌, ◌<◌, ◌≤◌, Bool, true, false, ◌&&◌, not, some, ◌≡◌, ◌==◌, nat_eq, arith, Bool-cases,
  Option-cases, inl, inr, find?, string_eq, ◌≢◌, option_eq,
}
use etcd_operator.Api.Meta.{ApiError, ok, Answer-cases}
use etcd_operator.Api.Cluster.{EtcdCluster}
use etcd_operator.Api.Member.{EtcdMember}
use etcd_operator.Member.Pods.{
  Pod, ContainerStatus, pod_ready, is_stuck, etcd_container_stuck, data_loss_restart_threshold,
}
use etcd_operator.Member.Health.Mirror.{kept-mirror}
use etcd_operator.Member.Health.{
  Env, ready_others, wanted_members, cluster_has_quorum_without, mirror, gives_up, update_status,
  observe_pod, publish, report, Draft,
}

-- A member that may be replaced: its etcd keeps failing, and the others have a quorum without it.
pub record IsLost {X : Type 0} (env : Env X) (m : EtcdMember X) : Type 0 where
  pub pod : Pod
  pub got : env.get_pod ≡ ok pod
  pub unready : pod_ready pod ≡ false
  pub etcd : ContainerStatus
  pub found : find? (λ s. s.name == "etcd") pod.container_statuses ≡ some etcd
  pub failing : (etcd.ready ≡ false) × (data_loss_restart_threshold ≤ etcd.restart_count)
  pub in_memory : (etcd.terminated ≢ some "OOMKilled") × (etcd.last_terminated ≢ some "OOMKilled")
  pub cluster : EtcdCluster X
  pub read : env.dial.get_cluster ≡ ok cluster
  pub wanted : 0 < wanted_members cluster
  pub quorum : wanted_members cluster < 2 * ready_others cluster m

three : (a b c : Bool) → (not a && b && c) ≡ true → (a ≡ false) × (b ≡ true) × (c ≡ true)
three a b c h = (ground arith, ground arith, ground arith)

module _ {X : Type 0} (env : Env X) (held m : EtcdMember X) where
  -- What the mirrored fields leave of the count.
  ready-mirror : (p : Pod) (c : EtcdCluster X) → ready_others c (mirror p m).0 ≡ ready_others c m
  unfolding ready_others
  ready-mirror p c = ground (arith, kept-mirror p m)

  quorum-cases :
      (p : Pod)
      → cluster_has_quorum_without env.dial.get_cluster (mirror p m).0 ≡ true
      → (c : EtcdCluster X) × (env.dial.get_cluster ≡ ok c)
        × (0 < wanted_members c)
        × (wanted_members c < 2 * ready_others c m)
  unfolding cluster_has_quorum_without
  quorum-cases p h = elim (Answer-cases env.dial.get_cluster) [
    | inr (e, failed) ↦ ground arith
    | inl (c, read) ↦ elim (Bool-cases (wanted_members c == 0)) [
      | inl nobody ↦ ground arith
      | inr some_body ↦ (c, read, ground arith, ground (arith, ready-mirror p c))
    ]
  ]

  stuck-cases :
      (p : Pod)
      → etcd_container_stuck p ≡ true
      → (s : ContainerStatus) × (find? (λ s. s.name == "etcd") p.container_statuses ≡ some s)
        × (is_stuck s ≡ true)
  unfolding etcd_container_stuck
  stuck-cases p h = elim (Option-cases (find? (λ s. s.name == "etcd") p.container_statuses)) [
    | inl missing ↦ ground arith
    | inr (s, found) ↦ (s, found, ground arith)
  ]

  stuck-failing :
      (s : ContainerStatus)
      → is_stuck s ≡ true
      → (s.ready ≡ false)
        × (data_loss_restart_threshold ≤ s.restart_count)
        × (s.terminated ≢ some "OOMKilled")
        × (s.last_terminated ≢ some "OOMKilled")
  unfolding is_stuck
  stuck-failing s h = (ground arith, ground arith, λ e. ground arith, λ e. ground arith)

  publish-deleted : (d : Draft X) → (publish env held d).deleted ≡ false
  unfolding publish
  publish-deleted d = ground arith

  observe-deleted : (p : Pod) → (observe_pod env held m p).deleted ≡ gives_up env p m
  unfolding observe_pod
  observe-deleted p = ground (arith, publish-deleted (report env p m))

  deleted-gives_up :
      (update_status env held m).deleted ≡ true
      → (p : Pod) × (env.get_pod ≡ ok p) × (gives_up env p m ≡ true)
  unfolding update_status
  deleted-gives_up h = elim (Answer-cases env.get_pod) [
    | inr (ApiError.not_found, e) ↦ ground arith
    | inr (ApiError.conflict, e) ↦ ground arith
    | inr (ApiError.other t, e) ↦ ground arith
    | inl (p, got) ↦ (p, got, ground (arith, observe-deleted p))
  ]

  gives_up-cases :
      (p : Pod)
      → gives_up env p m ≡ true
      → (pod_ready p ≡ false)
        × (etcd_container_stuck p ≡ true)
        × (cluster_has_quorum_without env.dial.get_cluster (mirror p m).0 ≡ true)
  unfolding gives_up
  gives_up-cases p up = three (pod_ready p) _ _ up

-- A member asks for its own deletion only when its Pod is not ready, its etcd container is not
-- ready after at least five restarts and was not killed for memory, and the other ready members
-- are more than half of the members that the cluster is to have.
pub update_status-IsLost :
    {X : Type 0} (env : Env X) (held m : EtcdMember X)
    → (update_status env held m).deleted ≡ true
    → IsLost env m
update_status-IsLost env held m h =
    let up = deleted-gives_up env held m h in
    let p = up.0 in
    let why = gives_up-cases env held m p up.2 in
    let stuck = stuck-cases env held m p why.1 in
    let quorum = quorum-cases env held m p why.2 in
    let failing = stuck-failing env held m stuck.0 stuck.2 in
    record {
      pod = p;
      got = up.1;
      unready = why.0;
      etcd = stuck.0;
      found = stuck.1;
      failing = (failing.0, failing.1);
      in_memory = (failing.2, failing.3);
      cluster = quorum.0;
      read = quorum.1;
      wanted = quorum.2;
      quorum = quorum.3;
    }
