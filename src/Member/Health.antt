-- ===== src/Member/Health.antt =====
-- updateStatus and clusterHasQuorumWithout of controllers/etcdmember_controller.go, with
-- setMemberCondition of controllers/helpers.go: what a member reports of its Pod, and when it
-- gives itself up.
pub mod Mirror
pub mod Heal
pub mod Ready
use etcd_operator.Prelude.{
  ℕ, suc, ◌+◌, ◌-◌, ◌/◌, ◌*◌, String, ◌<>◌, Bool, true, false, ◌&&◌, ◌||◌, not, List, Option, none,
  some, ◌==◌, nat_eq, string_eq, ltb, leb, if◌then◌else◌,
}
use etcd_operator.Prelude.Hex.{hex16}
use etcd_operator.Prelude.Text.{quote}
use etcd_operator.Api.Meta.{
  ConditionStatus, status_true, status_false, Result, no_requeue, after, second, ApiError, Answer,
  ok, err,
}
use etcd_operator.Api.Cluster.{EtcdCluster, StorageMedium}
use etcd_operator.Api.Member.{EtcdMember, MemberStatus}
use etcd_operator.Condition.{upsert}
use etcd_operator.Naming.{label_cluster}
use etcd_operator.Cluster.Target.{member_ready, storage_medium_eq}
use etcd_operator.Member.Pods.{Pod, pod_ready, etcd_container_stuck}
use etcd_operator.Member.Dial.{Env as DialEnv, discover_member_id, observe_version}

-- The clock, and the answers to the Pod's Get, to the member's Delete and to the status write.
pub record Env (X : Type 0) : Type 0 where
  pub now : ℕ
  pub show_error : ApiError → String
  pub get_pod : Answer Pod
  pub dial : DialEnv X
  pub delete : Option ApiError
  pub update_status : Option ApiError

-- The member as the API server holds it, whether its deletion was asked for, and the answer.
pub record Outcome (X : Type 0) : Type 0 where
  pub stored : EtcdMember X
  pub deleted : Bool
  pub answer : Answer Result

-- The object in memory, and whether it differs from the one that was read.
abbrev pub Draft : Type 0 → Type 0
Draft X = EtcdMember X × Bool

module _ {X : Type 0} where
  abbrev pub with_status : EtcdMember X → MemberStatus → EtcdMember X
  with_status m s = record m { status = s }

  unfoldable pub set_member_condition :
      ℕ → String → ConditionStatus → String → String → Draft X → Draft X
  set_member_condition now type status reason message d =
      let r = upsert d.0.status.conditions now (record {
        type = type;
        status = status;
        reason = reason;
        message = message;
        observed_generation = d.0.meta.generation;
        last_transition_time = 0;
      }) in
      (with_status d.0 (record (d.0.status) { conditions = r.0 }), r.1 || d.1)

  -- A field that is written when it differs.
  abbrev pub assign : Bool → MemberStatus → Draft X → Draft X
  assign same s d = if same then d else (with_status d.0 s, true)

  -- The members the cluster counts as ready, this one left out.
  unfoldable pub ready_others : EtcdCluster X → EtcdMember X → ℕ
  unfolding member_ready
  ready_others c m = if member_ready m then c.status.ready_members - 1 else c.status.ready_members

  -- The latched target, or the spec's when there is none.
  unfoldable pub wanted_members : EtcdCluster X → ℕ
  wanted_members c =
      let target : ℕ = elim c.status.observed [ none ↦ 0 | some o ↦ o.replicas ] in
      if target == 0 then (elim c.spec.replicas [ none ↦ 0 | some n ↦ n ]) else target

  unfoldable pub cluster_has_quorum_without : Answer (EtcdCluster X) → EtcdMember X → Bool
  unfolding ready_others wanted_members
  cluster_has_quorum_without got m = elim got [
    | err _ ↦ false
    | ok c ↦
        let n = wanted_members c in if n == 0 then false else leb (n / 2 + 1) (ready_others c m)
  ]

  -- The fields that mirror the Pod and the scale subresource.
  unfoldable pub mirror_name : Pod → Draft X → Draft X
  mirror_name p d =
      assign (d.0.status.pod_name == p.name) (record (d.0.status) { pod_name = p.name }) d

  unfoldable pub mirror_uid : Pod → Draft X → Draft X
  mirror_uid p d = assign (d.0.status.pod_uid == p.uid) (record (d.0.status) { pod_uid = p.uid }) d

  unfoldable pub mirror_claim : Draft X → Draft X
  mirror_claim d =
      let claim = "data-" <> d.0.meta.name in
      assign (d.0.spec.storage.medium == StorageMedium.memory || d.0.status.pvc_name == claim)
        (record (d.0.status) { pvc_name = claim }) d

  unfoldable pub mirror_scale : Draft X → Draft X
  mirror_scale d =
      let counted = assign (d.0.status.replicas == 1) (record (d.0.status) { replicas = 1 }) d in
      let selector =
        label_cluster
        <> ("=" <> (d.0.spec.cluster_name <> (",app.kubernetes.io/component=" <> d.0.meta.name))) in
      assign (counted.0.status.selector == selector)
        (record (counted.0.status) { selector = selector }) counted

  unfoldable pub mirror : Pod → EtcdMember X → Draft X
  unfolding mirror_name mirror_uid mirror_claim mirror_scale
  mirror p m = mirror_scale (mirror_claim (mirror_uid p (mirror_name p (m, false))))

module _ {X : Type 0} (env : Env X) where
  -- The reported Ready condition; the second component is whether etcd is ready.
  unfoldable pub report_ready : Pod → Draft X → Draft X × Bool
  unfolding set_member_condition discover_member_id
  report_ready p d =
      let yes =
        set_member_condition env.now "Ready" status_true "PodReady" "etcd member is ready" in
      if not (pod_ready p)
      then (
        set_member_condition env.now "Ready" status_false "PodNotReady" ("pod phase: " <> p.phase)
            d,
        false,
      )
      else (if d.0.status.member_id == ""
          then (elim (discover_member_id env.dial d.0) [
            | ok id ↦
                (yes (with_status d.0 (record (d.0.status) { member_id = hex16 id }), true), true)
            | err e ↦ (
              set_member_condition env.now "Ready" status_false "DiscoveringMemberID"
                  ("waiting for memberID: " <> env.show_error e) d,
              false,
            )
          ])
          else (yes d, true))

  -- The drift is reported only between two known versions.
  unfoldable pub report_drift : Draft X → Draft X
  unfolding set_member_condition
  report_drift d =
      let running = d.0.status.version in
      let intended = d.0.spec.version in
      if running == "" || intended == ""
      then d
      else (if running == intended
          then set_member_condition env.now "VersionDrifted" status_false "VersionMatched"
              ("running etcd version " <> (quote running <> " matches intended spec.version")) d
          else set_member_condition env.now "VersionDrifted" status_true "VersionMismatch"
              ("running etcd version "
                <> (quote running <> (" does not match intended spec.version " <> quote intended)))
              d)

  unfoldable pub report_version : Draft X → Draft X
  unfolding observe_version report_drift
  report_version d =
      let v = observe_version env.dial d.0 in
      report_drift (assign (v == d.0.status.version) (record (d.0.status) { version = v }) d)

  unfoldable pub report : Pod → EtcdMember X → Draft X
  unfolding mirror report_ready report_version
  report p m = let r = report_ready p (mirror p m) in if r.1 then report_version r.0 else r.0

  -- A member that cannot start while the others have a quorum is given up.
  unfoldable pub gives_up : Pod → EtcdMember X → Bool
  unfolding mirror cluster_has_quorum_without
  gives_up p m =
      not (pod_ready p)
      && etcd_container_stuck p
      && cluster_has_quorum_without env.dial.get_cluster (mirror p m).0

  -- The write of a status that differs; the API server holds `held`, and the pass `m`.
  unfoldable pub publish : EtcdMember X → Draft X → Outcome X
  publish held d =
      if d.1
      then (elim env.update_status [
        | some e ↦ record { stored = held; deleted = false; answer = err e }
        | none ↦ record { stored = d.0; deleted = false; answer = ok (after (30 * second)) }
      ])
      else record { stored = held; deleted = false; answer = ok (after (30 * second)) }

  unfoldable pub observe_pod : (held m : EtcdMember X) → Pod → Outcome X
  unfolding report gives_up publish
  observe_pod held m p =
      if gives_up p m
      then record {
        stored = held;
        deleted = true;
        answer = elim env.delete [ some e ↦ err e | none ↦ ok no_requeue ];
      }
      else publish held (report p m)

  unfoldable pub update_status : (held m : EtcdMember X) → Outcome X
  unfolding observe_pod
  update_status held m = elim env.get_pod [
    | ok p ↦ observe_pod held m p
    | err ApiError.not_found ↦ record {
      stored = held;
      deleted = false;
      answer = ok (after (5 * second));
    }
    | err ApiError.conflict ↦ record {
      stored = held;
      deleted = false;
      answer = err ApiError.conflict;
    }
    | err (ApiError.other e) ↦ record {
      stored = held;
      deleted = false;
      answer = err (ApiError.other e);
    }
  ]
