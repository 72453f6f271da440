-- ===== src/Cluster/Latch.antt =====
-- The part of the cluster controller's Reconcile that decides which target it drives toward: the
-- first snapshot, handleDeadlineExceeded and the adoption of a changed spec.
pub mod Laws
use etcd_operator.Prelude.{
  ℕ, String, ◌<>◌, Bool, true, false, ◌&&◌, ◌||◌, not, List, Option, none, some, ◌==◌, string_eq,
  if◌then◌else◌, is_some,
}
use etcd_operator.Prelude.Text.{decimal}
use etcd_operator.Api.Meta.{
  ConditionStatus, status_true, status_false, Result, no_requeue, requeue_now, ApiError, Answer, ok,
  err,
}
use etcd_operator.Api.Cluster.{EtcdCluster, ClusterStatus, ObservedClusterSpec}
use etcd_operator.Api.Member.{EtcdMember}
use etcd_operator.Naming.{derive_cluster_token}
use etcd_operator.Cluster.Target.{
  DeepEqual, with_status, snapshot_spec_into_observed, spec_equals_observed,
  reconciliation_complete, set_progress_deadline, deadline_expired, set_cluster_condition,
}

-- `show_target` is the text that `%+v` gives of a target in this pass: nested pointers print as
-- addresses, so another pass may have another text.
pub record Env (X : Type 0) : Type 0 where
  pub now : ℕ
  pub equal : DeepEqual X
  pub update_status : Option ApiError
  pub show_target : ObservedClusterSpec X → String

-- The cluster as the API server holds it after the step, and the answer when the pass ends here.
abbrev pub Step : Type 0 → Type 0
Step X = EtcdCluster X × Option (Answer Result)

conflict_retries : ApiError → Answer Result
conflict_retries ApiError.conflict = ok requeue_now
conflict_retries e = err e

module _ {X : Type 0} (env : Env X) where
  -- Status().Update, then a requeue; the write fails or it stores the new status.
  unfoldable pub write_and_requeue : (before after : EtcdCluster X) → Step X
  write_and_requeue before after = elim env.update_status [
    | some e ↦ (before, some (err e))
    | none ↦ (after, some (ok requeue_now))
  ]

  -- A parked state is written only when it is news; a conflict is tried again.
  unfoldable pub park : (before after : EtcdCluster X) → Bool → Step X
  unfolding conflict_retries
  park before after changed =
      if changed
      then (elim env.update_status [
        | some e ↦ (before, some (conflict_retries e))
        | none ↦ (after, some (ok no_requeue))
      ])
      else (before, some (ok no_requeue))

  -- Both conditions of a parked state.
  unfoldable pub parked : EtcdCluster X → String → String → String → Step X
  unfolding park
  parked c reason progressing_message available_message =
      let a =
        set_cluster_condition env.now c "Progressing" status_false reason progressing_message in
      let b = set_cluster_condition env.now a.0 "Available" status_false reason available_message in
      park c b.0 (b.1 || a.1)

  unfoldable pub retarget : String → String → EtcdCluster X → EtcdCluster X
  retarget reason message c =
      (set_cluster_condition env.now (set_progress_deadline env.now (snapshot_spec_into_observed c))
        "Progressing" status_true reason message).0

  unfoldable pub handle_deadline_exceeded : EtcdCluster X → ObservedClusterSpec X → Step X
  unfolding parked write_and_requeue retarget
  handle_deadline_exceeded c o =
      if c.status.cluster_id == ""
      then parked c "BootstrapFailed"
          "bootstrap deadline exceeded; delete the cluster and recreate to recover"
          ("could not bootstrap " <> (decimal o.replicas <> "-member cluster within deadline"))
      else (if spec_equals_observed env.equal c
          then parked c "DeadlineExceeded"
              "deadline exceeded; edit spec to retry, or delete the cluster"
              ("could not reach target " <> (env.show_target o <> " within deadline"))
          else write_and_requeue c
              (retarget "RetryAfterDeadline" "adopting updated spec after previous deadline" c))

  -- The first pass: the token, the snapshot and the deadline in one write.
  unfoldable pub init_status : EtcdCluster X → EtcdCluster X
  unfolding retarget
  init_status c =
      let token =
        if c.status.cluster_token == "" then derive_cluster_token c else c.status.cluster_token in
      let tokened = with_status c (record (c.status) { cluster_token = token }) in
      elim c.status.observed [
        | none ↦ retarget "InitialSnapshot" "snapshotted initial spec into status.observed" tokened
        | some _ ↦ tokened
      ]

  -- Reconcile from the first-reconcile init up to the bootstrap; `none` goes on.
  unfoldable pub latch : EtcdCluster X → List (EtcdMember X) → Step X
  unfolding init_status handle_deadline_exceeded write_and_requeue retarget
  latch c running = elim c.status.observed [
    | none ↦ write_and_requeue c (init_status c)
    | some o ↦
        let complete = reconciliation_complete c running in
        if c.status.cluster_token == ""
        then write_and_requeue c (init_status c)
        else (if not complete && deadline_expired env.now c
            then handle_deadline_exceeded c o
            else (if complete && not (spec_equals_observed env.equal c)
                then write_and_requeue c
                    (retarget "SpecChanged" "adopting new spec after previous target reached" c)
                else (c, none)))
  ]
