-- ===== src/Cluster/Latch/Laws.antt =====
-- When Reconcile of controllers/etcdcluster_controller.go changes the target it drives toward.
use etcd_operator.Prelude.{
  ◌+◌, ◌*◌, String, true, List, none, some, ◌≡◌, refl, ◌≢◌, ◌⊎◌, inl, inr, ◌==◌, string_eq, nat_eq,
  arith, sym, subst, ap, ◌∙◌, Bool-cases, Option-cases, if◌then◌else◌,
}
use etcd_operator.Api.Meta.{requeue_now, second, ok, err, status_eq}
use etcd_operator.Api.Cluster.{EtcdCluster, ObservedClusterSpec}
use etcd_operator.Api.Member.{EtcdMember}
use etcd_operator.Naming.{derive_cluster_token}
use etcd_operator.Cluster.Target.{
  IsReflexive, with_status, observe, or_default, default_progress_deadline_seconds,
  snapshot_spec_into_observed, spec_equals_observed, reconciliation_complete, set_progress_deadline,
  deadline_expired, set_cluster_condition, storage_medium_eq,
}
use etcd_operator.Cluster.Latch.{
  Env, Step, write_and_requeue, park, parked, retarget, handle_deadline_exceeded, init_status,
  latch,
}
use etcd_operator.Condition.Laws.{is_true, is_true-upsert}

-- The target that is stored is the spec and equals it, a full deadline starts, Progressing is true
-- and the pass is requeued.
pub record Retargeted {X : Type 0} (env : Env X) (c : EtcdCluster X) (s : Step X) : Type 0 where
  pub target : s.0.status.observed ≡ some (observe c.spec)
  pub adopted : spec_equals_observed env.equal s.0 ≡ true
  pub deadline :
      s.0.status.progress_deadline
      ≡ some (
          env.now
          + or_default c.spec.progress_deadline_seconds default_progress_deadline_seconds * second)
  pub progressing : is_true "Progressing" s.0.status.conditions ≡ true
  pub requeued : s.1 ≡ some (ok requeue_now)

retarget-Retargeted :
    {X : Type 0} (env : Env X) (c d : EtcdCluster X) (reason message : String)
    → IsReflexive env.equal
    → d.spec ≡ c.spec
    → Retargeted env c (retarget env reason message d, some (ok requeue_now))
unfolding retarget snapshot_spec_into_observed set_progress_deadline set_cluster_condition
    spec_equals_observed observe
retarget-Retargeted env c d reason message r same = record {
  target = ap (λ s. some (observe s)) same;
  adopted = ground (
    arith,
    r.opaque_refl d.spec.resources,
    r.opaque_refl d.spec.affinity,
    r.opaque_refl d.spec.topology_spread_constraints,
    r.opaque_refl d.spec.image_pull_secrets,
    r.metadata_refl d.spec.additional_metadata,
    r.options_refl d.spec.options,
  );
  deadline =
      ap
        (λ s. some (
          env.now
          + or_default s.progress_deadline_seconds default_progress_deadline_seconds * second))
        same;
  progressing = is_true-upsert "Progressing" d.status.conditions env.now _ ∙ ground arith;
  requeued = refl;
}

-- What lets a pass move the target.
abbrev pub MayMove : {X : Type 0} → Env X → EtcdCluster X → List (EtcdMember X) → Type 0
MayMove env c running =
    (c.status.observed ≡ none)
    ⊎ (reconciliation_complete c running ≡ true)
    ⊎ ((deadline_expired env.now c ≡ true) × (c.status.cluster_id ≢ ""))

abbrev pub IsLocked : {X : Type 0} → Env X → EtcdCluster X → List (EtcdMember X) → Step X → Type 0
IsLocked env c running s =
    (s.0.status.observed ≡ c.status.observed) ⊎ (MayMove env c running × Retargeted env c s)

module _ {X : Type 0} (env : Env X) (c : EtcdCluster X) (running : List (EtcdMember X)) where
  write-kept :
      (d : EtcdCluster X)
      → d.status.observed ≡ c.status.observed
      → (write_and_requeue env c d).0.status.observed ≡ c.status.observed
  unfolding write_and_requeue
  write-kept d h = ground arith

  write-IsLocked :
      (d : EtcdCluster X)
      → MayMove env c running
      → Retargeted env c (d, some (ok requeue_now))
      → IsLocked env c running (write_and_requeue env c d)
  unfolding write_and_requeue
  write-IsLocked d may r =
      let L = IsLocked env c running in
      elim (Option-cases env.update_status) [
        | inl good ↦
            let q : write_and_requeue env c d ≡ (d, some (ok requeue_now)) = ground arith in
            subst L (sym q) (inr (may, r))
        | inr (e, bad) ↦
            let q : write_and_requeue env c d ≡ (c, some (err e)) = ground arith in
            subst L (sym q) (inl refl)
      ]

  parked-kept :
      (reason progress available : String)
      → (parked env c reason progress available).0.status.observed ≡ c.status.observed
  unfolding parked park set_cluster_condition
  parked-kept reason progress available = ground arith

  deadline-IsLocked :
      (o : ObservedClusterSpec X)
      → IsReflexive env.equal
      → deadline_expired env.now c ≡ true
      → IsLocked env c running (handle_deadline_exceeded env c o)
  unfolding handle_deadline_exceeded
  deadline-IsLocked o r late =
      let L = IsLocked env c running in
      elim (Bool-cases (c.status.cluster_id == "")) [
        | inl fresh ↦ inl (rw (fresh) (parked-kept _ _ _))
        | inr formed ↦ elim (Bool-cases (spec_equals_observed env.equal c)) [
          | inl same ↦ inl (rw (formed, same) (parked-kept _ _ _))
          | inr edited ↦
              let d =
                retarget env "RetryAfterDeadline" "adopting updated spec after previous deadline"
                  c in
              let q : handle_deadline_exceeded env c o ≡ write_and_requeue env c d = ground arith in
              subst L (sym q) (
                write-IsLocked d (inr (inr (late, ground arith)))
                  (retarget-Retargeted env c c _ _ r refl))
        ]
      ]

-- The target that is latched moves only before the first snapshot, once the members match it, or
-- after the deadline of a cluster that was once formed, and then it becomes the whole current
-- spec, with a full deadline, Progressing true and the pass requeued, when a value is deeply equal
-- to itself; an edit of the spec in between moves nothing.
pub latch-IsLocked :
    {X : Type 0} (env : Env X) (c : EtcdCluster X) (running : List (EtcdMember X))
    → IsReflexive env.equal
    → IsLocked env c running (latch env c running)
unfolding latch init_status
latch-IsLocked {X = X} env c running r =
    let L = IsLocked env c running in
    let token =
      if c.status.cluster_token == "" then derive_cluster_token c else c.status.cluster_token in
    let tokened = with_status c (record (c.status) { cluster_token = token }) in
    let go : (s : Step X) → latch env c running ≡ s → L s → L (latch env c running) =
      λ s q k. subst L (sym q) k in
    elim (Option-cases c.status.observed) [
      | inl fresh ↦ go (write_and_requeue env c (init_status env c)) (ground arith) (
          let first =
            retarget env "InitialSnapshot" "snapshotted initial spec into status.observed"
              tokened in
          let q : init_status env c ≡ first = ground arith in
          write-IsLocked env c running _ (inl fresh) (
            subst (λ d. Retargeted env c (d, some (ok requeue_now))) (sym q)
              (retarget-Retargeted env c tokened _ _ r refl)))
      | inr (o, latched) ↦ elim (Bool-cases (c.status.cluster_token == "")) [
        | inl bare ↦ go (write_and_requeue env c (init_status env c)) (ground arith) (
            let q : init_status env c ≡ tokened = ground arith in
            inl (write-kept env c running _ (ap (λ d. d.status.observed) q)))
        | inr named ↦ elim (Bool-cases (reconciliation_complete c running)) [
          | inl done ↦ elim (Bool-cases (spec_equals_observed env.equal c)) [
            | inl same ↦ go (c, none) (ground arith) (inl refl)
            | inr edited ↦
                go
                  (write_and_requeue env c (
                    retarget env "SpecChanged" "adopting new spec after previous target reached" c))
                  (ground arith)
                  (write-IsLocked env c running _ (inr (inl done))
                    (retarget-Retargeted env c c _ _ r refl))
          ]
          | inr busy ↦ elim (Bool-cases (deadline_expired env.now c)) [
            | inl late ↦
                go (handle_deadline_exceeded env c o) (ground arith)
                  (deadline-IsLocked env c running o r late)
            | inr early ↦ go (c, none) (ground arith) (inl refl)
          ]
        ]
      ]
    ]
