-- ===== src/Cluster/Health/Steps.antt =====
-- What each step of updateStatus in controllers/etcdcluster_controller.go leaves as it was.
use etcd_operator.Prelude.{
  ℕ, ◌/◌, String, Bool, true, false, ◌&&◌, ◌||◌, not, List, Option, none, ◌≡◌, refl, ◌==◌, nat_eq,
  string_eq, ltb, if◌then◌else◌, arith, ◌∙◌, Bool-cases, inl, inr,
}
use etcd_operator.Api.Meta.{Condition, ConditionStatus, status_false}
use etcd_operator.Api.Cluster.{EtcdCluster, ClusterStatus}
use etcd_operator.Api.Member.{EtcdMember}
use etcd_operator.Cluster.Target.{reconciliation_complete, set_cluster_condition}
use etcd_operator.Cluster.Health.{
  paused_message, Draft, put, assign, report_health, report_progress, clear_deadline, report_counts,
  report_broken, report,
}
use etcd_operator.Condition.Laws.{is_true}
use etcd_operator.Cluster.Health.Laws.{
  conditions_of, Honest, put-Honest, assign-Honest, is_true-put, types,
}

choose : {A : Type 0} (P : A → Type 0) (b : Bool) (x y : A) → P x → P y → P (if b then x else y)
choose P true x y p q = p
choose P false x y p q = q

module _ {X : Type 0} (now : ℕ) where
  report_health-Honest :
      (c : EtcdCluster X) (desired ready : ℕ) (hold : Bool) (dormant : Option (EtcdMember X))
      (d : Draft X)
      → Honest now c d
      → Honest now c (report_health now desired ready hold dormant d)
  unfolding report_health
  report_health-Honest c desired ready hold dormant d h =
      let P = Honest now c in
      let two : (t1 t2 : String) (s1 s2 : ConditionStatus) (r1 r2 m1 m2 : String)
          → P (put now t2 s2 r2 m2 (put now t1 s1 r1 m1 d)) =
        λ t1 t2 s1 s2 r1 r2 m1 m2.
          put-Honest now c t2 s2 r2 m2 _ (put-Honest now c t1 s1 r1 m1 d h) in
      choose P (desired == 0) _ _ (put-Honest now c _ _ _ _ _ (two _ _ _ _ _ _ _ _)) (
        choose P hold _ _ h (
          choose P (ready == desired) _ _ (two _ _ _ _ _ _ _ _)
            (choose P (ltb (desired / 2) ready) _ _ (two _ _ _ _ _ _ _ _) (two _ _ _ _ _ _ _ _))))

  report_progress-Honest :
      (c : EtcdCluster X) (desired : ℕ) (settled : Bool) (running : List (EtcdMember X))
      (d : Draft X)
      → Honest now c d
      → Honest now c (report_progress now desired settled running d)
  unfolding report_progress clear_deadline
  report_progress-Honest c desired settled running d h =
      let P = Honest now c in
      let clear : (e : Draft X) → P e → P (clear_deadline now e) =
        λ e k. assign-Honest now c _ _ e k in
      choose P (desired == 0) _ _ (clear d h) (
        choose P (settled && reconciliation_complete d.0 running) _ _
          (clear _ (put-Honest now c _ _ _ _ d h)) h)

  pub report-Honest :
      (c : EtcdCluster X) (desired : ℕ) (members : List (EtcdMember X)) (settled : Bool)
      → Honest now c (report now c desired members settled)
  unfolding report report_counts report_broken
  report-Honest c desired members settled = assign-Honest now c _ _ _ (
      report_progress-Honest c desired settled _ _ (
        report_health-Honest c desired _ _ _ _
          (assign-Honest now c _ _ _ (assign-Honest now c _ _ _ (λ _. refl)))))

module _ {X : Type 0} {A : Type 0} (now : ℕ) (f : ClusterStatus X → A) where
  pub assign-reads :
      (same : Bool) (s : ClusterStatus X) (d : Draft X)
      → f s ≡ f d.0.status
      → f (assign now same s d).0.status ≡ f d.0.status
  assign-reads true s d h = refl
  assign-reads false s d h = h

  assign-hits :
      (same : Bool) (s : ClusterStatus X) (d : Draft X) (v : A)
      → (same ≡ true → f d.0.status ≡ v)
      → f s ≡ v
      → f (assign now same s d).0.status ≡ v
  assign-hits true s d v h k = h refl
  assign-hits false s d v h k = k

  pub report_health-reads :
      ((s : ClusterStatus X) (cs : List Condition) → f (record s { conditions = cs }) ≡ f s)
      → (desired ready : ℕ) (hold : Bool) (dormant : Option (EtcdMember X)) (d : Draft X)
      → f (report_health now desired ready hold dormant d).0.status ≡ f d.0.status
  unfolding report_health set_cluster_condition
  report_health-reads blind desired ready hold dormant d =
      let P = λ (e : Draft X). f e.0.status ≡ f d.0.status in
      let one : (t : String) (s : ConditionStatus) (r m : String) (e : Draft X)
          → P e
          → P (put now t s r m e) =
        λ t s r m e k. blind e.0.status _ ∙ k in
      let two : (t1 t2 : String) (s1 s2 : ConditionStatus) (r1 r2 m1 m2 : String)
          → P (put now t2 s2 r2 m2 (put now t1 s1 r1 m1 d)) =
        λ t1 t2 s1 s2 r1 r2 m1 m2.
          one t2 s2 r2 m2 (put now t1 s1 r1 m1 d) (one t1 s1 r1 m1 d refl) in
      choose P (desired == 0) _ _
        (one _ _ _ _
          (put now "Degraded" status_false "Paused" ""
            (put now "Available" status_false "Paused" (paused_message now dormant) d))
          (two _ _ _ _ _ _ _ _))
        (choose P hold _ _ refl (
          choose P (ready == desired) _ _ (two _ _ _ _ _ _ _ _)
            (choose P (ltb (desired / 2) ready) _ _ (two _ _ _ _ _ _ _ _) (two _ _ _ _ _ _ _ _))))

  pub counts-reads :
      ((s : ClusterStatus X) (n : ℕ) → f (record s { ready_members = n }) ≡ f s)
      → ((s : ClusterStatus X) (t : String) → f (record s { selector = t }) ≡ f s)
      → (ready : ℕ) (c : EtcdCluster X) → f (report_counts now ready c).0.status ≡ f c.status
  unfolding report_counts
  counts-reads blind also ready c =
      assign-reads _ _ _ (also _ _)
      ∙ assign-reads (c.status.ready_members == ready) (record (c.status) { ready_members = ready })
          (c, false) (blind _ _)

  pub progress-reads :
      ((s : ClusterStatus X) (cs : List Condition) → f (record s { conditions = cs }) ≡ f s)
      → ((s : ClusterStatus X) (t : Option ℕ) → f (record s { progress_deadline = t }) ≡ f s)
      → (desired : ℕ) (settled : Bool) (running : List (EtcdMember X)) (d : Draft X)
      → f (report_progress now desired settled running d).0.status ≡ f d.0.status
  unfolding report_progress clear_deadline set_cluster_condition
  progress-reads blind also desired settled running d =
      let P = λ (e : Draft X). f e.0.status ≡ f d.0.status in
      let clear : (e : Draft X) → P e → P (clear_deadline now e) =
        λ e k. assign-reads _ _ e (also e.0.status none) ∙ k in
      choose P (desired == 0) _ _ (clear d refl) (
        choose P (settled && reconciliation_complete d.0 running) _ _
          (clear
            (put now "Progressing" status_false "Reconciled" "actual state matches status.observed"
              d)
            (blind d.0.status _))
          refl)

  pub broken-reads :
      ((s : ClusterStatus X) (n : ℕ) → f (record s { broken_members = n }) ≡ f s)
      → (n : ℕ) (d : Draft X) → f (report_broken now n d).0.status ≡ f d.0.status
  unfolding report_broken
  broken-reads blind n d = assign-reads _ _ d (blind d.0.status n)

module _ {X : Type 0} (now : ℕ) where
  pub counts-ready :
      (n : ℕ) (c : EtcdCluster X) → (report_counts now n c).0.status.ready_members ≡ n
  unfolding report_counts
  counts-ready n c =
      assign-reads now (λ s. s.ready_members) _ _ _ refl
      ∙ assign-hits now (λ s. s.ready_members) (c.status.ready_members == n)
          (record (c.status) { ready_members = n }) (c, false) n (λ h. ground arith) refl

  pub broken-broken : (n : ℕ) (d : Draft X) → (report_broken now n d).0.status.broken_members ≡ n
  unfolding report_broken
  broken-broken n d = assign-hits now (λ s. s.broken_members) _ _ d n (λ h. ground arith) refl

  clear-conditions : (d : Draft X) → conditions_of (clear_deadline now d) ≡ conditions_of d
  unfolding clear_deadline
  clear-conditions d = assign-reads now (λ s. s.conditions) _ _ d refl

  clear-deadline : (d : Draft X) → (clear_deadline now d).0.status.progress_deadline ≡ none
  unfolding clear_deadline
  clear-deadline d = assign-hits now (λ s. s.progress_deadline) _ _ d none (λ h. ground arith) refl

  -- The object is settled, so that Progressing ends and the deadline goes.
  pub progress-is_true :
      (desired : ℕ) (settled : Bool) (running : List (EtcdMember X)) (d : Draft X)
      → (is_true "Available" (conditions_of (report_progress now desired settled running d))
          ≡ is_true "Available" (conditions_of d))
        × (is_true "Degraded" (conditions_of (report_progress now desired settled running d))
            ≡ is_true "Degraded" (conditions_of d))
        × (is_true "Progressing" (conditions_of (report_progress now desired settled running d)) ≡ (
            if not (desired == 0) && settled && reconciliation_complete d.0 running
            then false
            else is_true "Progressing" (conditions_of d)))
        × ((report_progress now desired settled running d).0.status.progress_deadline ≡ (
            if desired == 0 || settled && reconciliation_complete d.0 running
            then none
            else d.0.status.progress_deadline))
  unfolding report_progress
  progress-is_true desired settled running d = elim (Bool-cases (desired == 0)) [
    | inl paused ↦
        simp (paused, clear-conditions, clear-deadline)
          (ground arith, ground arith, ground arith, ground arith)
    | inr busy ↦ elim (Bool-cases (settled && reconciliation_complete d.0 running)) [
      | inl done ↦
          simp (busy, done, clear-conditions, clear-deadline, is_true-put, types)
            (ground arith, ground arith, ground arith, ground arith)
      | inr unfinished ↦
          simp (busy, unfinished) (ground arith, ground arith, ground arith, ground arith)
    ]
  ]
