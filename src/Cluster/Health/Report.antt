-- ===== src/Cluster/Health/Report.antt =====
-- A whole pass of updateStatus in controllers/etcdcluster_controller.go, read from what it stores.
use etcd_operator.Prelude.{
  ℕ, ◌*◌, Bool, false, ◌&&◌, ◌||◌, not, List, Option, none, ◌≡◌, refl, ◌==◌, nat_eq, string_eq, ltb,
  if◌then◌else◌, count, arith, is_some, sym, subst, ap, ◌∙◌, Bool-cases, inl, inr,
}
use etcd_operator.Api.Meta.{Result}
use etcd_operator.Api.Cluster.{EtcdCluster, ClusterStatus, ObservedClusterSpec}
use etcd_operator.Api.Member.{EtcdMember}
use etcd_operator.Members.{filter_running_members, find_dormant_member}
use etcd_operator.Cluster.Target.{
  with_status, member_ready, cluster_progressing, reconciliation_complete,
}
use etcd_operator.Cluster.Pdb.{Pdb}
use etcd_operator.Cluster.Health.{
  is_broken, report_health, report_progress, withheld, report_counts, report_broken, report, Env,
  update_status,
}
use etcd_operator.Condition.Laws.{is_true}
use etcd_operator.Cluster.Health.Laws.{conditions_of, report_health-is_true}
use etcd_operator.Cluster.Health.Steps.{
  report-Honest, report_health-reads, counts-reads, progress-reads, broken-reads, counts-ready,
  broken-broken, progress-is_true,
}

-- What the object holds after a pass, from the members, the target `o` and whether no retry is
-- outstanding. A health that is withheld stays as it was last reported.
pub record Reported {X : Type 0} (c : EtcdCluster X) (desired : ℕ) (members : List (EtcdMember X))
    (settled : Bool) (s : ClusterStatus X) : Type 0 where
  pub available : is_true "Available" s.conditions ≡ (
      if withheld c desired (filter_running_members members)
      then is_true "Available" c.status.conditions
      else not (desired == 0)
        && ltb desired (2 * count member_ready (filter_running_members members)))
  pub degraded : is_true "Degraded" s.conditions ≡ (
      if withheld c desired (filter_running_members members)
      then is_true "Degraded" c.status.conditions
      else not (desired == 0)
        && not (count member_ready (filter_running_members members) == desired))
  pub progressing : is_true "Progressing" s.conditions ≡ (
      not (desired == 0)
      && not (settled && reconciliation_complete c (filter_running_members members))
      && is_true "Progressing" c.status.conditions)
  pub deadline : s.progress_deadline ≡ (
      if desired == 0 || settled && reconciliation_complete c (filter_running_members members)
      then none
      else c.status.progress_deadline)
  pub ready : s.ready_members ≡ count member_ready (filter_running_members members)
  pub broken : s.broken_members ≡ count is_broken (filter_running_members members)
  pub target : s.observed ≡ c.status.observed

withheld-busy :
    {X : Type 0} (c : EtcdCluster X) (desired : ℕ) (running : List (EtcdMember X)) (a b : Bool)
    → (if not (desired == 0) && withheld c desired running then a else b)
      ≡ (if withheld c desired running then a else b)
unfolding withheld
withheld-busy c desired running a b = ground arith

ends_progress :
    (paused settled complete b : Bool)
    → (if not paused && settled && complete then false else not paused && b)
      ≡ (not paused && not (settled && complete) && b)
ends_progress paused settled complete b = ground arith

report-Reported :
    {X : Type 0} (now : ℕ) (c : EtcdCluster X) (desired : ℕ) (members : List (EtcdMember X))
    (settled : Bool)
    → Reported c desired members settled (report now c desired members settled).0.status
unfolding report withheld cluster_progressing reconciliation_complete
report-Reported now c desired members settled =
    let running = filter_running_members members in
    let ready = count member_ready running in
    let counted = report_counts now ready c in
    let hold = withheld counted.0 desired running in
    let dormant = find_dormant_member members in
    let health = report_health now desired ready hold dormant counted in
    let progress = report_progress now desired settled running health in
    let last : conditions_of (report_broken now (count is_broken running) progress)
        ≡ conditions_of progress =
      broken-reads now (λ s. s.conditions) (λ s n. refl) _ progress in
    let same_hold : hold ≡ withheld c desired running =
      counts-reads now (λ s. withheld (with_status c s) desired running) (λ s n. refl) (λ s t. refl)
        ready c in
    let same_conditions : conditions_of counted ≡ c.status.conditions =
      counts-reads now (λ s. s.conditions) (λ s n. refl) (λ s t. refl) ready c in
    let same_complete : reconciliation_complete health.0 running
        ≡ reconciliation_complete c running =
      report_health-reads now (λ s. reconciliation_complete (with_status c s) running)
        (λ s cs. refl) desired ready hold dormant counted
      ∙ counts-reads now (λ s. reconciliation_complete (with_status c s) running) (λ s n. refl)
          (λ s t. refl) ready c in
    let h = report_health-is_true now desired ready hold dormant counted in
    let p = progress-is_true now desired settled running health in
    record {
      available =
          ap (is_true "Available") last
          ∙ p.0
          ∙ h.0
          ∙ simp (same_hold, same_conditions) (withheld-busy c desired running _ _);
      degraded =
          ap (is_true "Degraded") last
          ∙ p.1
          ∙ h.1
          ∙ simp (same_hold, same_conditions) (withheld-busy c desired running _ _);
      progressing =
          ap (is_true "Progressing") last
          ∙ p.2
          ∙ simp (same_complete, h.2, same_conditions) (ends_progress (desired == 0) settled _ _);
      deadline =
          broken-reads now (λ s. s.progress_deadline) (λ s n. refl) _ progress
          ∙ p.3
          ∙ simp same_complete (
              ap
                (λ t.
                  if desired == 0 || settled && reconciliation_complete c running then none else t)
                (report_health-reads now (λ s. s.progress_deadline) (λ s cs. refl) desired ready
                    hold dormant counted
                  ∙ counts-reads now (λ s. s.progress_deadline) (λ s n. refl) (λ s t. refl) ready
                      c));
      ready =
          broken-reads now (λ s. s.ready_members) (λ s n. refl) _ progress
          ∙ progress-reads now (λ s. s.ready_members) (λ s cs. refl) (λ s t. refl) desired settled
              running health
          ∙ report_health-reads now (λ s. s.ready_members) (λ s cs. refl) desired ready hold dormant
              counted
          ∙ counts-ready now ready c;
      broken = broken-broken now _ progress;
      target =
          broken-reads now (λ s. s.observed) (λ s n. refl) _ progress
          ∙ progress-reads now (λ s. s.observed) (λ s cs. refl) (λ s t. refl) desired settled
              running health
          ∙ report_health-reads now (λ s. s.observed) (λ s cs. refl) desired ready hold dormant
              counted
          ∙ counts-reads now (λ s. s.observed) (λ s n. refl) (λ s t. refl) ready c;
    }

-- A pass whose status write succeeds stores a truthful status: Available exactly when more than
-- half of the target's members are ready, Degraded exactly when not all are, both False when the
-- target is zero, and both as before only while a step is in flight and every voter is ready;
-- Progressing ends, and the deadline with it, only when the target is reached with no retry
-- outstanding or is zero; the counts are the members', and the latched target is untouched.
pub update_status-Reported :
    {X : Type 0} (env : Env) (c : EtcdCluster X) (o : ObservedClusterSpec X)
    (members : List (EtcdMember X)) (pending : Option Result) (held : Option Pdb)
    → env.update_status ≡ none
    → Reported c o.replicas members
        (not (is_some pending))
        (update_status env c o members pending held).stored.status
unfolding update_status
update_status-Reported env c o members pending held written =
    let d = report env.now c o.replicas members (not (is_some pending)) in
    let kept : (update_status env c o members pending held).stored ≡ d.0 = elim (Bool-cases d.1) [
      | inl changed ↦ ground arith
      | inr same ↦
          let honest : d.0 ≡ c = report-Honest env.now c o.replicas members _ same in ground arith
    ] in
    subst (λ s. Reported c o.replicas members (not (is_some pending)) s.status) (sym kept)
      (report-Reported env.now c o.replicas members (not (is_some pending)))
