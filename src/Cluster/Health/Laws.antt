-- ===== src/Cluster/Health/Laws.antt =====
-- What updateStatus of controllers/etcdcluster_controller.go leaves in the status.
use etcd_operator.Prelude.{
  ℕ, ◌/◌, ◌*◌, String, Bool, true, false, ◌&&◌, not, List, Option, ◌≡◌, refl, ◌==◌, nat_eq,
  string_eq, ltb, if◌then◌else◌, arith, ap, ◌∙◌, Bool-cases, inl, inr,
}
use etcd_operator.Api.Meta.{Condition, ConditionStatus, status_true, status_eq}
use etcd_operator.Api.Cluster.{EtcdCluster, ClusterStatus}
use etcd_operator.Api.Member.{EtcdMember}
use etcd_operator.Condition.{upsert}
use etcd_operator.Condition.Laws.{is_true, is_true-upsert, upsert-unchanged}
use etcd_operator.Cluster.Target.{with_status, set_cluster_condition}
use etcd_operator.Cluster.Health.{Draft, put, assign, report_health}

abbrev pub conditions_of : {X : Type 0} → Draft X → List Condition
conditions_of d = d.0.status.conditions

abbrev same_type : String → String → Bool
same_type s t = s == t

-- The three conditions have different types.
pub available_not_degraded : (same_type "Available" "Degraded") ≡ false
unfolding string_eq
available_not_degraded = refl

pub available_not_progressing : (same_type "Available" "Progressing") ≡ false
unfolding string_eq
available_not_progressing = refl

pub degraded_not_available : (same_type "Degraded" "Available") ≡ false
unfolding string_eq
degraded_not_available = refl

pub degraded_not_progressing : (same_type "Degraded" "Progressing") ≡ false
unfolding string_eq
degraded_not_progressing = refl

pub progressing_not_available : (same_type "Progressing" "Available") ≡ false
unfolding string_eq
progressing_not_available = refl

pub progressing_not_degraded : (same_type "Progressing" "Degraded") ≡ false
unfolding string_eq
progressing_not_degraded = refl

pub ruleset types = (
  available_not_degraded, available_not_progressing, degraded_not_available,
  degraded_not_progressing, progressing_not_available, progressing_not_degraded,
)

module _ {X : Type 0} (now : ℕ) where
  pub is_true-put :
      (t type : String) (s : ConditionStatus) (reason message : String) (d : Draft X)
      → is_true t (conditions_of (put now type s reason message d))
        ≡ (if type == t then s == status_true else is_true t (conditions_of d))
  unfolding set_cluster_condition
  is_true-put t type s reason message d = is_true-upsert t d.0.status.conditions now (record {
    type = type;
    status = s;
    reason = reason;
    message = message;
    observed_generation = d.0.meta.generation;
    last_transition_time = 0;
  })

  -- A draft that is not marked as changed is the object that was read.
  abbrev pub Honest : EtcdCluster X → Draft X → Type 0
  Honest c d = d.1 ≡ false → d.0 ≡ c

  pub put-Honest :
      (c : EtcdCluster X) (type : String) (s : ConditionStatus) (reason message : String)
      (d : Draft X)
      → Honest c d
      → Honest c (put now type s reason message d)
  unfolding set_cluster_condition
  put-Honest c type s reason message d h = λ q.
      let w : Condition = record {
        type = type;
        status = s;
        reason = reason;
        message = message;
        observed_generation = d.0.meta.generation;
        last_transition_time = 0;
      } in
      let u : (upsert d.0.status.conditions now w).1 ≡ false = ground arith in
      let e : d.1 ≡ false = ground arith in
      ap (λ cs. with_status d.0 (record (d.0.status) { conditions = cs }))
        (upsert-unchanged d.0.status.conditions now w u)
      ∙ h e

  pub assign-Honest :
      (c : EtcdCluster X) (same : Bool) (s : ClusterStatus X) (d : Draft X)
      → Honest c d
      → Honest c (assign now same s d)
  assign-Honest c true s d h = h
  assign-Honest c false s d h = ground arith

  -- What the health switch writes over a cluster that does not withhold it.
  pub report_health-is_true :
      (desired ready : ℕ) (hold : Bool) (dormant : Option (EtcdMember X)) (d : Draft X)
      → (is_true "Available" (conditions_of (report_health now desired ready hold dormant d)) ≡ (
          if not (desired == 0) && hold
          then is_true "Available" (conditions_of d)
          else not (desired == 0) && ltb desired (2 * ready)))
        × (is_true "Degraded" (conditions_of (report_health now desired ready hold dormant d)) ≡ (
            if not (desired == 0) && hold
            then is_true "Degraded" (conditions_of d)
            else not (desired == 0) && not (ready == desired)))
        × (is_true "Progressing" (conditions_of (report_health now desired ready hold dormant d))
            ≡ (not (desired == 0) && is_true "Progressing" (conditions_of d)))
  unfolding report_health
  report_health-is_true desired ready true dormant d = elim (Bool-cases (desired == 0)) [
    | inl paused ↦ simp (paused, is_true-put, types) (ground arith, ground arith, ground arith)
    | inr running ↦ simp running (ground arith, ground arith, ground arith)
  ]
  report_health-is_true desired ready false dormant d = elim (Bool-cases (desired == 0)) [
    | inl paused ↦ simp (paused, is_true-put, types) (ground arith, ground arith, ground arith)
    | inr running ↦ elim (Bool-cases (ready == desired)) [
      | inl full ↦
          simp (running, full, is_true-put, types) (ground arith, ground arith, ground arith)
      | inr partial ↦ elim (Bool-cases (ltb (desired / 2) ready)) [
        | inl quorum ↦
            simp (running, partial, quorum, is_true-put, types)
              (ground arith, ground arith, ground arith)
        | inr lost ↦
            simp (running, partial, lost, is_true-put, types)
              (ground arith, ground arith, ground arith)
      ]
    ]
  ]
