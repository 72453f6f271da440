-- ===== src/Cluster/Health.antt =====
-- The status that the cluster controller reports: updateStatus, soonerRequeue, requeueDelay and
-- isBroken of controllers/etcdcluster_controller.go and controllers/helpers.go.
pub mod Laws
pub mod Steps
pub mod Report
use etcd_operator.Prelude.{
  ℕ, suc, ◌+◌, ◌/◌, ◌*◌, ◌<◌, String, ◌<>◌, Bool, true, false, ◌&&◌, ◌||◌, not, List, [], ◌∷◌,
  Option, none, some, ◌≡◌, refl, ◌==◌, nat_eq, string_eq, option_eq, ltb, if◌then◌else◌, count,
  select, arith, is_some,
}
use etcd_operator.Prelude.Text.{decimal}
use etcd_operator.Api.Meta.{
  ConditionStatus, status_true, status_false, Result, no_requeue, after, second, ApiError, Answer,
  ok, err,
}
use etcd_operator.Api.Cluster.{EtcdCluster, ClusterStatus, ObservedClusterSpec, StorageMedium}
use etcd_operator.Api.Member.{EtcdMember}
use etcd_operator.Naming.{label_cluster}
use etcd_operator.Members.{filter_running_members, find_dormant_member}
use etcd_operator.Cluster.Target.{
  with_status, member_ready, cluster_progressing, reconciliation_complete, set_cluster_condition,
  storage_medium_eq,
}
use etcd_operator.Cluster.Pdb.{Pdb, Env as PdbEnv, reconcile_pdb}

-- math.MaxInt64
abbrev pub max_int64 : ℕ
max_int64 = 9223372036854775807

unfoldable pub requeue_delay : Result → ℕ
requeue_delay r =
    if ltb 0 r.requeue_after then r.requeue_after else (if r.requeue then 0 else max_int64)

unfoldable pub sooner_requeue : Result → Option Result → Result
unfolding requeue_delay
sooner_requeue base none = base
sooner_requeue base (some p) = if ltb (requeue_delay p) (requeue_delay base) then p else base

unfoldable pub is_broken : {X : Type 0} → EtcdMember X → Bool
is_broken m =
    if m.spec.storage.medium == StorageMedium.memory
    then not (m.status.pod_uid == "") && m.status.pod_name == ""
    else false

-- The object in memory, and whether it differs from the one that was read.
abbrev pub Draft : Type 0 → Type 0
Draft X = EtcdCluster X × Bool

abbrev pub members_ready_message : ℕ → ℕ → String
members_ready_message ready desired =
    decimal ready <> ("/" <> (decimal desired <> " members ready"))

module _ {X : Type 0} (now : ℕ) where
  abbrev pub put : String → ConditionStatus → String → String → Draft X → Draft X
  put type status reason message d =
      let r = set_cluster_condition now d.0 type status reason message in (r.0, r.1 || d.1)

  abbrev pub assign : Bool → ClusterStatus X → Draft X → Draft X
  assign same s d = if same then d else (with_status d.0 s, true)

  unfoldable pub paused_message : Option (EtcdMember X) → String
  paused_message none =
      "cluster is paused (spec.replicas=0); no data has been written (cluster never bootstrapped)"
  paused_message (some m) =
      if m.spec.storage.medium == StorageMedium.memory
      then "cluster is paused (spec.replicas=0); data was on tmpfs and has been lost — recreate the cluster to resume"
      else "cluster is paused (spec.replicas=0); data is preserved on PVC data-" <> m.meta.name

  -- The switch over the health.
  unfoldable pub report_health : ℕ → ℕ → Bool → Option (EtcdMember X) → Draft X → Draft X
  unfolding paused_message
  report_health desired ready withheld dormant d =
      if desired == 0
      then put "Progressing" status_false "Paused" "" (
          put "Degraded" status_false "Paused" ""
            (put "Available" status_false "Paused" (paused_message dormant) d))
      else (if withheld
          then d
          else (if ready == desired
              then put "Degraded" status_false "QuorumHealthy" ""
                  (put "Available" status_true "QuorumHealthy" "All members are ready" d)
              else (let msg = members_ready_message ready desired in
                  if ltb (desired / 2) ready
                  then put "Degraded" status_true "MembersUnhealthy" msg
                      (put "Available" status_true "QuorumAvailable" msg d)
                  else put "Degraded" status_true "QuorumLost" ""
                      (put "Available" status_false "QuorumLost" (msg <> ", quorum lost") d))))

  unfoldable pub clear_deadline : Draft X → Draft X
  clear_deadline d =
      assign (not (is_some d.0.status.progress_deadline))
        (record (d.0.status) { progress_deadline = none }) d

  -- Progressing and the deadline; `settled` when no retry is outstanding.
  unfoldable pub report_progress : ℕ → Bool → List (EtcdMember X) → Draft X → Draft X
  unfolding clear_deadline
  report_progress desired settled running d =
      if desired == 0
      then clear_deadline d
      else (if settled && reconciliation_complete d.0 running
          then clear_deadline
              (put "Progressing" status_false "Reconciled" "actual state matches status.observed" d)
          else d)

-- Whether the health stays as last reported: a step is in flight and every voter is ready.
unfoldable pub withheld : {X : Type 0} → EtcdCluster X → ℕ → List (EtcdMember X) → Bool
withheld c desired running =
    let voters = count (λ m. m.status.is_voter) running in
    let ready_voters = count (λ m. m.status.is_voter && member_ready m) running in
    not (desired == 0)
    && (ltb 0 voters && ready_voters == voters)
    && cluster_progressing c
    && not (reconciliation_complete c running)

-- The ready members and the selector of the scale subresource.
unfoldable pub report_counts : {X : Type 0} → ℕ → ℕ → EtcdCluster X → Draft X
report_counts now ready c =
    let d =
      assign now (c.status.ready_members == ready) (record (c.status) { ready_members = ready })
        (c, false) in
    let selector = label_cluster <> ("=" <> c.meta.name) in
    assign now (d.0.status.selector == selector) (record (d.0.status) { selector = selector }) d

unfoldable pub report_broken : {X : Type 0} → ℕ → ℕ → Draft X → Draft X
report_broken now broken d =
    assign now (d.0.status.broken_members == broken)
      (record (d.0.status) { broken_members = broken }) d

-- The status that a pass reports, as a draft.
unfoldable pub report : {X : Type 0} → ℕ → EtcdCluster X → ℕ → List (EtcdMember X) → Bool → Draft X
unfolding report_counts report_broken report_health report_progress withheld is_broken
report now c desired members settled =
    let running = filter_running_members members in
    let ready = count member_ready running in
    let counted = report_counts now ready c in
    let hold = withheld counted.0 desired running in
    let health = report_health now desired ready hold (find_dormant_member members) counted in
    let progress = report_progress now desired settled running health in
    report_broken now (count is_broken running) progress

-- The API server's answers to a status write and to the calls for the budget.
pub record Env : Type 0 where
  pub now : ℕ
  pub update_status : Option ApiError
  pub pdb : PdbEnv

-- What the API server holds after the pass, and the pass's answer.
pub record Outcome (X : Type 0) : Type 0 where
  pub stored : EtcdCluster X
  pub budget : Option Pdb
  pub answer : Answer Result

-- updateStatus; `o` is *cluster.Status.Observed, and a failure of the budget is only logged.
unfoldable pub update_status :
    {X : Type 0}
    → Env
    → EtcdCluster X
    → ObservedClusterSpec X
    → List (EtcdMember X)
    → Option Result
    → Option Pdb
    → Outcome X
unfolding report
update_status env c o members pending held =
    let d = report env.now c o.replicas members (not (is_some pending)) in
    let voters = count (λ m. m.status.is_voter) (filter_running_members members) in
    let budget = (reconcile_pdb env.pdb d.0 held voters).0 in
    let answer = ok (sooner_requeue (after (30 * second)) pending) in
    if d.1
    then (elim env.update_status [
      | some e ↦ record { stored = c; budget = budget; answer = err e }
      | none ↦ record { stored = d.0; budget = budget; answer = answer }
    ])
    else record { stored = c; budget = budget; answer = answer }
