-- ===== src/Cluster/Discovery/Errors.antt =====
-- What surfaceDiscoveryError of controllers/etcdcluster_controller.go reports.
use etcd_operator.Prelude.{
  String, Bool, true, false, ◌&&◌, ◌||◌, not, none, ◌≡◌, refl, inl, inr, arith, Bool-cases,
  string_eq, subst, sym, ◌<>◌, ◌*◌, if◌then◌else◌,
}
use etcd_operator.Api.Meta.{
  after, second, status_true, status_false, Result, no_requeue, ApiError, ok,
}
use etcd_operator.Api.Cluster.{EtcdCluster}
use etcd_operator.Client.{auth_configured}
use etcd_operator.Cluster.Health.{Draft, put}
use etcd_operator.Condition.Laws.{is_true}
use etcd_operator.Cluster.Health.Laws.{is_true-put, Honest, put-Honest, types}
use etcd_operator.Cluster.Discovery.{
  Env, Step, surface, broken, surface_discovery_error, is_auth_required_err, is_auth_failed_err,
  stable_error_message, auth_required_message, auth_failed_message,
}

-- etcd wants credentials, and the cluster cannot have any.
abbrev pub is_hopeless : {X : Type 0} → Env → EtcdCluster X → String → Bool
is_hopeless env c text =
    is_auth_required_err text && not (auth_configured env.client c) && not c.status.auth_enabled

-- What the pass tells the user of a failed dial.
pub record Told {X : Type 0} (env : Env) (c : EtcdCluster X) (text : String) (r : Step X)
    : Type 0 where
  pub unavailable : is_true "Available" r.0.status.conditions ≡ false
  pub degraded : is_true "Degraded" r.0.status.conditions ≡ (
      if is_hopeless env c text || is_auth_failed_err text
      then true
      else is_true "Degraded" c.status.conditions)
  pub retried :
      r.1
      ≡ ok (
          if is_hopeless env c text
          then no_requeue
          else after (if is_auth_failed_err text then 30 * second else 10 * second))

surface-stored :
    {X : Type 0} (env : Env) (c : EtcdCluster X) (d : Draft X) (r : Result)
    → env.update_status ≡ none
    → Honest env.now c d
    → surface env c d r ≡ (d.0, ok r)
unfolding surface
surface-stored env c d r fine honest = ground (arith, honest)

abbrev flip : {X : Type 0} → Env → EtcdCluster X → String → String → Draft X
flip env c reason msg = put env.now "Available" status_false reason msg (c, false)

-- Both authentication failures.
broken-stored :
    {X : Type 0} (env : Env) (c : EtcdCluster X) (reason msg : String) (r : Result)
    → env.update_status ≡ none
    → (surface env c (broken env c reason msg) r ≡ ((broken env c reason msg).0, ok r))
      × (is_true "Available" (broken env c reason msg).0.status.conditions ≡ false)
      × (is_true "Degraded" (broken env c reason msg).0.status.conditions ≡ true)
unfolding broken
broken-stored env c reason msg r fine =
    let a = flip env c reason msg in
    let first = is_true-put env.now "Available" "Available" status_false reason msg (c, false) in
    let second_a = is_true-put env.now "Available" "Degraded" status_true reason msg a in
    let second_d = is_true-put env.now "Degraded" "Degraded" status_true reason msg a in
    (
      surface-stored env c _ r fine (
          put-Honest env.now c "Degraded" status_true reason msg a
            (put-Honest env.now c "Available" status_false reason msg (c, false) (λ _. refl))),
      ground (arith, first, second_a, types),
      ground (arith, second_d),
    )

-- When the status can be written, a failed discovery leaves the cluster not available, degraded
-- for the two authentication failures, and tried again after 10 seconds, or 30 for rejected
-- credentials; it is given up only when etcd wants credentials that the spec cannot provide.
pub surface_discovery_error-Told :
    {X : Type 0} (env : Env) (c : EtcdCluster X) (what : String) (e : ApiError)
    → env.update_status ≡ none
    → Told env c (env.show_error e) (surface_discovery_error env c what e)
unfolding surface_discovery_error broken
surface_discovery_error-Told env c what e fine =
    let text = env.show_error e in
    elim (Bool-cases (is_hopeless env c text)) [
      | inl hopeless ↦
          let b =
            broken-stored env c "AuthRequiredNotConfigured" auth_required_message no_requeue fine in
          let q : surface_discovery_error env c what e ≡ (
            (broken env c "AuthRequiredNotConfigured" auth_required_message).0,
            ok no_requeue,
          ) =
            ground (arith, b.0) in
          subst (Told env c text) (sym q)
            (record { unavailable = b.1; degraded = ground (arith, b.2); retried = ground arith })
      | inr hope ↦ elim (Bool-cases (is_auth_failed_err text)) [
        | inl rejected ↦
            let r = after (30 * second) in
            let b = broken-stored env c "AuthCredentialsRejected" auth_failed_message r fine in
            let q : surface_discovery_error env c what e
                ≡ ((broken env c "AuthCredentialsRejected" auth_failed_message).0, ok r) =
              ground (arith, b.0) in
            subst (Told env c text) (sym q)
              (record { unavailable = b.1; degraded = ground (arith, b.2); retried = ground arith })
        | inr silent ↦
            let msg = what <> (": " <> stable_error_message text) in
            let d = flip env c "ClusterUnreachable" msg in
            let first =
              is_true-put env.now "Available" "Available" status_false "ClusterUnreachable" msg
                (c, false) in
            let kept =
              is_true-put env.now "Degraded" "Available" status_false "ClusterUnreachable" msg
                (c, false) in
            let written = surface-stored env c d (after (10 * second)) fine (
              put-Honest env.now c "Available" status_false "ClusterUnreachable" msg (c, false)
                (λ _. refl)) in
            let q : surface_discovery_error env c what e ≡ (d.0, ok (after (10 * second))) =
              ground (arith, written) in
            subst (Told env c text) (sym q) (record {
              unavailable = ground (arith, first);
              degraded = ground (arith, kept, types);
              retried = ground arith;
            })
      ]
    ]
