-- ===== src/Defrag/Run/Outer.antt =====
-- The gates around the sweep leave its records alone: what holds of a run's sweep is kept by a pass
-- if it is kept by the work behind the health gate.
use etcd_operator.Prelude.{
  String, false, ◌&&◌, not, List, none, some, ◌≡◌, refl, ◌⊎◌, inl, inr, ◌==◌, string_eq, arith, sym,
  subst, Option-cases, Bool-cases,
}
use etcd_operator.Api.Meta.{Answer, ok, err, not_found, status_false}
use etcd_operator.Api.Cluster.{EtcdCluster}
use etcd_operator.Api.Member.{EtcdMember}
use etcd_operator.Api.Defrag.{EtcdDefrag, DefragStatus}
use etcd_operator.Members.{filter_running_members}
use etcd_operator.Defrag.World.{MemberBackend, Env, World, start}
use etcd_operator.Defrag.Queue.{is_terminal, oldest_active}
use etcd_operator.Defrag.Gate.{cluster_defrag_healthy}
use etcd_operator.Defrag.Finish.{
  Turn, exceeded_deadline, deadline_msg, fail, handle_ttl, store_status,
}
use etcd_operator.Defrag.Finish.Frame.{
  SameSweep, Framed, Framed-refl, set_defrag_condition-Framed, handle_ttl-Framed, fail-Framed,
  fail_run-Framed,
}
use etcd_operator.Defrag.Run.{
  dial_and_probe, work, defer_run, gated, headed, queued, serialized, reconcile, missing_msg,
  deferral, waiting,
}

module _ {X : Type 0} (env : Env X) where
  defer_run-Framed : (w : World) (reason : String) → Framed w (defer_run env w reason).0
  unfolding defer_run store_status
  defer_run-Framed w reason = ground (
    arith,
    set_defrag_condition-Framed env.now w status_false "ClusterNotHealthy" (deferral reason),
  )

  queued-Framed : (w : World) (active : String) → Framed w (queued env w active).0
  unfolding queued store_status
  queued-Framed w active =
      ground (arith, set_defrag_condition-Framed env.now w status_false "Queued" (waiting active))

  headed_undialled-Framed :
      (w : World) (c : EtcdCluster X) (ms : List (EtcdMember X))
      → env.list_members ≡ ok ms
      → dial_and_probe env c (filter_running_members ms) ≡ none
      → Framed w (headed env w c).0
  unfolding headed
  headed_undialled-Framed w c ms seen p =
      ground (arith, Framed-refl w, fail-Framed env w "DeadlineExceeded" (deadline_msg w.df))

  module _ (P : DefragStatus → Type 0)
      (same : (s t : DefragStatus) → SameSweep s t → P s → P t) where
    abbrev pub Holds : World → Type 0
    Holds w = P w.df.status × P w.stored

    pub Framed-Holds : (w v : World) → Framed w v → Holds w → Holds v
    Framed-Holds w v f h = (same w.df.status v.df.status f.memory h.0, stored f.store)
      where
        stored : (v.stored ≡ w.stored) ⊎ SameSweep w.df.status v.stored → P v.stored
        stored (inl e) = subst P (sym e) h.1
        stored (inr s) = same w.df.status v.stored s h.0

    along : (t u : Turn) → t ≡ u → Holds u.0 → Holds t.0
    along t u q h = subst (λ x. Holds x.0) (sym q) h

    module _ (df : EtcdDefrag) (held : P df.status)
        (keeps : (c : EtcdCluster X) (ms : List (EtcdMember X)) (bs : List (MemberBackend X))
          → env.list_members ≡ ok ms
          → dial_and_probe env c (filter_running_members ms) ≡ some bs
          → Holds (work env (start df) c bs).0) where
      by_frame : (v : World) → Framed (start df) v → Holds v
      by_frame v f = Framed-Holds (start df) v f (held, held)

      gated-Holds :
          (c : EtcdCluster X) (ms : List (EtcdMember X)) (bs : List (MemberBackend X))
          → env.list_members ≡ ok ms
          → dial_and_probe env c (filter_running_members ms) ≡ some bs
          → Holds (gated env (start df) c (filter_running_members ms) bs).0
      unfolding gated
      gated-Holds c ms bs seen probed =
          let w = start df in
          elim (Bool-cases (exceeded_deadline env.now w.df)) [
            | inl late ↦
                rw (late, gated)
                  (by_frame _ (fail_run-Framed env w "DeadlineExceeded" (deadline_msg w.df)))
            | inr in_time ↦
                elim (Option-cases (cluster_defrag_healthy c (filter_running_members ms) bs)) [
                  | inr (reason, sick) ↦
                      rw (in_time, gated)
                        (rw (sick, gated) (by_frame _ (defer_run-Framed w reason)))
                  | inl fit ↦ rw (in_time, gated) (rw (fit, gated) (keeps c ms bs seen probed))
                ]
          ]

      headed-Holds :
          (c : EtcdCluster X) (answer : Answer (List (EtcdMember X)))
          → env.list_members ≡ answer
          → Holds (headed env (start df) c).0
      unfolding headed
      headed-Holds c (err e) seen =
          along (headed env (start df) c) (start df, err e) (ground arith) (held, held)
      headed-Holds c (ok ms) seen =
          let w = start df in
          let run = filter_running_members ms in
          elim (Option-cases (dial_and_probe env c run)) [
            | inl p ↦ by_frame _ (headed_undialled-Framed w c ms seen p)
            | inr (bs, p) ↦
                along (headed env w c) (gated env w c run bs) (ground arith)
                  (gated-Holds c ms bs seen p)
          ]

      serialized-Holds :
          (c : EtcdCluster X) (answer : Answer (List EtcdDefrag))
          → env.list_runs ≡ answer
          → Holds (serialized env (start df) c).0
      unfolding serialized
      serialized-Holds c (err e) listed =
          along (serialized env (start df) c) (start df, err e) (ground arith) (held, held)
      serialized-Holds c (ok runs) listed =
          let w = start df in
          let active = oldest_active runs c.meta.name in
          elim (Bool-cases (not (active == "") && not (active == df.meta.name))) [
            | inl waits ↦
                along (serialized env w c) (queued env w active) (ground arith)
                  (by_frame _ (queued-Framed w active))
            | inr acts ↦
                along (serialized env w c) (headed env w c) (ground arith)
                  (headed-Holds c env.list_members refl)
          ]

      cluster-Holds :
          (answer : Answer (EtcdCluster X))
          → env.get_cluster df.spec.cluster_ref ≡ answer
          → is_terminal df.status.phase ≡ false
          → Holds (reconcile env (start df)).0
      unfolding reconcile
      cluster-Holds (err not_found) f l =
          along (reconcile env (start df)) (fail env (start df) "ClusterNotFound" (missing_msg df))
            (ground arith)
            (by_frame _ (fail-Framed env (start df) "ClusterNotFound" (missing_msg df)))
      cluster-Holds (err e) f l =
          along (reconcile env (start df)) (start df, err e) (ground arith) (held, held)
      cluster-Holds (ok c) f l =
          along (reconcile env (start df)) (serialized env (start df) c) (ground arith)
            (serialized-Holds c env.list_runs refl)

      pub reconcile-Holds : Holds (reconcile env (start df)).0
      unfolding reconcile
      reconcile-Holds = elim (Bool-cases (is_terminal df.status.phase)) [
        | inl over ↦
            along (reconcile env (start df)) (handle_ttl env (start df)) (ground arith)
              (by_frame _ (handle_ttl-Framed env (start df)))
        | inr live ↦ cluster-Holds (env.get_cluster df.spec.cluster_ref) refl live
      ]
