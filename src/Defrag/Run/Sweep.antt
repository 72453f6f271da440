-- ===== src/Defrag/Run/Sweep.antt =====
-- What a pass keeps of a run's sweep: the time it started, and the count of its work list.
use etcd_operator.Prelude.{ℕ, List, some, ◌≡◌, inl, inr, string_eq, arith, ap, ◌∙◌, Option-cases}
use etcd_operator.Api.Cluster.{EtcdCluster}
use etcd_operator.Api.Defrag.{EtcdDefrag, DefragStatus, MemberDefragStatus}
use etcd_operator.Defrag.World.{MemberBackend, Env, World, start}
use etcd_operator.Defrag.Plan.{first_pending_member, backend_by_name}
use etcd_operator.Defrag.Finish.{persist_and_requeue, set_defrag_condition}
use etcd_operator.Defrag.Finish.Frame.{SameSweep, finalize-Framed}
use etcd_operator.Defrag.Run.{
  move_leadership_away, hand_over, defragment_member, sweep, start_running, work, reconcile,
  planned_of, with_plan,
}
use etcd_operator.Defrag.Run.Outer.{Holds, Framed-Holds, reconcile-Holds}

module _ {X : Type 0} (env : Env X) where
  -- Handing leadership over changes neither status.
  pub hand_over-status :
      (w : World) (l : MemberBackend X) (bs : List (MemberBackend X))
      → ((hand_over env w l bs).df ≡ w.df) × ((hand_over env w l bs).stored ≡ w.stored)
  unfolding hand_over move_leadership_away
  hand_over-status w l bs = ground arith

  abbrev StartedAt : ℕ → DefragStatus → Type 0
  StartedAt t s = s.started_at ≡ some t

  StartedAt-same : (t : ℕ) (s u : DefragStatus) → SameSweep s u → StartedAt t s → StartedAt t u
  StartedAt-same t s u h e = ground arith

  start_running-StartedAt :
      (t : ℕ) (w : World)
      → w.df.status.started_at ≡ some t
      → ((start_running env w).df.status.started_at ≡ some t)
        × ((start_running env w).stored ≡ w.stored)
  unfolding start_running set_defrag_condition
  start_running-StartedAt t w h = ground arith

  sweep-StartedAt :
      (t : ℕ) (w : World) (c : EtcdCluster X) (bs : List (MemberBackend X))
      (next : MemberDefragStatus)
      → w.df.status.started_at ≡ some t
      → w.stored.started_at ≡ some t
      → (((sweep env w c bs next).0.df.status.started_at ≡ some t)
          × ((sweep env w c bs next).0.stored.started_at ≡ some t))
  unfolding sweep defragment_member persist_and_requeue
  sweep-StartedAt t w c bs next h k = elim (Option-cases (backend_by_name bs next.name)) [
    | inl e ↦ ground arith
    | inr (b, e) ↦ ground (arith, hand_over-status w b bs)
  ]

  work-StartedAt :
      (t : ℕ) (w : World) (c : EtcdCluster X) (bs : List (MemberBackend X))
      → w.df.status.started_at ≡ some t
      → w.stored.started_at ≡ some t
      → Holds env (StartedAt t) (StartedAt-same t) (work env w c bs).0
  unfolding work
  work-StartedAt t w c bs h k =
      let w1 = with_plan w bs in
      elim (Option-cases (first_pending_member (planned_of w.df.status.members bs))) [
        | inl e ↦
            rw (e, work)
              (Framed-Holds env (StartedAt t) (StartedAt-same t) w1 _ (finalize-Framed env w1)
                (h, k))
        | inr (next, e) ↦
            let s = start_running-StartedAt t w1 h in
            rw (e, work)
              (sweep-StartedAt t (start_running env w1) c bs next s.0
                (ap (λ (u : DefragStatus). u.started_at) s.1 ∙ k))
      ]

  -- The time at which a run started, once stamped, is never stamped again.
  pub reconcile-started_at :
      (df : EtcdDefrag) (t : ℕ)
      → df.status.started_at ≡ some t
      → (reconcile env (start df)).0.stored.started_at ≡ some t
  reconcile-started_at df t h =
      (reconcile-Holds env (StartedAt t) (StartedAt-same t) df h
        (λ c ms bs _ _. work-StartedAt t (start df) c bs h h)).1
