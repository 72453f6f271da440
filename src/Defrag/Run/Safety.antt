-- ===== src/Defrag/Run/Safety.antt =====
-- When a pass of the defrag controller calls Defragment.
use etcd_operator.Prelude.{
  String, true, false, ◌&&◌, not, List, [], ◌∷◌, some, ◌≡◌, refl, ◌⊎◌, inl, inr, ◌==◌, string_eq,
  arith, sym, subst, Option-cases, Bool-cases,
}
use etcd_operator.Api.Meta.{Answer, ok, err, not_found}
use etcd_operator.Api.Cluster.{EtcdCluster}
use etcd_operator.Api.Member.{EtcdMember}
use etcd_operator.Api.Defrag.{EtcdDefrag, MemberDefragStatus}
use etcd_operator.Members.{filter_running_members}
use etcd_operator.Defrag.World.{EtcdStatus, MemberBackend, Env, World, start}
use etcd_operator.Defrag.Rule.{defrag_rule_triggered, effective_quota_bytes}
use etcd_operator.Defrag.Queue.{is_terminal, oldest_active}
use etcd_operator.Defrag.Gate.{IsSafe, cluster_defrag_healthy, cluster_defrag_healthy-IsSafe}
use etcd_operator.Defrag.Plan.{first_pending_member, backend_by_name}
use etcd_operator.Defrag.Finish.{
  exceeded_deadline, deadline_msg, store_status, persist_and_requeue, set_defrag_condition,
}
use etcd_operator.Defrag.Finish.Frame.{
  handle_ttl-Framed, fail-Framed, fail_run-Framed, finalize-Framed,
}
use etcd_operator.Defrag.Run.{
  dial_and_probe, move_leadership_away, hand_over, defragment_member, sweep, start_running, work,
  defer_run, gated, headed, queued, serialized, reconcile, planned_of, with_plan, missing_msg,
}

module _ {X : Type 0} (env : Env X) where
  persist-defragments : (w : World) → (persist_and_requeue env w).0.defragments ≡ w.defragments
  unfolding persist_and_requeue
  persist-defragments w = ground arith

  move_leadership_away-defragments :
      (w : World) (l : MemberBackend X) (bs : List (MemberBackend X))
      → (move_leadership_away env w l bs).0.defragments ≡ w.defragments
  unfolding move_leadership_away
  move_leadership_away-defragments w l bs = ground arith

  hand_over-defragments :
      (w : World) (l : MemberBackend X) (bs : List (MemberBackend X))
      → (hand_over env w l bs).defragments ≡ w.defragments
  unfolding hand_over
  hand_over-defragments w l bs = ground (arith, move_leadership_away-defragments w l bs)

  defragment_member-defragments :
      (w : World) (b : MemberBackend X)
      → (defragment_member env w b).0.defragments ≡ b.endpoint ∷ w.defragments
  unfolding defragment_member persist_and_requeue
  defragment_member-defragments w b = ground arith

  -- The backend that a sweep defragments: it answers, and the rule is met.
  pub record Due (w : World) (c : EtcdCluster X) (bs : List (MemberBackend X))
      (name endpoint : String) : Type 0 where
    pub backend : MemberBackend X
    pub planned : backend_by_name bs name ≡ some backend
    pub answer : EtcdStatus
    pub reachable : backend.status ≡ some answer
    pub triggered :
        defrag_rule_triggered env.over_share w.df.spec.rule answer.db_size answer.db_size_in_use
          (effective_quota_bytes c)
        ≡ true
    pub dialled : endpoint ≡ backend.endpoint

  -- A sweep makes one call, to a member that is due, or none.
  sweep-Due :
      (w : World) (c : EtcdCluster X) (bs : List (MemberBackend X)) (next : MemberDefragStatus)
      → ((sweep env w c bs next).0.defragments ≡ w.defragments)
        ⊎ ((e : String) × Due w c bs next.name e
            × ((sweep env w c bs next).0.defragments ≡ e ∷ w.defragments))
  unfolding sweep persist_and_requeue
  sweep-Due w c bs next = elim (Option-cases (backend_by_name bs next.name)) [
    | inl e ↦ inl (ground arith)
    | inr (b, e) ↦ elim (Option-cases b.status) [
      | inl f ↦ inl (ground arith)
      | inr (s, f) ↦
          elim (Bool-cases (
            defrag_rule_triggered env.over_share w.df.spec.rule s.db_size s.db_size_in_use
              (effective_quota_bytes c))) [
                | inl t ↦ inr (
                  b.endpoint,
                  record {
                    backend = b;
                    planned = e;
                    answer = s;
                    reachable = f;
                    triggered = t;
                    dialled = refl;
                  },
                  ground (
                    arith,
                    defragment_member-defragments (hand_over env w b bs) b,
                    hand_over-defragments w b bs,
                  ),
                )
                | inr t ↦ inl (ground arith)
              ]
    ]
  ]

  start_running-defragments : (w : World) → (start_running env w).defragments ≡ w.defragments
  unfolding start_running set_defrag_condition
  start_running-defragments w = ground arith

  defer_run-defragments :
      (w : World) (reason : String) → (defer_run env w reason).0.defragments ≡ w.defragments
  unfolding defer_run store_status set_defrag_condition
  defer_run-defragments w reason = ground arith

  queued-defragments :
      (w : World) (active : String) → (queued env w active).0.defragments ≡ w.defragments
  unfolding queued store_status set_defrag_condition
  queued-defragments w active = ground arith

  -- The pass works on `w` and calls nothing, or calls for the first pending member of its plan.
  work-Due :
      (w : World) (c : EtcdCluster X) (bs : List (MemberBackend X))
      → ((work env w c bs).0.defragments ≡ w.defragments)
        ⊎ ((next : MemberDefragStatus) × (e : String) × (first_pending_member
                (planned_of w.df.status.members bs)
              ≡ some next)
            × Due (start_running env (with_plan w bs)) c bs next.name e
            × ((work env w c bs).0.defragments ≡ e ∷ w.defragments))
  unfolding work
  work-Due w c bs = elim (Option-cases (first_pending_member (planned_of w.df.status.members bs))) [
    | inl e ↦ inl (ground (arith, finalize-Framed env (with_plan w bs)))
    | inr (next, e) ↦
        let w1 = start_running env (with_plan w bs) in
        elim (sweep-Due w1 c bs next) [
          | inl f ↦ inl (ground (arith, start_running-defragments (with_plan w bs)))
          | inr (d, due, f) ↦
              inr (next, d, e, due, ground (arith, start_running-defragments (with_plan w bs)))
        ]
  ]

  -- A run that is not finished, of a cluster that is there, at the head of the cluster's queue.
  pub record IsHead (df : EtcdDefrag) (c : EtcdCluster X) : Type 0 where
    pub live : is_terminal df.status.phase ≡ false
    pub found : env.get_cluster df.spec.cluster_ref ≡ ok c
    pub runs : List EtcdDefrag
    pub listed : env.list_runs ≡ ok runs
    pub at_head :
        (oldest_active runs c.meta.name ≡ "") ⊎ (oldest_active runs c.meta.name ≡ df.meta.name)

  -- What a pass that calls Defragment on `e` has checked first.
  pub record Cleared (df : EtcdDefrag) (e : String) : Type 0 where
    pub cluster : EtcdCluster X
    pub is_head : IsHead df cluster
    pub members : List (EtcdMember X)
    pub seen : env.list_members ≡ ok members
    pub backends : List (MemberBackend X)
    pub probed : dial_and_probe env cluster (filter_running_members members) ≡ some backends
    pub in_time : exceeded_deadline env.now df ≡ false
    pub safe : IsSafe cluster (filter_running_members members) backends
    pub next : MemberDefragStatus
    pub first : first_pending_member (planned_of df.status.members backends) ≡ some next
    pub due : Due (start_running env (with_plan (start df) backends)) cluster backends next.name e

  -- A pass over `w` has made no call, or the one that it was cleared for.
  abbrev Calls : EtcdDefrag → World → Type 0
  Calls df v = (v.defragments ≡ []) ⊎ ((e : String) × Cleared df e × (v.defragments ≡ e ∷ []))

  gated-Calls :
      (df : EtcdDefrag) (c : EtcdCluster X) (ms : List (EtcdMember X)) (bs : List (MemberBackend X))
      → IsHead df c
      → env.list_members ≡ ok ms
      → dial_and_probe env c (filter_running_members ms) ≡ some bs
      → Calls df (gated env (start df) c (filter_running_members ms) bs).0
  unfolding gated
  gated-Calls df c ms bs h seen probed = elim (Bool-cases (exceeded_deadline env.now df)) [
    | inl late ↦
        inl (ground (arith, fail_run-Framed env (start df) "DeadlineExceeded" (deadline_msg df)))
    | inr in_time ↦ elim (Option-cases (cluster_defrag_healthy c (filter_running_members ms) bs)) [
      | inr (reason, sick) ↦ inl (ground (arith, defer_run-defragments (start df) reason))
      | inl fit ↦ elim (work-Due (start df) c bs) [
        | inl quiet ↦ inl (ground arith)
        | inr (next, e, first, due, call) ↦ inr (
          e,
          record {
            cluster = c;
            is_head = h;
            members = ms;
            seen = seen;
            backends = bs;
            probed = probed;
            in_time = in_time;
            safe = (cluster_defrag_healthy-IsSafe c (filter_running_members ms) bs).0 fit;
            next = next;
            first = first;
            due = due;
          },
          ground arith,
        )
      ]
    ]
  ]

  headed-Calls :
      (df : EtcdDefrag) (c : EtcdCluster X) (answer : Answer (List (EtcdMember X)))
      → env.list_members ≡ answer
      → IsHead df c
      → Calls df (headed env (start df) c).0
  unfolding headed
  headed-Calls df c (err e) seen h = inl (ground arith)
  headed-Calls df c (ok ms) seen h =
      elim (Option-cases (dial_and_probe env c (filter_running_members ms))) [
        | inl p ↦
            inl (ground (arith, fail-Framed env (start df) "DeadlineExceeded" (deadline_msg df)))
        | inr (bs, p) ↦
            let q : headed env (start df) c
                ≡ gated env (start df) c (filter_running_members ms) bs =
              ground arith in
            subst (λ t. Calls df t.0) (sym q) (gated-Calls df c ms bs h seen p)
      ]

  serialized-Calls :
      (df : EtcdDefrag) (c : EtcdCluster X) (answer : Answer (List EtcdDefrag))
      → env.list_runs ≡ answer
      → is_terminal df.status.phase ≡ false
      → env.get_cluster df.spec.cluster_ref ≡ ok c
      → Calls df (serialized env (start df) c).0
  unfolding serialized
  serialized-Calls df c (err e) listed live found = inl (ground arith)
  serialized-Calls df c (ok runs) listed live found =
      let active = oldest_active runs c.meta.name in
      elim (Bool-cases (not (active == "") && not (active == df.meta.name))) [
        | inl waits ↦ inl (ground (arith, queued-defragments (start df) active))
        | inr acts ↦
            let h : IsHead df c = record {
              live = live;
              found = found;
              runs = runs;
              listed = listed;
              at_head = ground arith;
            } in
            let q : serialized env (start df) c ≡ headed env (start df) c = ground arith in
            subst (λ t. Calls df t.0) (sym q) (headed-Calls df c env.list_members refl h)
      ]

  reconcile-Calls :
      (df : EtcdDefrag) (answer : Answer (EtcdCluster X))
      → env.get_cluster df.spec.cluster_ref ≡ answer
      → Calls df (reconcile env (start df)).0
  unfolding reconcile
  reconcile-Calls df answer found = elim (Bool-cases (is_terminal df.status.phase)) [
    | inl over ↦ inl (ground (arith, handle_ttl-Framed env (start df)))
    | inr live ↦ go answer found live
  ]
    where
      go :
          (a : Answer (EtcdCluster X))
          → env.get_cluster df.spec.cluster_ref ≡ a
          → is_terminal df.status.phase ≡ false
          → Calls df (reconcile env (start df)).0
      go (err not_found) f l =
          inl (ground (arith, fail-Framed env (start df) "ClusterNotFound" (missing_msg df)))
      go (err e) f l = inl (ground arith)
      go (ok c) f l =
          let q : reconcile env (start df) ≡ serialized env (start df) c = ground arith in
          subst (λ t. Calls df t.0) (sym q) (serialized-Calls df c env.list_runs refl l f)

  -- A pass calls Defragment at most once, and only for a run that is not finished, of a cluster
  -- that is there, at the head of the cluster's queue, within its deadline, on a cluster that is
  -- safe to defragment, on the first pending member of the plan, which answers and meets the rule.
  pub reconcile-Cleared :
      (df : EtcdDefrag) (e : String) (es : List String)
      → (reconcile env (start df)).0.defragments ≡ e ∷ es
      → Cleared df e × (es ≡ [])
  reconcile-Cleared df e es h =
      elim (reconcile-Calls df (env.get_cluster df.spec.cluster_ref) refl) [
        | inl none_made ↦ absurd (ground arith)
        | inr (d, cleared, made) ↦
            let same : d ≡ e = ground arith in (subst (Cleared df) same cleared, ground arith)
      ]
