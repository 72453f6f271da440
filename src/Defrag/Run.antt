-- ===== src/Defrag/Run.antt =====
-- EtcdDefragReconciler.Reconcile of controllers/etcddefrag_controller.go. A pass takes the answers
-- of the outside (`Env`) and the world before it. The request's first Get is left to the caller, and
-- so is a context's timeout: a call that times out has answered with an error.
pub mod Safety
pub mod Outer
pub mod Sweep
pub mod Count
pub mod Invariant
pub mod Progress
use etcd_operator.Prelude.{
  ℕ, suc, ◌+◌, String, ◌<>◌, Bool, true, false, ◌&&◌, ◌||◌, not, List, [], ◌∷◌, Option, none, some,
  map, ◌==◌, string_eq, nat_eq, ltb, if◌then◌else◌, length,
}
use etcd_operator.Prelude.Text.{quote}
use etcd_operator.Api.Meta.{
  status_true, status_false, no_requeue, after, ApiError, Answer, ok, err, not_found,
}
use etcd_operator.Api.Cluster.{EtcdCluster}
use etcd_operator.Api.Member.{EtcdMember}
use etcd_operator.Api.Defrag.{EtcdDefrag, DefragStatus, Phase, DefragOutcome, MemberDefragStatus}
use etcd_operator.Naming.{cluster_client_scheme}
use etcd_operator.Members.{filter_running_members, member_url}
use etcd_operator.Defrag.World.{EtcdStatus, MemberBackend, Env, World, start}
use etcd_operator.Defrag.Rule.{defrag_rule_triggered, effective_quota_bytes}
use etcd_operator.Defrag.Plan.{
  is_leader_status, planned_members, first_pending_member, backend_by_name, mark_member,
  pick_transferee, leads,
}
use etcd_operator.Defrag.Queue.{is_terminal, oldest_active}
use etcd_operator.Defrag.Gate.{cluster_defrag_healthy}
use etcd_operator.Defrag.Finish.{
  Turn, defrag_requeue_after, with_status, note, set_defrag_condition, exceeded_deadline,
  deadline_msg, handle_ttl, store_status, fail, fail_run, finalize, persist_and_requeue,
}

-- The work list: made from the backends once, when there is none.
abbrev pub planned_of :
    {X : Type 0} → List MemberDefragStatus → List (MemberBackend X) → List MemberDefragStatus
planned_of [] bs = planned_members bs
planned_of (m ∷ ms) bs = m ∷ ms

abbrev pub with_plan : {X : Type 0} → World → List (MemberBackend X) → World
with_plan w bs =
    with_status w (record (w.df.status) { members = planned_of w.df.status.members bs })

abbrev pub deferral : String → String
deferral reason =
    "a defragmentation is due but the cluster is not fully healthy; deferring to protect quorum: "
    <> reason

abbrev pub waiting : String → String
waiting active = "waiting for EtcdDefrag " <> (quote active <> " to finish")

abbrev pub missing_msg : EtcdDefrag → String
missing_msg df =
    "EtcdCluster "
    <> (quote df.spec.cluster_ref <> (" not found in namespace " <> quote df.meta.namespace))

module _ {X : Type 0} (env : Env X) where
  -- The TLS material, the credentials and the client, in this order.
  unfoldable pub connect : List String → Option ApiError
  connect endpoints = elim env.tls_config [
    | some e ↦ some e
    | none ↦ elim env.credentials [ some e ↦ some e | none ↦ env.dial endpoints ]
  ]

  unfoldable pub probe : EtcdCluster X → EtcdMember X → MemberBackend X
  probe c m =
      let endpoint = member_url (cluster_client_scheme c) c.meta.namespace m in
      record { member = m; endpoint = endpoint; status = env.status endpoint; after = none }

  -- `none` when there is no client, otherwise one backend for each member, in order.
  unfoldable pub dial_and_probe :
      EtcdCluster X → List (EtcdMember X) → Option (List (MemberBackend X))
  dial_and_probe c running =
      elim (connect (map (member_url (cluster_client_scheme c) c.meta.namespace) running)) [
        | some _ ↦ none
        | none ↦ some (map (probe c) running)
      ]

  -- Whether leadership was moved, and the world after the attempt.
  unfoldable pub move_leadership_away :
      World → MemberBackend X → List (MemberBackend X) → World × Bool
  move_leadership_away w l bs =
      let id = pick_transferee l bs in
      if id == 0 then (w, false) else elim (connect (l.endpoint ∷ [])) [
        | some _ ↦ (w, false)
        | none ↦ elim (env.move_leader id) [
          | some _ ↦ (record w { moves = id ∷ w.moves }, false)
          | none ↦ (record w { moves = id ∷ w.moves }, true)
        ]
      ]

  abbrev mark : World → String → DefragOutcome → String → Option (MemberBackend X) → World
  mark w name outcome reason b = with_status w (record (w.df.status) {
    members = mark_member w.df.status.members name outcome reason b env.now;
  })

  -- The world with leadership handed over when the member leads and another could.
  unfoldable pub hand_over : World → MemberBackend X → List (MemberBackend X) → World
  hand_over w b bs =
      let (w', moved) = move_leadership_away w b bs in
      if ltb 1 (length bs) && leads b
      then (if moved then w' else note "LeadershipTransferFailed" w')
      else w

  -- The Defragment call on one member and the record of what came of it.
  unfoldable pub defragment_member : World → MemberBackend X → Turn
  defragment_member w b =
      let w1 = record w { defragments = b.endpoint ∷ w.defragments } in
      elim (env.defragment b.endpoint) [
        | some _ ↦ persist_and_requeue env (
            note "DefragFailed"
              (mark w1 b.member.meta.name DefragOutcome.failed "RPCError" (some b)))
        | none ↦
            let size : Option ℕ = elim (env.status_after b.endpoint) [
              | none ↦ none
              | some s ↦ some s.db_size
            ] in
            let reason : String = elim size [ none ↦ "AfterSizeUnavailable" | some _ ↦ "" ] in
            let w2 =
              mark w1 b.member.meta.name DefragOutcome.defragmented reason
                (some (record b { after = size })) in
            persist_and_requeue env (
              with_status w2
                (record (w2.df.status) { defragmented = w2.df.status.defragmented + 1 }))
      ]

  -- The next planned member: gone, below the rule's threshold, or defragmented.
  unfoldable pub sweep : World → EtcdCluster X → List (MemberBackend X) → MemberDefragStatus → Turn
  sweep w c bs next = elim (backend_by_name bs next.name) [
    | none ↦ persist_and_requeue env (mark w next.name DefragOutcome.failed "MemberGone" none)
    | some b ↦ elim b.status [
      | none ↦
          -- Not reached: behind the gate every backend has a status.
          persist_and_requeue env (mark w next.name DefragOutcome.failed "MemberGone" none)
      | some s ↦
          if defrag_rule_triggered env.over_share w.df.spec.rule s.db_size s.db_size_in_use
            (effective_quota_bytes c)
          then defragment_member (hand_over w b bs) b
          else persist_and_requeue env
              (mark w b.member.meta.name DefragOutcome.skipped "BelowThreshold" (some b))
    ]
  ]

  -- The transition to Running, which stamps StartedAt at most once.
  unfoldable pub start_running : World → World
  start_running w =
      let started : Option ℕ = elim w.df.status.started_at [
        | none ↦ some env.now
        | some t ↦ some t
      ] in
      (set_defrag_condition env.now
        (with_status w (record (w.df.status) { phase = Phase.running; started_at = started }))
        status_true "Running" "defragmenting members").0

  -- Behind the health gate.
  unfoldable pub work : World → EtcdCluster X → List (MemberBackend X) → Turn
  work w c bs = elim (first_pending_member (planned_of w.df.status.members bs)) [
    | none ↦ finalize env (with_plan w bs)
    | some next ↦ sweep (start_running (with_plan w bs)) c bs next
  ]

  unfoldable pub defer_run : World → String → Turn
  defer_run w reason =
      let r = set_defrag_condition env.now w status_false "ClusterNotHealthy" (deferral reason) in
      let w1 = if r.1 then note "DefragDeferred" r.0 else r.0 in
      let w2 : World = elim w.df.status.started_at [
        | none ↦ with_status w1 (record (w1.df.status) { phase = Phase.pending })
        | some _ ↦ w1
      ] in
      store_status env w2 (λ w'. (w', ok (after defrag_requeue_after)))

  -- With a client and the members' answers.
  unfoldable pub gated : World → EtcdCluster X → List (EtcdMember X) → List (MemberBackend X) → Turn
  gated w c running bs =
      if exceeded_deadline env.now w.df
      then fail_run env w "DeadlineExceeded" (deadline_msg w.df)
      else elim (cluster_defrag_healthy c running bs) [
        | some reason ↦ defer_run w reason
        | none ↦ work w c bs
      ]

  -- At the head of the cluster's queue.
  unfoldable pub headed : World → EtcdCluster X → Turn
  headed w c = elim env.list_members [
    | err e ↦ (w, err e)
    | ok ms ↦
        let running = filter_running_members ms in
        elim (dial_and_probe c running) [
          | some bs ↦ gated w c running bs
          | none ↦
              if exceeded_deadline env.now w.df
              then fail env w "DeadlineExceeded" (deadline_msg w.df)
              else (w, ok (after defrag_requeue_after))
        ]
  ]

  unfoldable pub queued : World → String → Turn
  queued w active =
      let r = set_defrag_condition env.now w status_false "Queued" (waiting active) in
      let is_pending : Bool = elim w.df.status.phase [ Phase.pending ↦ true | _ ↦ false ] in
      let done = after defrag_requeue_after in
      if r.1 || not is_pending
      then store_status env (with_status r.0 (record (r.0.df.status) { phase = Phase.pending }))
          (λ w'. (w', ok done))
      else (r.0, ok done)

  unfoldable pub serialized : World → EtcdCluster X → Turn
  serialized w c = elim env.list_runs [
    | err e ↦ (w, err e)
    | ok runs ↦
        let active = oldest_active runs c.meta.name in
        if not (active == "") && not (active == w.df.meta.name) then queued w active else headed w c
  ]

  unfoldable pub reconcile : World → Turn
  reconcile w =
      if is_terminal w.df.status.phase
      then handle_ttl env w
      else elim (env.get_cluster w.df.spec.cluster_ref) [
        | ok c ↦ serialized w c
        | err e ↦ elim e [
          | ApiError.not_found ↦ fail env w "ClusterNotFound" (missing_msg w.df)
          | problem ↦ (w, err problem)
        ]
      ]
