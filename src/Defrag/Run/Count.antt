-- ===== src/Defrag/Run/Count.antt =====
-- What the sweep of one member does to the work list and to the counter of a run.
use mathlib.Core.List.{Nodup}
use etcd_operator.Prelude.{
  ℕ, suc, ◌+◌, String, List, Option, none, some, ◌≡◌, refl, ◌⊎◌, inl, inr, ◌==◌, string_eq, arith,
  Option-cases, Bool-cases, if◌then◌else◌, find?-Mem, ==_iff, is_some,
}
use etcd_operator.Api.Cluster.{EtcdCluster}
use etcd_operator.Api.Defrag.{DefragOutcome, MemberDefragStatus}
use etcd_operator.Defrag.World.{MemberBackend, Env, World}
use etcd_operator.Defrag.Rule.{defrag_rule_triggered, effective_quota_bytes}
use etcd_operator.Defrag.Plan.{first_pending_member, backend_by_name}
use etcd_operator.Defrag.Plan.Laws.{names, done, waiting, mark_member-counts, names-mark_member}
use etcd_operator.Defrag.Finish.{persist_and_requeue}
use etcd_operator.Defrag.Run.{hand_over, defragment_member, sweep, mark}
use etcd_operator.Defrag.Run.Sweep.{hand_over-status}

module _ {X : Type 0} (env : Env X) where
  -- From `w` to `v` one row has left the pending ones, the counter has moved with the rows that
  -- count, and the result is stored when the write went through.
  pub record Swept (w v : World) : Type 0 where
    pub rows : suc (waiting v.df.status.members) ≡ waiting w.df.status.members
    pub same_names : names v.df.status.members ≡ names w.df.status.members
    pub tally :
        v.df.status.defragmented + done w.df.status.members
        ≡ w.df.status.defragmented + done v.df.status.members
    pub phase : v.df.status.phase ≡ w.df.status.phase
    pub store : v.stored ≡ (if is_some env.persist_status then w.stored else v.df.status)

  backend_by_name-name :
      (bs : List (MemberBackend X)) (name : String) (b : MemberBackend X)
      → backend_by_name bs name ≡ some b
      → b.member.meta.name ≡ name
  unfolding backend_by_name
  backend_by_name-name bs name b e =
      (==_iff _ _).0 (find?-Mem (λ (x : MemberBackend X). x.member.meta.name == name) bs b e).1

  module _ (w : World) (next : MemberDefragStatus) (distinct : Nodup (names w.df.status.members))
      (first : first_pending_member w.df.status.members ≡ some next) where
    -- A row that is marked and stored with no gain.
    marked-Swept :
        (o : DefragOutcome) (reason : String) (b : Option (MemberBackend X))
        → (o ≡ DefragOutcome.failed) ⊎ (o ≡ DefragOutcome.skipped)
        → Swept w (persist_and_requeue env (mark env w next.name o reason b)).0
    unfolding persist_and_requeue
    marked-Swept o reason b h = ground (
      arith,
      mark_member-counts w.df.status.members next o reason b env.now distinct first,
      names-mark_member w.df.status.members next.name o reason b env.now,
    )

    defragment_member-Swept :
        (u : World) (b : MemberBackend X)
        → u.df ≡ w.df
        → u.stored ≡ w.stored
        → b.member.meta.name ≡ next.name
        → Swept w (defragment_member env u b).0
    unfolding defragment_member persist_and_requeue
    defragment_member-Swept u b same kept named =
        let ms = w.df.status.members in
        let size : Option ℕ = elim (env.status_after b.endpoint) [
          | none ↦ none
          | some s ↦ some s.db_size
        ] in
        let reason : String = elim size [ none ↦ "AfterSizeUnavailable" | some _ ↦ "" ] in
        let measured = record b { after = size } in
        let failed = DefragOutcome.failed in
        let defragmented = DefragOutcome.defragmented in
        elim (Option-cases (env.defragment b.endpoint)) [
          | inr (e, r) ↦ ground (
            arith,
            mark_member-counts ms next failed "RPCError" (some b) env.now distinct first,
            names-mark_member ms next.name failed "RPCError" (some b) env.now,
          )
          | inl r ↦ ground (
            arith,
            mark_member-counts ms next defragmented reason (some measured) env.now distinct first,
            names-mark_member ms next.name defragmented reason (some measured) env.now,
          )
        ]

    -- Each sweep settles the first pending member.
    pub sweep-Swept :
        (c : EtcdCluster X) (bs : List (MemberBackend X)) → Swept w (sweep env w c bs next).0
    unfolding sweep
    sweep-Swept c bs = elim (Option-cases (backend_by_name bs next.name)) [
      | inl e ↦ ground (arith, marked-Swept DefragOutcome.failed "MemberGone" none (inl refl))
      | inr (b, e) ↦
          let named = backend_by_name-name bs next.name b e in
          elim (Option-cases b.status) [
            | inl f ↦ ground (arith, marked-Swept DefragOutcome.failed "MemberGone" none (inl refl))
            | inr (s, f) ↦
                elim (Bool-cases (
                  defrag_rule_triggered env.over_share w.df.spec.rule s.db_size s.db_size_in_use
                    (effective_quota_bytes c))) [
                      | inl t ↦ ground (
                        arith,
                        hand_over-status env w b bs,
                        defragment_member-Swept (hand_over env w b bs) b,
                      )
                      | inr t ↦ ground (
                        arith,
                        marked-Swept DefragOutcome.skipped "BelowThreshold" (some b) (inr refl),
                      )
                    ]
          ]
    ]
