-- ===== src/Defrag/Run/Invariant.antt =====
-- The counter of a run counts the rows that its work list marks as defragmented.
use mathlib.Core.List.{Nodup, Sublist, nil-sublist}
use mathlib.Core.List.Perm
use mathlib.Core.List.Nodup
use mathlib.Core.List.Sublist
use etcd_operator.Prelude.{
  String, Bool, true, List, [], ◌∷◌, some, ◌≡◌, refl, inl, inr, arith, sym, ap, subst, Option-cases,
  Bool-cases, map, select, All, ◌∙◌, is_some,
}
use etcd_operator.Api.Meta.{ok}
use etcd_operator.Api.Cluster.{EtcdCluster}
use etcd_operator.Api.Member.{EtcdMember}
use etcd_operator.Api.Defrag.{EtcdDefrag, DefragStatus, MemberDefragStatus}
use etcd_operator.Members.{filter_running_members}
use etcd_operator.Defrag.World.{MemberBackend, Env, World, start}
use etcd_operator.Defrag.Plan.{is_pending, first_pending_member, planned_members}
use etcd_operator.Defrag.Plan.Laws.{names, backend_names, done, planned_members-IsPlan}
use etcd_operator.Defrag.Finish.{set_defrag_condition}
use etcd_operator.Defrag.Finish.Frame.{SameSweep, finalize-Framed}
use etcd_operator.Defrag.Run.{
  probe, dial_and_probe, start_running, work, reconcile, planned_of, with_plan,
}
use etcd_operator.Defrag.Run.Outer.{Holds, Framed-Holds, reconcile-Holds}
use etcd_operator.Defrag.Run.Count.{Swept, sweep-Swept}

abbrev pub member_names : {X : Type 0} → List (EtcdMember X) → List String
member_names = map (λ m. m.meta.name)

map-select-sublist {ℓ κ} :
    {A : Type ℓ} {B : Type κ} (f : A → B) (p : A → Bool) (xs : List A)
    → Sublist (map f (select p xs)) (map f xs)
map-select-sublist f p [] = nil-sublist []
map-select-sublist f p (x ∷ xs) = elim (Bool-cases (p x)) [
  | inl e ↦ rw e (Sublist.cons-cons (f x) (map-select-sublist f p xs))
  | inr e ↦ rw e (Sublist.cons (f x) (map-select-sublist f p xs))
]

running-Nodup :
    {X : Type 0} (ms : List (EtcdMember X))
    → Nodup (member_names ms)
    → Nodup (member_names (filter_running_members ms))
unfolding filter_running_members
running-Nodup ms d = Nodup.sublist (map-select-sublist _ _ ms) d

done-pending : (ms : List MemberDefragStatus) → All (λ m. is_pending m ≡ true) ms → done ms ≡ 0
done-pending [] h = refl
done-pending (m ∷ ms) h = ground (arith, done-pending ms h.1)

-- The counter is the number of rows marked as defragmented, and no two rows have one name.
pub record IsCounted (s : DefragStatus) : Type 0 where
  pub counted : s.defragmented ≡ done s.members
  pub distinct : Nodup (names s.members)

IsCounted-same : (s t : DefragStatus) → SameSweep s t → IsCounted s → IsCounted t
IsCounted-same s t h c = record { counted = ground arith; distinct = rw (h.members) c.distinct }

module _ {X : Type 0} where
  pub with_plan-IsCounted :
      (w : World) (bs : List (MemberBackend X)) (ms : List MemberDefragStatus)
      → w.df.status.members ≡ ms
      → Nodup (backend_names bs)
      → IsCounted w.df.status
      → (w.df.status.defragmented ≡ done (planned_of ms bs)) × Nodup (names (planned_of ms bs))
  with_plan-IsCounted w bs [] e d c =
      let plan = planned_members-IsPlan bs in
      (
        c.counted ∙ ap done e ∙ sym (done-pending (planned_members bs) plan.pending),
        Perm.nodup (Perm.symm plan.complete) d,
      )
  with_plan-IsCounted w bs (m ∷ ms) e d c =
      (c.counted ∙ ap done e, subst (λ l. Nodup (names l)) e c.distinct)

  module _ (env : Env X) where
    probed-names :
        (c : EtcdCluster X) (ms : List (EtcdMember X))
        → backend_names (map (probe env c) ms) ≡ member_names ms
    unfolding probe
    probed-names c [] = refl
    probed-names c (m ∷ ms) = ap (◌∷◌ m.meta.name) (probed-names c ms)

    pub dial_and_probe-Nodup :
        (c : EtcdCluster X) (ms : List (EtcdMember X)) (bs : List (MemberBackend X))
        → Nodup (member_names ms)
        → dial_and_probe env c (filter_running_members ms) ≡ some bs
        → Nodup (backend_names bs)
    unfolding dial_and_probe
    dial_and_probe-Nodup c ms bs d h =
        let run = filter_running_members ms in
        let e : map (probe env c) run ≡ bs = ground arith in
        subst (λ l. Nodup (backend_names l)) e (rw (probed-names c run) (running-Nodup ms d))

    start_running-SameSweep :
        (w : World)
        → ((start_running env w).df.status.members ≡ w.df.status.members)
          × ((start_running env w).df.status.defragmented ≡ w.df.status.defragmented)
          × ((start_running env w).stored ≡ w.stored)
    unfolding start_running set_defrag_condition
    start_running-SameSweep w = (refl, refl, refl)

    Swept-IsCounted :
        (w v : World)
        → Swept env w v
        → IsCounted w.df.status
        → IsCounted w.stored
        → IsCounted v.df.status × IsCounted v.stored
    Swept-IsCounted w v s c k =
        let now : IsCounted v.df.status = record {
          counted = omega (arith, s.tally, c.counted);
          distinct = rw (s.same_names) c.distinct;
        } in
        (
          now,
          elim (Bool-cases (is_some env.persist_status)) [
            | inl e ↦ let q : v.stored ≡ w.stored = ground arith in subst IsCounted (sym q) k
            | inr e ↦ let q : v.stored ≡ v.df.status = ground arith in subst IsCounted (sym q) now
          ],
        )

    work-IsCounted :
        (w : World) (c : EtcdCluster X) (bs : List (MemberBackend X))
        → Nodup (backend_names bs)
        → IsCounted w.df.status
        → IsCounted w.stored
        → Holds env IsCounted IsCounted-same (work env w c bs).0
    unfolding work start_running set_defrag_condition
    work-IsCounted w c bs d h k =
        let w1 = with_plan w bs in
        let plan = with_plan-IsCounted w bs w.df.status.members refl d h in
        let h1 : IsCounted w1.df.status = record { counted = plan.0; distinct = plan.1 } in
        elim (Option-cases (first_pending_member (planned_of w.df.status.members bs))) [
          | inl e ↦
              rw (e, work)
                (Framed-Holds env IsCounted IsCounted-same w1 _ (finalize-Framed env w1) (h1, k))
          | inr (next, e) ↦
              let r = start_running env w1 in
              rw (e, work)
                (Swept-IsCounted r _ (sweep-Swept env r next plan.1 e c bs)
                  (record { counted = plan.0; distinct = plan.1 }) k)
        ]

    -- Every pass keeps the counter equal to the number of rows marked as defragmented and the rows'
    -- names distinct, in the status that the API server holds, when the API server lists no two
    -- members of one name.
    pub reconcile-IsCounted :
        (df : EtcdDefrag)
        → ((ms : List (EtcdMember X)) → env.list_members ≡ ok ms → Nodup (member_names ms))
        → IsCounted df.status
        → IsCounted (reconcile env (start df)).0.stored
    reconcile-IsCounted df distinct h =
        (reconcile-Holds env IsCounted IsCounted-same df h (λ c ms bs seen probed.
          work-IsCounted (start df) c bs (dial_and_probe-Nodup c ms bs (distinct ms seen) probed) h
            h)).1
