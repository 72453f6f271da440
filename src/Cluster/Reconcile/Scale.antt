-- ===== src/Cluster/Reconcile/Scale.antt =====
-- The branches of Reconcile of controllers/etcdcluster_controller.go that scale follow a script.
use etcd_operator.Prelude.{
  String, Bool, ◌++◌, All, map, none, false, true, ◌&&◌, ◌||◌, not, List, [], ◌∷◌, some, ◌≡◌, refl,
  ◌⊎◌, inl, inr, ◌==◌, ◌<◌, nat_eq, string_eq, length, ltb, any, is_some, arith, subst, sym, ◌∙◌,
  Bool-cases, Option-cases,
}
use etcd_operator.Api.Meta.{ok, err}
use etcd_operator.Api.Cluster.{EtcdCluster, ObservedClusterSpec}
use etcd_operator.Api.Member.{EtcdMember}
use etcd_operator.Naming.{cluster_client_scheme}
use etcd_operator.Members.{
  is_deleting, filter_active_members, filter_running_members, find_dormant_member, member_endpoints,
}
use etcd_operator.Client.{dial}
use etcd_operator.Cluster.Calls.{Call, promote, set_voter, wait}
use etcd_operator.Cluster.Target.{all_members_ready}
use etcd_operator.Cluster.Latch.{parked}
use etcd_operator.Cluster.Voters.{
  Peer, IsVote, vote_patches, vote_patches-IsVote, try_promote_learner, try_promote_learner-first,
  promote_pending_learner,
}
use etcd_operator.Cluster.Bootstrap.{has_pending_bootstrap, bootstrap}
use etcd_operator.Cluster.Join.{has_pending_member, find_pending_member}
use etcd_operator.Cluster.ScaleUp.{scale_up}
use etcd_operator.Cluster.ScaleDown.{Shrinks, scale_down, scale_down-Shrinks}
use etcd_operator.Cluster.Auth.{reconcile_auth}
use etcd_operator.Cluster.Reconcile.Script.{IsStable, IsPromotion, pending_of, Script}
use etcd_operator.Cluster.Reconcile.Seeding.{bootstrap-Script}
use etcd_operator.Cluster.Reconcile.Growth.{HasRoom, Promotes-IsPromotion, scale_up-Script}
use etcd_operator.Cluster.Reconcile.{
  Env, promote_converged, finish, converge, form, raise, lower, scale,
}

module _ {X : Type 0} (env : Env X) (c : EtcdCluster X) (o : ObservedClusterSpec X) where
  -- The votes that etcd's list changes, and at most one promotion.
  abbrev Synced : List (EtcdMember X) → List (Call X) → Type 0
  Synced running calls =
      (peers : List Peer) × (votes : List (String × Bool)) × (asked : List (Call X))
      × (env.scale_up.voters.member_list ≡ some peers)
      × All (IsVote c peers running) votes
      × IsPromotion peers asked
      × (calls ≡ map (λ v. set_voter v.0 v.1) votes ++ asked)

  promote-calls :
      (running : List (EtcdMember X))
      → ((promote_converged env c o running).0 ≡ [])
        ⊎ Synced running (promote_converged env c o running).0
  unfolding promote_converged promote_pending_learner
  promote-calls running =
      let voters = env.scale_up.voters in
      elim (Bool-cases (not (c.status.cluster_id == "") && ltb 0 (length running))) [
        | inr parked ↦ inl (ground arith)
        | inl formed ↦
            elim (Option-cases (
              dial env.scale_up.client env.scale_up.factory c
                (member_endpoints (cluster_client_scheme c) running c.meta.namespace))) [
                  | inr (e, failed) ↦ inl (ground arith)
                  | inl dialled ↦ elim (Option-cases voters.member_list) [
                    | inl failed ↦ inl (ground arith)
                    | inr (peers, listing) ↦
                        let votes = vote_patches voters c peers running in
                        let justified = vote_patches-IsVote voters c peers running in
                        let tried = try_promote_learner voters peers in
                        let asked : List (Call X) = map promote tried.0 in
                        let q : (promote_converged env c o running).0
                            ≡ map (λ v. set_voter v.0 v.1) votes ++ asked =
                          ground arith in
                        inr (
                          peers,
                          votes,
                          asked,
                          listing,
                          justified,
                          Promotes-IsPromotion voters peers tried
                              (try_promote_learner-first voters peers),
                          q,
                        )
                  ]
                ]
      ]

  converge-calls :
      (active running : List (EtcdMember X))
      → (converge env c o active running).calls ≡ (promote_converged env c o running).0
  unfolding converge finish
  converge-calls active running =
      let promoted = promote_converged env c o running in
      let auth = reconcile_auth env.auth c promoted.2 in
      elim (Option-cases promoted.1) [
        | inr (r, more) ↦ ground arith
        | inl done ↦ elim (Option-cases auth.answer) [
          | inl on ↦ ground arith
          | inr (ok r, later) ↦ ground arith
          | inr (err e, failed) ↦ ground arith
        ]
      ]

  converge-Script :
      (listed active : List (EtcdMember X))
      → IsStable c listed
      → pending_of listed ≡ none
      → length (filter_running_members listed) ≡ o.replicas
      → Script env.bootstrap env.scale_up c o listed
          (converge env c o active (filter_running_members listed)).calls
  converge-Script listed active stable whole right =
      let running = filter_running_members listed in
      let calls = converge-calls active running in
      let to = λ (r : List (Call X)) (q : (converge env c o active running).calls ≡ r).
        subst (Script env.bootstrap env.scale_up c o listed) (sym q) in
      elim (promote-calls running) [
        | inl idle ↦ to [] (calls ∙ idle) Script.idle
        | inr (peers, votes, asked, listing, justified, promotion, q) ↦
            to (map (λ v. set_voter v.0 v.1) votes ++ asked) (calls ∙ q)
              (Script.syncing peers votes stable whole right listing justified promotion)
      ]

  form-Script :
      (listed active : List (EtcdMember X))
      → (c.status.cluster_id == "") ≡ true
      → Script env.bootstrap env.scale_up c o listed
          (form env c o active (filter_running_members listed)).calls
  unfolding form finish
  form-Script listed active unformed =
      let running = filter_running_members listed in
      let out = (form env c o active running).calls in
      elim (Bool-cases (o.replicas == 0)) [
        | inl paused ↦
            let q : out ≡ [] = ground arith in
            subst (Script env.bootstrap env.scale_up c o listed) (sym q) Script.idle
        | inr wanted ↦ elim (Bool-cases (length running == 0 || has_pending_bootstrap running)) [
          | inl first ↦
              let q : out ≡ (bootstrap env.bootstrap c o running).0 = ground arith in
              subst (Script env.bootstrap env.scale_up c o listed) (sym q)
                (bootstrap-Script c o env.bootstrap env.scale_up listed unformed wanted)
          | inr waiting ↦
              let q : out ≡ [] = ground arith in
              subst (Script env.bootstrap env.scale_up c o listed) (sym q) Script.idle
        ]
      ]

  raise-Script :
      (listed : List (EtcdMember X))
      → IsStable c listed
      → length (filter_running_members listed) < o.replicas
      → Script env.bootstrap env.scale_up c o listed
          (raise env c o (filter_active_members listed) (filter_running_members listed)).calls
  unfolding raise wait
  raise-Script listed stable short =
      let active = filter_active_members listed in
      let running = filter_running_members listed in
      let out = (raise env c o active running).calls in
      elim (Bool-cases (is_some (find_dormant_member active) || all_members_ready running)) [
        | inr early ↦
            let q : out ≡ [] = ground arith in
            subst (Script env.bootstrap env.scale_up c o listed) (sym q) Script.idle
        | inl go ↦
            let room : HasRoom env.scale_up c o listed = λ awake whole. (short, ground arith) in
            let q : out ≡ (scale_up env.scale_up c o active).0 = ground arith in
            subst (Script env.bootstrap env.scale_up c o listed) (sym q)
              (scale_up-Script env.bootstrap env.scale_up c o listed stable room)
      ]

  unpending :
      (running : List (EtcdMember X))
      → has_pending_member running ≡ false
      → find_pending_member running ≡ none
  unfolding has_pending_member
  unpending running h = elim (Option-cases (find_pending_member running)) [
    | inl whole ↦ whole
    | inr (m, found) ↦ ground arith
  ]

  lower-Script :
      (listed running : List (EtcdMember X))
      → filter_running_members listed ≡ running
      → c.status.observed ≡ some o
      → IsStable c listed
      → o.replicas < length running
      → Script env.bootstrap env.scale_up c o listed (lower env c o running).calls
  unfolding lower
  lower-Script listed [] same seen stable more = Script.idle
  lower-Script listed (m ∷ ms) same seen stable more =
      Script.shrinking stable (subst (λ r. o.replicas < length r) (sym same) more) (
        subst (λ r. Shrinks r (scale_down env.scale_down c m ms)) (sym same)
          (scale_down-Shrinks env.scale_down c o m ms seen more))

  pub scale-Script :
      (listed : List (EtcdMember X))
      → c.status.observed ≡ some o
      → Script env.bootstrap env.scale_up c o listed (scale env c o listed).calls
  unfolding scale has_pending_member wait
  scale-Script listed seen =
      let active = filter_active_members listed in
      let running = filter_running_members listed in
      let out = (scale env c o listed).calls in
      let to = λ (calls : List (Call X)) (q : out ≡ calls).
        subst (Script env.bootstrap env.scale_up c o listed) (sym q) in
      elim (Bool-cases (c.status.cluster_id == "")) [
        | inl unformed ↦
            to (form env c o active running).calls (ground arith)
              (form-Script listed active unformed)
        | inr formed ↦ elim (Bool-cases (any is_deleting listed)) [
          | inl busy ↦ to [] (ground arith) Script.idle
          | inr settled ↦
              let stable : IsStable c listed = record { formed = formed; settled = settled } in
              elim (Bool-cases (has_pending_member running)) [
                | inl half ↦
                    let room : HasRoom env.scale_up c o listed = λ awake whole. ground arith in
                    to (scale_up env.scale_up c o active).0 (ground arith)
                      (scale_up-Script env.bootstrap env.scale_up c o listed stable room)
                | inr whole ↦ elim (Bool-cases (ltb (length running) o.replicas)) [
                  | inl short ↦
                      to (raise env c o active running).calls (ground arith)
                        (raise-Script listed stable (ground arith))
                  | inr enough ↦ elim (Bool-cases (ltb o.replicas (length running))) [
                    | inl more ↦
                        to (lower env c o running).calls (ground arith)
                          (lower-Script listed running refl seen stable (ground arith))
                    | inr right ↦ to (converge env c o active running).calls (ground arith) (
                        converge-Script listed active stable (unpending running whole)
                          (ground arith))
                  ]
                ]
              ]
        ]
      ]
