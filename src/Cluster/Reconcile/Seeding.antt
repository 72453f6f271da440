-- ===== src/Cluster/Reconcile/Seeding.antt =====
-- The calls of bootstrap of controllers/etcdcluster_controller.go follow a script.
use etcd_operator.Prelude.{
  true, false, List, [], ◌∷◌, ◌≡◌, ◌⊎◌, inl, inr, ◌==◌, nat_eq, string_eq, arith, subst, sym,
  Bool-cases, Option-cases,
}
use etcd_operator.Api.Meta.{Answer-cases}
use etcd_operator.Api.Cluster.{EtcdCluster, ObservedClusterSpec}
use etcd_operator.Api.Member.{EtcdMember}
use etcd_operator.Members.{filter_running_members}
use etcd_operator.Cluster.Calls.{Call, ask, refuse, wait, create_member, patch_member, stamp_voter}
use etcd_operator.Cluster.Bootstrap.{
  Env as BootstrapEnv, controls, find_seed, new_seed, wired_seed, wire, create_seed, bootstrap,
}
use etcd_operator.Cluster.Reconcile.Script.{IsPrefix, IsSeeding, voting, Script}
use etcd_operator.Cluster.ScaleUp.{Env}

module _ {X : Type 0} (c : EtcdCluster X) (o : ObservedClusterSpec X) where
  wire-calls :
      (env : BootstrapEnv X) (m : EtcdMember X)
      → ((wire env c m).0 ≡ [])
        ⊎ (((m.spec.initial_cluster == "") ≡ true)
            × ((wire env c m).0 ≡ patch_member (wired_seed c m) ∷ []))
  unfolding wire ask wait
  wire-calls env m = elim (Bool-cases (m.spec.initial_cluster == "")) [
    | inr wired ↦ inl (ground arith)
    | inl bare ↦ elim (Option-cases env.patch) [
      | inl fine ↦ inr (bare, ground arith)
      | inr (e, failed) ↦ inr (bare, ground arith)
    ]
  ]

  create_seed-IsSeeding : (env : BootstrapEnv X) → IsSeeding env c o (create_seed env c o).0
  unfolding create_seed ask
  create_seed-IsSeeding env =
      let out = (create_seed env c o).0 in
      let to = λ (calls : List (Call X)) (q : out ≡ calls). subst (IsSeeding env c o) (sym q) in
      let made_call : Call X = create_member (new_seed c o) in
      elim (Answer-cases (env.create (new_seed c o))) [
        | inr (e, failed) ↦ to (made_call ∷ []) (ground arith) IsSeeding.uncreated
        | inl (seed, made) ↦
            let stamp_call : Call X = stamp_voter seed.meta.name in
            let wired_call : Call X = patch_member (wired_seed c (voting seed)) in
            let stamped_only =
              IsSeeding.created seed made
                (IsPrefix.next stamp_call (IsPrefix.start (wired_call ∷ []))) in
            elim (Option-cases env.stamp) [
              | inr (e, failed) ↦ to (made_call ∷ stamp_call ∷ []) (ground arith) stamped_only
              | inl stamped ↦ elim (wire-calls env (voting seed)) [
                | inl wired ↦ to (made_call ∷ stamp_call ∷ []) (ground arith) stamped_only
                | inr (bare, patched) ↦
                    to (made_call ∷ stamp_call ∷ wired_call ∷ []) (ground arith) (
                      IsSeeding.created seed made
                        (IsPrefix.next stamp_call (IsPrefix.next wired_call (IsPrefix.start []))))
              ]
            ]
      ]

  -- bootstrap, on the running members.
  pub bootstrap-Script :
      (env : BootstrapEnv X) (grow : Env X) (listed : List (EtcdMember X))
      → (c.status.cluster_id == "") ≡ true
      → (o.replicas == 0) ≡ false
      → Script env grow c o listed (bootstrap env c o (filter_running_members listed)).0
  unfolding bootstrap refuse
  bootstrap-Script env grow listed unformed wanted =
      let running = filter_running_members listed in
      elim (Option-cases (find_seed running)) [
        | inl absent ↦ elim (Option-cases env.set_owner) [
          | inr (e, failed) ↦
              let q : (bootstrap env c o running).0 ≡ [] = ground arith in
              subst (Script env grow c o listed) (sym q) Script.idle
          | inl owned ↦
              let q : (bootstrap env c o running).0 ≡ (create_seed env c o).0 = ground arith in
              subst (Script env grow c o listed) (sym q)
                (Script.seeding unformed wanted absent (create_seed-IsSeeding env))
        ]
        | inr (m, found) ↦ elim (Bool-cases (controls c m)) [
          | inr foreign ↦
              let q : (bootstrap env c o running).0 ≡ [] = ground arith in
              subst (Script env grow c o listed) (sym q) Script.idle
          | inl ours ↦ elim (wire-calls env m) [
            | inl wired ↦
                let q : (bootstrap env c o running).0 ≡ [] = ground arith in
                subst (Script env grow c o listed) (sym q) Script.idle
            | inr (bare, patched) ↦
                let q : (bootstrap env c o running).0 ≡ patch_member (wired_seed c m) ∷ [] =
                  ground arith in
                subst (Script env grow c o listed) (sym q)
                  (Script.wiring m unformed found bare ours)
          ]
        ]
      ]
