-- ===== src/Cluster/Reconcile/Justified.antt =====
-- Every pass of Reconcile of controllers/etcdcluster_controller.go follows a script.
use etcd_operator.Prelude.{
  Bool, true, ◌&&◌, not, List, [], none, some, ◌≡◌, ◌⊎◌, inl, inr, nat_eq, string_eq, is_some,
  arith, subst, sym, ap, ◌∙◌, Bool-cases, Option-cases,
}
use etcd_operator.Api.Meta.{ApiError, ok, Answer-cases}
use etcd_operator.Api.Cluster.{EtcdCluster, ObservedClusterSpec}
use etcd_operator.Api.Member.{EtcdMember}
use etcd_operator.Members.{filter_running_members}
use etcd_operator.Cluster.Calls.{Call}
use etcd_operator.Cluster.Latch.{
  latch, write_and_requeue, park, parked, handle_deadline_exceeded, init_status, retarget,
}
use etcd_operator.Cluster.Reconcile.Script.{Script}
use etcd_operator.Cluster.Reconcile.Scale.{scale-Script}
use etcd_operator.Cluster.Reconcile.{
  Env, scale, driven, drive, reconcile_cluster, reconcile, has_cert_manager_tls,
}

-- What a pass acts on: a cluster that is not being deleted, with its target, and its members.
pub record IsDriven {X : Type 0} (env : Env X) (calls : List (Call X)) : Type 0 where
  pub cluster : EtcdCluster X
  pub got : env.get ≡ ok cluster
  pub lives : cluster.meta.deletion_timestamp ≡ none
  pub target : ObservedClusterSpec X
  pub seen : cluster.status.observed ≡ some target
  pub members : List (EtcdMember X)
  pub list : env.list ≡ ok members
  pub script : Script env.bootstrap env.scale_up cluster target members calls

module _ {X : Type 0} (env : Env X) where
  write-ends : (c d : EtcdCluster X) → is_some (write_and_requeue env.latch c d).1 ≡ true
  unfolding write_and_requeue
  write-ends c d = ground arith

  park-ends : (c d : EtcdCluster X) (b : Bool) → is_some (park env.latch c d b).1 ≡ true
  unfolding park
  park-ends c d b = ground arith

  deadline-ends :
      (c : EtcdCluster X) (o : ObservedClusterSpec X)
      → is_some (handle_deadline_exceeded env.latch c o).1 ≡ true
  unfolding handle_deadline_exceeded parked
  deadline-ends c o = ground (arith, write-ends c, park-ends c)

  -- A pass that goes on past the target has left the cluster alone.
  latch-goes_on :
      (c : EtcdCluster X) (running : List (EtcdMember X))
      → (latch env.latch c running).1 ≡ none
      → (latch env.latch c running).0 ≡ c
  unfolding latch
  latch-goes_on c running goes = elim (Option-cases c.status.observed) [
    | inl unseen ↦ ground (arith, write-ends c (init_status env.latch c))
    | inr (o, seen) ↦ ground (
      arith,
      write-ends c (init_status env.latch c),
      deadline-ends c o,
      write-ends c
          (retarget env.latch "SpecChanged" "adopting new spec after previous target reached" c),
    )
  ]

  drive-calls :
      (c : EtcdCluster X) (listed : List (EtcdMember X))
      → ((drive env c listed).calls ≡ [])
        ⊎ ((drive env c listed).calls ≡ (driven env c listed).calls)
  unfolding drive
  drive-calls c listed =
      let step = latch env.latch c (filter_running_members listed) in
      elim (Option-cases step.1) [
        | inr (answer, ends) ↦ inl (ground arith)
        | inl goes ↦
            let q : (drive env c listed).calls ≡ (driven env step.0 listed).calls = ground arith in
            inr (
              q
              ∙ ap (λ d. (driven env d listed).calls)
                  (latch-goes_on c (filter_running_members listed) goes))
      ]

  drive-Script :
      (c : EtcdCluster X) (listed : List (EtcdMember X))
      → ((drive env c listed).calls ≡ [])
        ⊎ ((o : ObservedClusterSpec X) × (c.status.observed ≡ some o)
            × Script env.bootstrap env.scale_up c o listed (drive env c listed).calls)
  unfolding driven
  drive-Script c listed = elim (drive-calls c listed) [
    | inl idle ↦ inl idle
    | inr same ↦ elim (Option-cases c.status.observed) [
      | inl unseen ↦ inl (same ∙ ground arith)
      | inr (o, seen) ↦
          let q : (driven env c listed).calls ≡ (scale env c o listed).calls = ground arith in
          inr (
            o,
            seen,
            subst (Script env.bootstrap env.scale_up c o listed) (sym (same ∙ q))
                (scale-Script env c o listed seen),
          )
    ]
  ]

-- Every pass asks for nothing about members, or it acts on a cluster that is not being deleted,
-- toward its latched target, and by one script: it makes or completes the first member; it wakes a
-- parked one; it completes a half made one, adding it to etcd exactly when etcd's list lacks its peer
-- URL; with room for another it promotes the first learner or, with none and all members ready,
-- makes a member; at the wanted number it sets the votes that etcd's list changes and promotes the
-- first learner; or it removes or pauses the newest member. Once the cluster has an ID, no script
-- but the empty one runs while a member is being deleted.
pub reconcile-IsDriven :
    {X : Type 0} (env : Env X) → ((reconcile env).calls ≡ []) ⊎ IsDriven env (reconcile env).calls
unfolding reconcile reconcile_cluster
reconcile-IsDriven env = elim (Answer-cases env.get) [
  | inr (ApiError.not_found, gone) ↦ inl (ground arith)
  | inr (ApiError.conflict, failed) ↦ inl (ground arith)
  | inr (ApiError.other t, failed) ↦ inl (ground arith)
  | inl (c, got) ↦
      let head : (reconcile env).calls ≡ (reconcile_cluster env c).calls = ground arith in
      elim (Option-cases c.meta.deletion_timestamp) [
        | inr (t, dying) ↦ inl (ground arith)
        | inl lives ↦ elim (Bool-cases (not env.cert_manager_available && has_cert_manager_tls c)) [
          | inl missing ↦ inl (ground arith)
          | inr fine ↦ elim (Option-cases env.ensure_services) [
            | inr (e, failed) ↦ inl (ground arith)
            | inl served ↦ elim (Option-cases env.reconcile_certificates) [
              | inr (e, failed) ↦ inl (ground arith)
              | inl certified ↦ elim (Answer-cases env.list) [
                | inr (e, failed) ↦ inl (ground arith)
                | inl (members, list) ↦
                    let q : (reconcile env).calls ≡ (drive env c members).calls = ground arith in
                    elim (drive-Script env c members) [
                      | inl idle ↦ inl (q ∙ idle)
                      | inr (o, seen, script) ↦ inr (record {
                        cluster = c;
                        got = got;
                        lives = lives;
                        target = o;
                        seen = seen;
                        members = members;
                        list = list;
                        script =
                            subst (Script env.bootstrap env.scale_up c o members) (sym q) script;
                      })
                    ]
              ]
            ]
          ]
        ]
      ]
]
