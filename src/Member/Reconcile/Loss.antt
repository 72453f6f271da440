-- ===== src/Member/Reconcile/Loss.antt =====
-- When Reconcile of controllers/etcdmember_controller.go deletes the member that it is about.
use etcd_operator.Prelude.{
  String, Bool, true, false, ◌&&◌, not, List, [], ◌∷◌, ◌++◌, none, some, ◌≡◌, refl, ◌⊎◌, inl, inr,
  ◌==◌, string_eq, any, arith, Bool-cases, Option-cases, if◌then◌else◌, ap,
}
use etcd_operator.Api.Meta.{ApiError, ok, err, Answer-cases}
use etcd_operator.Api.Cluster.{EtcdCluster, StorageMedium}
use etcd_operator.Api.Member.{EtcdMember}
use etcd_operator.Cluster.Target.{storage_medium_eq}
use etcd_operator.Member.Removal.{member_finalizer, handle_deletion}
use etcd_operator.Member.Pods.{Pod, owned_by}
use etcd_operator.Member.Health.{with_status, update_status, ready_others}
use etcd_operator.Member.Health.Heal.{IsLost, update_status-IsLost}
use etcd_operator.Member.Storage.{ensure_pvc}
use etcd_operator.Member.Reconcile.Start.{IsStored, with_finalizer-lives}
use etcd_operator.Member.Reconcile.Quiet.{
  any-append, leaving, any-leaving, any-reconcile_role_label, claimed, any-claimed, any-park,
  any-replace_pod,
}
use etcd_operator.Member.Reconcile.{
  Call, Env, memory_member_pod_lost, terminal_pod, create_missing_pod, ensure_pod, bring_up, run,
  guard_memory, serve, with_finalizer, reconcile_member, reconcile,
}

abbrev pub is_delete : {X : Type 0} → Call X → Bool
is_delete Call.delete_member = true
is_delete _ = false

-- Whether a pass asks for the deletion of its member.
abbrev pub deletes : {X : Type 0} → List (Call X) → Bool
deletes calls = any is_delete calls

-- A member in memory whose recorded Pod is not there any more.
pub record HasLostMemory {X : Type 0} (env : Env X) (m : EtcdMember X) : Type 0 where
  pub in_memory : (m.spec.storage.medium == StorageMedium.memory) ≡ true
  pub recorded : (m.status.pod_uid == "") ≡ false
  pub missing :
      (env.lost_pod ≡ err ApiError.not_found)
      ⊎ ((p : Pod) × (env.lost_pod ≡ ok p) × ((p.uid == m.status.pod_uid) ≡ false))

module _ {X : Type 0} (env : Env X) (m : EtcdMember X) where
  missing-quiet : deletes (create_missing_pod env m).0 ≡ false
  unfolding create_missing_pod
  missing-quiet = ground arith

  ensure-silent : deletes (ensure_pod env m).0 ≡ false
  unfolding ensure_pod
  ensure-silent = elim (Answer-cases env.ensured_pod) [
    | inr (ApiError.not_found, e) ↦ ground (arith, missing-quiet)
    | inr (ApiError.conflict, e) ↦ ground arith
    | inr (ApiError.other t, e) ↦ ground arith
    | inl (p, got) ↦ elim (Bool-cases (owned_by p.owners m)) [
      | inl ours ↦ ground (arith, any-reconcile_role_label is_delete env m (λ b. refl) p)
      | inr foreign ↦ ground arith
    ]
  ]

module _ {X : Type 0} (env : Env X) (m : EtcdMember X) where
  abbrev last_of : Bool → List (Call X)
  last_of deleted = if deleted then Call.delete_member ∷ [] else []

  -- The member with what the status has of its claim and its Pod.
  abbrev upon : String → String → String → EtcdMember X
  upon claim pod_name pod_uid =
      let held = with_status m (record (m.status) { pvc_name = claim }) in
      with_status held (record (held.status) { pod_name = pod_name; pod_uid = pod_uid })

  upon-others :
      (claim pod_name pod_uid : String) (c : EtcdCluster X)
      → ready_others c (upon claim pod_name pod_uid) ≡ ready_others c m
  unfolding ready_others
  upon-others claim pod_name pod_uid c = refl

  upon-IsLost :
      (claim pod_name pod_uid : String)
      → IsLost env.health (upon claim pod_name pod_uid)
      → IsLost env.health m
  upon-IsLost claim pod_name pod_uid l = record {
    pod = l.pod;
    got = l.got;
    unready = l.unready;
    etcd = l.etcd;
    found = l.found;
    failing = l.failing;
    in_memory = l.in_memory;
    cluster = l.cluster;
    read = l.read;
    wanted = l.wanted;
    quorum = rw⁻¹ (upon-others claim pod_name pod_uid l.cluster) l.quorum;
  }

  bring_up-IsLost : deletes (bring_up env m).calls ≡ true → IsLost env.health m
  unfolding bring_up
  bring_up-IsLost h = elim (Answer-cases (ensure_pvc m env.storage).1) [
    | inr (e, failed) ↦
        let q : (bring_up env m).calls ≡ claimed env m = ground arith in
        absurd (ground (arith, ap deletes q, any-claimed is_delete env m (λ c. refl)))
    | inl (claim, backed) ↦
        let held = with_status m (record (m.status) { pvc_name = claim }) in
        let pod = ensure_pod env held in
        let split = any-append is_delete (claimed env m) in
        elim (Answer-cases pod.1) [
          | inr (e, failed) ↦
              let q : (bring_up env m).calls ≡ claimed env m ++ pod.0 = ground arith in
              absurd (
                ground (
                  arith,
                  ap deletes q,
                  split pod.0,
                  any-claimed is_delete env m (λ c. refl),
                  ensure-silent env held,
                ))
          | inl ((pod_name, pod_uid), fine) ↦
              let up = upon claim pod_name pod_uid in
              let r = update_status env.health m up in
              let q : (bring_up env m).calls ≡ claimed env m ++ (pod.0 ++ last_of r.deleted) =
                ground arith in
              elim (Bool-cases r.deleted) [
                | inl gone ↦
                    upon-IsLost claim pod_name pod_uid (update_status-IsLost env.health m up gone)
                | inr kept ↦ absurd (
                    ground (
                      arith,
                      ap deletes q,
                      split (pod.0 ++ last_of r.deleted),
                      any-claimed is_delete env m (λ c. refl),
                      any-append is_delete pod.0 (last_of r.deleted),
                      ensure-silent env held,
                    ))
              ]
        ]
  ]

  run-IsLost : deletes (run env m).calls ≡ true → IsLost env.health m
  unfolding run
  run-IsLost h = elim (Answer-cases (terminal_pod env m)) [
    | inr (e, failed) ↦ ground arith
    | inl (none, fine) ↦ bring_up-IsLost (ground arith)
    | inl (some p, ended) ↦ absurd (ground (arith, any-replace_pod is_delete env m refl p))
  ]

  lost-missing :
      memory_member_pod_lost env m ≡ ok true
      → (env.lost_pod ≡ err ApiError.not_found)
        ⊎ ((p : Pod) × (env.lost_pod ≡ ok p) × ((p.uid == m.status.pod_uid) ≡ false))
  unfolding memory_member_pod_lost
  lost-missing h = elim (Answer-cases env.lost_pod) [
    | inr (ApiError.not_found, e) ↦ inl e
    | inr (ApiError.conflict, e) ↦ absurd (ground arith)
    | inr (ApiError.other t, e) ↦ absurd (ground arith)
    | inl (p, got) ↦ inr (p, got, ground arith)
  ]

  guard-cases :
      deletes (guard_memory env m).calls ≡ true → HasLostMemory env m ⊎ IsLost env.health m
  unfolding guard_memory
  guard-cases h =
      elim (Bool-cases
        (m.spec.storage.medium == StorageMedium.memory && not (m.status.pod_uid == ""))) [
          | inr disk ↦ inr (run-IsLost (ground arith))
          | inl memory ↦ elim (Answer-cases (memory_member_pod_lost env m)) [
            | inr (e, failed) ↦ absurd (ground arith)
            | inl (true, lost) ↦ inl (record {
              in_memory = ground arith;
              recorded = ground arith;
              missing = lost-missing lost;
            })
            | inl (false, kept) ↦ inr (run-IsLost (ground arith))
          ]
        ]

  serve-cases :
      deletes (serve env m).calls ≡ true
      → (m.spec.dormant ≡ false) × (HasLostMemory env m ⊎ IsLost env.health m)
  unfolding serve
  serve-cases h = elim (Bool-cases (m.spec.initial_cluster == "")) [
    | inl bare ↦ absurd (ground arith)
    | inr wired ↦ elim (Bool-cases m.spec.dormant) [
      | inl parked ↦ absurd (ground (arith, any-park is_delete env m refl))
      | inr awake ↦ (awake, guard-cases (ground arith))
    ]
  ]

-- A pass deletes the member that it is about only when the stored member is not being deleted and
-- not parked, and either it is in memory and the Pod that held its data is gone or another one, or
-- its Pod is not ready, its etcd container is not ready after at least five restarts and was not
-- killed for memory, and the other ready members are more than half of those that the cluster is to
-- have.
pub reconcile-IsLost :
    {X : Type 0} (env : Env X)
    → deletes (reconcile env).calls ≡ true
    → (m : EtcdMember X) × IsStored env m
      × (m.meta.deletion_timestamp ≡ none)
      × (m.spec.dormant ≡ false)
      × (HasLostMemory env m ⊎ IsLost env.health m)
unfolding reconcile reconcile_member
reconcile-IsLost {X} env h = elim (Answer-cases env.get) [
  | inr (ApiError.not_found, e) ↦ absurd (ground arith)
  | inr (ApiError.conflict, e) ↦ absurd (ground arith)
  | inr (ApiError.other t, e) ↦ absurd (ground arith)
  | inl (m, got) ↦ elim (Option-cases m.meta.deletion_timestamp) [
    | inr (t, dying) ↦
        let r = handle_deletion env.removal m in
        let silent = any-leaving {X = X} is_delete (λ i. refl) refl r.removed r.asked in
        let q : (reconcile env).calls ≡ leaving r.removed r.asked = ground arith in
        absurd (ground (arith, silent, q))
    | inl lives ↦ elim (Bool-cases (any (λ f. f == member_finalizer) m.meta.finalizers)) [
      | inl had ↦ let why = serve-cases env m (ground arith) in (m, inl got, lives, why.0, why.1)
      | inr lacked ↦ elim (Option-cases env.update) [
        | inr (e, failed) ↦ absurd (ground arith)
        | inl added ↦
            let why = serve-cases env (with_finalizer env m) (ground arith) in
            (
              with_finalizer env m,
              inr (m, got, lacked, added, refl),
              with_finalizer-lives env m lives,
              why.0,
              why.1,
            )
      ]
    ]
  ]
]
