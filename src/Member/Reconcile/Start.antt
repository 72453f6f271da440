-- ===== src/Member/Reconcile/Start.antt =====
-- When Reconcile of controllers/etcdmember_controller.go starts etcd, and on which data.
use etcd_operator.Prelude.{
  String, Bool, true, false, ◌&&◌, not, List, [], ◌∷◌, ◌++◌, none, some, ◌≡◌, refl, ◌⊎◌, inl, inr,
  ◌==◌, string_eq, any, arith, Bool-cases, Option-cases, if◌then◌else◌, sym, ap, ◌∙◌,
}
use etcd_operator.Api.Meta.{ApiError, ok, err, Answer-cases}
use etcd_operator.Api.Cluster.{StorageMedium}
use etcd_operator.Api.Member.{EtcdMember}
use etcd_operator.Cluster.Target.{storage_medium_eq}
use etcd_operator.Member.Removal.{member_finalizer, handle_deletion}
use etcd_operator.Member.Pods.{owned_by}
use etcd_operator.Member.Health.{with_status, update_status}
use etcd_operator.Member.Storage.{ensure_pvc}
use etcd_operator.Member.Reconcile.Quiet.{
  any-append, leaving, any-leaving, any-reconcile_role_label, claimed, any-claimed, any-park,
  any-replace_pod,
}
use etcd_operator.Member.Reconcile.{
  Call, Env, memory_member_pod_lost, terminal_pod, pod_refusal, create_missing_pod, ensure_pod,
  bring_up, run, guard_memory, serve, with_finalizer, reconcile_member, reconcile,
}

abbrev pub makes_pod : {X : Type 0} → Call X → Bool
makes_pod (Call.create_pod t) = true
makes_pod _ = false

-- Whether a pass asks for a new Pod.
abbrev pub starts : {X : Type 0} → List (Call X) → Bool
starts calls = any makes_pod calls

-- What must hold before etcd is started for `m`.
pub record MayStart {X : Type 0} (env : Env X) (m : EtcdMember X) : Type 0 where
  pub wired : (m.spec.initial_cluster == "") ≡ false
  pub awake : m.spec.dormant ≡ false
  -- A member in memory that had a Pod still has that one.
  pub holds_data :
      ((m.spec.storage.medium == StorageMedium.memory && not (m.status.pod_uid == "")) ≡ false)
      ⊎ (memory_member_pod_lost env m ≡ ok false)
  pub claim : String
  pub backed : (ensure_pvc m env.storage).1 ≡ ok claim
  pub free : env.ensured_pod ≡ err ApiError.not_found
  pub ready : pod_refusal env (with_status m (record (m.status) { pvc_name = claim })) ≡ none

abbrev same_text : String → String → Bool
same_text s t = s == t

finalizer_itself : same_text member_finalizer member_finalizer ≡ true
unfolding string_eq
finalizer_itself = refl

module _ {X : Type 0} (env : Env X) (m : EtcdMember X) where
  create-refusal : starts (create_missing_pod env m).0 ≡ true → pod_refusal env m ≡ none
  unfolding create_missing_pod
  create-refusal h = elim (Option-cases (pod_refusal env m)) [
    | inl fine ↦ fine
    | inr (e, refused) ↦ ground arith
  ]

  ensure-starts :
      starts (ensure_pod env m).0 ≡ true
      → (env.ensured_pod ≡ err ApiError.not_found) × (pod_refusal env m ≡ none)
  unfolding ensure_pod
  ensure-starts h = elim (Answer-cases env.ensured_pod) [
    | inr (ApiError.not_found, e) ↦ (e, create-refusal (ground arith))
    | inr (ApiError.conflict, e) ↦ ground arith
    | inr (ApiError.other t, e) ↦ ground arith
    | inl (p, got) ↦ elim (Bool-cases (owned_by p.owners m)) [
      | inl ours ↦ ground (arith, any-reconcile_role_label makes_pod env m (λ b. refl) p)
      | inr foreign ↦ ground arith
    ]
  ]

module _ {X : Type 0} (env : Env X) (m : EtcdMember X) where
  abbrev holding : String → EtcdMember X
  holding name = with_status m (record (m.status) { pvc_name = name })

  abbrev last_call : Bool → List (Call X)
  last_call deleted = if deleted then Call.delete_member ∷ [] else []

  last-quiet : (b : Bool) → starts (last_call b) ≡ false
  last-quiet true = refl
  last-quiet false = refl

  bring_up-failed :
      (e : ApiError)
      → (ensure_pvc m env.storage).1 ≡ err e
      → starts (bring_up env m).calls ≡ starts (claimed env m)
  unfolding bring_up
  bring_up-failed e failed =
      let q : (bring_up env m).calls ≡ claimed env m = ground arith in ap starts q

  bring_up-pod :
      (name : String)
      → (ensure_pvc m env.storage).1 ≡ ok name
      → starts (bring_up env m).calls ≡ starts (ensure_pod env (holding name)).0
  unfolding bring_up
  bring_up-pod name backed =
      let pod = ensure_pod env (holding name) in
      let split = any-append makes_pod (claimed env m) in
      elim (Answer-cases pod.1) [
        | inr (e, failed) ↦
            let q : (bring_up env m).calls ≡ claimed env m ++ pod.0 = ground arith in
            ap starts q ∙ ground (arith, split pod.0, any-claimed makes_pod env m (λ c. refl))
        | inl ((pod_name, pod_uid), fine) ↦
            let up =
              with_status (holding name)
                (record ((holding name).status) { pod_name = pod_name; pod_uid = pod_uid }) in
            let r = update_status env.health m up in
            let last = last_call r.deleted in
            let q : (bring_up env m).calls ≡ claimed env m ++ (pod.0 ++ last) = ground arith in
            ap starts q
            ∙ ground (
              arith,
              split (pod.0 ++ last),
              any-claimed makes_pod env m (λ c. refl),
              any-append makes_pod pod.0 last,
              last-quiet r.deleted,
            )
      ]

  bring_up-starts :
      starts (bring_up env m).calls ≡ true
      → (name : String) × ((ensure_pvc m env.storage).1 ≡ ok name)
        × (env.ensured_pod ≡ err ApiError.not_found)
        × (pod_refusal env (holding name) ≡ none)
  bring_up-starts h = elim (Answer-cases (ensure_pvc m env.storage).1) [
    | inr (e, failed) ↦ never e failed
    | inl (name, backed) ↦
        let made = ensure-starts env (holding name) (sym (bring_up-pod name backed) ∙ h) in
        (name, backed, made.0, made.1)
  ]
    where
      never : {A : Type 0} (e : ApiError) → (ensure_pvc m env.storage).1 ≡ err e → A
      never e failed =
          let q : starts (bring_up env m).calls ≡ starts (claimed env m) =
            bring_up-failed e failed in
          ground (arith, q, any-claimed makes_pod env m (λ c. refl))

  run-starts : starts (run env m).calls ≡ true → starts (bring_up env m).calls ≡ true
  unfolding run
  run-starts h = elim (Answer-cases (terminal_pod env m)) [
    | inr (e, failed) ↦ ground arith
    | inl (none, fine) ↦ ground arith
    | inl (some p, ended) ↦ ground (arith, any-replace_pod makes_pod env m refl p)
  ]

  guard-starts :
      starts (guard_memory env m).calls ≡ true
      → (starts (run env m).calls ≡ true)
        × (((m.spec.storage.medium == StorageMedium.memory && not (m.status.pod_uid == "")) ≡ false)
            ⊎ (memory_member_pod_lost env m ≡ ok false))
  unfolding guard_memory
  guard-starts h =
      elim (Bool-cases
        (m.spec.storage.medium == StorageMedium.memory && not (m.status.pod_uid == ""))) [
          | inr disk ↦ (ground arith, inl disk)
          | inl memory ↦ elim (Answer-cases (memory_member_pod_lost env m)) [
            | inr (e, failed) ↦ ground arith
            | inl (true, lost) ↦ ground arith
            | inl (false, kept) ↦ (ground arith, inr kept)
          ]
        ]

  serve-MayStart : starts (serve env m).calls ≡ true → MayStart env m
  unfolding serve
  serve-MayStart h = elim (Bool-cases (m.spec.initial_cluster == "")) [
    | inl bare ↦ ground arith
    | inr wired ↦ elim (Bool-cases m.spec.dormant) [
      | inl parked ↦ ground (arith, any-park makes_pod env m refl)
      | inr awake ↦
          let memory = guard-starts (ground arith) in
          let up = bring_up-starts (run-starts memory.0) in
          record {
            wired = wired;
            awake = awake;
            holds_data = memory.1;
            claim = up.0;
            backed = up.1;
            free = up.2;
            ready = up.3;
          }
    ]
  ]

  pub with_finalizer-lives :
      m.meta.deletion_timestamp ≡ none → (with_finalizer env m).meta.deletion_timestamp ≡ none
  unfolding with_finalizer
  with_finalizer-lives lives = lives

  finalizer-added : any (λ f. f == member_finalizer) (with_finalizer env m).meta.finalizers ≡ true
  unfolding with_finalizer
  finalizer-added =
      any-append (λ f. f == member_finalizer) m.meta.finalizers (member_finalizer ∷ [])
      ∙ ground (arith, finalizer_itself)

-- The member is the one that the API server holds, or it is that one with the finalizer that the
-- pass has just added.
abbrev pub IsStored : {X : Type 0} → Env X → EtcdMember X → Type 0
IsStored env m =
    (env.get ≡ ok m)
    ⊎ ((held : EtcdMember _) × (env.get ≡ ok held)
        × (any (λ f. f == member_finalizer) held.meta.finalizers ≡ false)
        × (env.update ≡ none)
        × (m ≡ with_finalizer env held))

pub reconcile-MayStart :
    {X : Type 0} (env : Env X)
    → starts (reconcile env).calls ≡ true
    → (m : EtcdMember X) × IsStored env m
      × (m.meta.deletion_timestamp ≡ none)
      × (any (λ f. f == member_finalizer) m.meta.finalizers ≡ true)
      × MayStart env m
unfolding reconcile reconcile_member
reconcile-MayStart {X} env h = elim (Answer-cases env.get) [
  | inr (ApiError.not_found, e) ↦ ground arith
  | inr (ApiError.conflict, e) ↦ ground arith
  | inr (ApiError.other t, e) ↦ ground arith
  | inl (m, got) ↦ elim (Option-cases m.meta.deletion_timestamp) [
    | inr (t, dying) ↦
        let r = handle_deletion env.removal m in
        let quiet = any-leaving {X = X} makes_pod (λ i. refl) refl r.removed r.asked in
        let q : (reconcile env).calls ≡ leaving r.removed r.asked = ground arith in
        absurd (ground (arith, quiet, q))
    | inl lives ↦ elim (Bool-cases (any (λ f. f == member_finalizer) m.meta.finalizers)) [
      | inl had ↦ (m, inl got, lives, had, serve-MayStart env m (ground arith))
      | inr lacked ↦ elim (Option-cases env.update) [
        | inr (e, failed) ↦ ground arith
        | inl added ↦ (
          with_finalizer env m,
          inr (m, got, lacked, added, refl),
          with_finalizer-lives env m lives,
          finalizer-added env m,
          serve-MayStart env (with_finalizer env m) (ground arith),
        )
      ]
    ]
  ]
]
