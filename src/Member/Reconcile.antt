-- ===== src/Member/Reconcile.antt =====
-- Reconcile of controllers/etcdmember_controller.go, with memoryMemberPodLost, terminalPod,
-- ensurePod, checkTLSSecretsAvailable, reconcileRoleLabel and ensurePodAbsent.
pub mod Quiet
pub mod Start
pub mod Loss
use etcd_operator.Prelude.{
  ℕ, String, ◌<>◌, Bool, true, false, ◌&&◌, ◌||◌, not, List, [], ◌∷◌, ◌++◌, map, Option, none, some,
  ◌==◌, string_eq, bool_eq, if◌then◌else◌, any, is_some, ◌*◌,
}
use etcd_operator.Prelude.Text.{quote}
use etcd_operator.Api.Meta.{
  status_false, Result, no_requeue, after, second, Labels, ApiError, Answer, ok, err,
}
use etcd_operator.Api.Cluster.{EtcdCluster, StorageMedium}
use etcd_operator.Api.Member.{EtcdMember}
use etcd_operator.Naming.{value_at}
use etcd_operator.Cluster.Pdb.{label_role, role_voter}
use etcd_operator.Cluster.Target.{storage_medium_eq}
use etcd_operator.Member.Removal.{Env as RemovalEnv, member_finalizer, handle_deletion}
use etcd_operator.Member.Pods.{Pod, owned_by, pod_in_terminal_phase, terminal_pod_message}
use etcd_operator.Member.Health.{
  Env as HealthEnv, Draft, with_status, set_member_condition, update_status,
}
use etcd_operator.Member.Storage.{Env as StorageEnv, Claim, ensure_pvc}
use etcd_operator.Member.Template.{Template, build_pod}

-- What a pass asks of the API server, but for the writes of the status.
pub data Call (X : Type 0) : Type 0 where
  add_finalizer drop_finalizer delete_pod delete_member : Call X
  remove_from_etcd : ℕ → Call X
  create_claim : Claim → Call X
  create_pod : Template X → Call X
  label_pod : Bool → Call X

-- The answers. The Pod is read anew by each part that asks for it; `get_secret` says what is wrong
-- with a Secret, if anything.
pub record Env (X : Type 0) : Type 0 where
  pub get : Answer (EtcdMember X)
  pub removal : RemovalEnv X
  pub update : Option ApiError
  pub absent_pod : Answer Pod
  pub lost_pod : Answer Pod
  pub terminal_pod : Answer Pod
  pub ensured_pod : Answer Pod
  pub delete_pod : Option ApiError
  pub delete_member : Option ApiError
  pub update_status : Option ApiError
  pub storage : StorageEnv
  pub get_secret : String → Option ApiError
  pub operator_image : String
  pub image_repository : String
  pub get_cluster : Answer (EtcdCluster X)
  pub set_owner : Option ApiError
  pub create_pod : Option ApiError
  pub patch_pod : Option ApiError
  pub created_uid : String
  pub health : HealthEnv X

-- The requests, in order, the member as the API server holds it at the end, and the answer.
pub record Pass (X : Type 0) : Type 0 where
  pub calls : List (Call X)
  pub stored : Option (EtcdMember X)
  pub answer : Answer Result

-- errors.IsNotFound counts as deleted.
unfoldable pub gone : Option ApiError → Option ApiError
gone none = none
gone (some ApiError.not_found) = none
gone (some ApiError.conflict) = some ApiError.conflict
gone (some (ApiError.other e)) = some (ApiError.other e)

module _ {X : Type 0} (env : Env X) (m : EtcdMember X) where
  -- Whether the Pod that held the data is gone.
  unfoldable pub memory_member_pod_lost : Answer Bool
  memory_member_pod_lost = elim env.lost_pod [
    | err ApiError.not_found ↦ ok true
    | err ApiError.conflict ↦ err ApiError.conflict
    | err (ApiError.other e) ↦ err (ApiError.other e)
    | ok p ↦ ok (not (p.uid == m.status.pod_uid))
  ]

  unfoldable pub terminal_pod : Answer (Option Pod)
  unfolding owned_by pod_in_terminal_phase
  terminal_pod = elim env.terminal_pod [
    | err ApiError.not_found ↦ ok none
    | err ApiError.conflict ↦ err ApiError.conflict
    | err (ApiError.other e) ↦ err (ApiError.other e)
    | ok p ↦
        if not (owned_by p.owners m)
          || is_some p.deletion_timestamp
          || not (pod_in_terminal_phase p)
        then ok none
        else ok (some p)
  ]

  -- The first Secret that is missing.
  unfoldable pub check_tls_secrets_available : Option ApiError
  check_tls_secrets_available = elim m.spec.tls [
    | none ↦ none
    | some t ↦
        let peer : Option ApiError = elim t.peer_secret_ref [
          | none ↦ none
          | some s ↦ env.get_secret s
        ] in
        elim t.client_server_secret_ref [
          | none ↦ peer
          | some s ↦ elim (env.get_secret s) [ some e ↦ some e | none ↦ peer ]
        ]
  ]

  -- The voter label follows the member's status.
  unfoldable pub reconcile_role_label : Pod → List (Call X) × Option ApiError
  reconcile_role_label p =
      if (value_at label_role p.labels == role_voter) == m.status.is_voter
      then ([], none)
      else (label_pod m.status.is_voter ∷ [], env.patch_pod)

  -- `none` when the Pod must wait.
  unfoldable pub pod_refusal : Option ApiError
  unfolding check_tls_secrets_available
  pod_refusal = elim check_tls_secrets_available [
    | some e ↦ some e
    | none ↦
        if is_some m.spec.restore && env.operator_image == ""
        then some (
            ApiError.other (
              "member "
              <> (quote m.meta.name
                  <> " requests a restore but the operator image is not configured")))
        else none
  ]

  -- A cluster that cannot be read counts as not formed.
  unfoldable pub cluster_formed : Bool
  cluster_formed = elim env.get_cluster [ err _ ↦ false | ok c ↦ not (c.status.cluster_id == "") ]

  unfoldable pub create_missing_pod : List (Call X) × Answer (String × String)
  unfolding pod_refusal cluster_formed build_pod
  create_missing_pod =
      let pod = build_pod m env.image_repository cluster_formed in
      elim pod_refusal [
        | some e ↦ ([], err e)
        | none ↦ elim env.set_owner [
          | some e ↦ ([], err e)
          | none ↦ elim env.create_pod [
            | some e ↦ (create_pod pod ∷ [], err e)
            | none ↦ (create_pod pod ∷ [], ok (m.meta.name, env.created_uid))
          ]
        ]
      ]

  -- The Pod's name and UID for the status.
  unfoldable pub ensure_pod : List (Call X) × Answer (String × String)
  unfolding owned_by reconcile_role_label create_missing_pod
  ensure_pod = elim env.ensured_pod [
    | err ApiError.not_found ↦ create_missing_pod
    | err ApiError.conflict ↦ ([], err ApiError.conflict)
    | err (ApiError.other e) ↦ ([], err (ApiError.other e))
    | ok p ↦
        if owned_by p.owners m
        then (let r = reconcile_role_label p in
            (r.0, elim r.1 [ some e ↦ err e | none ↦ ok (p.name, p.uid) ]))
        else (
          [],
          err (
              ApiError.other (
                "Pod "
                <> (quote m.meta.name
                    <> " is owned by a different EtcdMember; awaiting GC before reuse"))),
        )
  ]

  unfoldable pub ensure_pod_absent : List (Call X) × Option ApiError
  unfolding gone
  ensure_pod_absent = elim env.absent_pod [
    | err ApiError.not_found ↦ ([], none)
    | err ApiError.conflict ↦ ([], some ApiError.conflict)
    | err (ApiError.other e) ↦ ([], some (ApiError.other e))
    | ok p ↦
        if is_some p.deletion_timestamp then ([], none) else (delete_pod ∷ [], gone env.delete_pod)
  ]

module _ {X : Type 0} (env : Env X) where
  abbrev pub ends : List (Call X) → EtcdMember X → Answer Result → Pass X
  ends calls m answer = record { calls = calls; stored = some m; answer = answer }

  -- A status that is written when it differs, and the answer afterwards.
  unfoldable pub settle : List (Call X) → EtcdMember X → Draft X → Result → Pass X
  settle calls m d r =
      if d.1
      then (elim env.update_status [ some e ↦ ends calls m (err e) | none ↦ ends calls d.0 (ok r) ])
      else ends calls m (ok r)

  -- A parked member keeps its claim and loses its Pod.
  unfoldable pub park : EtcdMember X → Pass X
  unfolding ensure_pod_absent set_member_condition settle
  park m =
      let r = ensure_pod_absent env m in
      elim r.1 [
        | some e ↦ ends r.0 m (err e)
        | none ↦
            let bare = with_status m (record (m.status) { pod_name = ""; pod_uid = "" }) in
            settle r.0 m
              (set_member_condition env.health.now "Ready" status_false "Paused"
                "member is paused (spec.dormant=true); pod deleted, PVC preserved"
                (bare, not (m.status.pod_name == "")))
              (after (30 * second))
      ]

  -- The claim, the Pod, then the status.
  unfoldable pub bring_up : EtcdMember X → Pass X
  unfolding ensure_pvc ensure_pod update_status
  bring_up m =
      let claim = ensure_pvc m env.storage in
      let claimed : List (Call X) = elim claim.0 [ none ↦ [] | some c ↦ create_claim c ∷ [] ] in
      elim claim.1 [
        | err e ↦ ends claimed m (err e)
        | ok name ↦
            let held = with_status m (record (m.status) { pvc_name = name }) in
            let pod = ensure_pod env held in
            elim pod.1 [
              | err e ↦ ends (claimed ++ pod.0) m (err e)
              | ok (pod_name, pod_uid) ↦
                  let up =
                    with_status held
                      (record (held.status) { pod_name = pod_name; pod_uid = pod_uid }) in
                  let r = update_status env.health m up in
                  let last : List (Call X) = if r.deleted then delete_member ∷ [] else [] in
                  ends (claimed ++ (pod.0 ++ last)) r.stored r.answer
            ]
      ]

  -- A Pod in a terminal phase is deleted, and made again by a later pass.
  unfoldable pub replace_pod : EtcdMember X → Pod → Pass X
  unfolding set_member_condition terminal_pod_message gone
  replace_pod m p =
      let d =
        set_member_condition env.health.now "Ready" status_false "PodReplacing"
          (terminal_pod_message p) (m, false) in
      let delete : EtcdMember X → Pass X = λ held.
        ends (delete_pod ∷ []) held
          (elim (gone env.delete_pod) [ some e ↦ err e | none ↦ ok (after (2 * second)) ]) in
      if d.1
      then (elim env.update_status [ some e ↦ ends [] m (err e) | none ↦ delete d.0 ])
      else delete m

  unfoldable pub run : EtcdMember X → Pass X
  unfolding terminal_pod replace_pod bring_up
  run m = elim (terminal_pod env m) [
    | err e ↦ ends [] m (err e)
    | ok (some p) ↦ replace_pod m p
    | ok none ↦ bring_up m
  ]

  -- A member in memory dies with its Pod.
  unfoldable pub guard_memory : EtcdMember X → Pass X
  unfolding memory_member_pod_lost run
  guard_memory m =
      if m.spec.storage.medium == StorageMedium.memory && not (m.status.pod_uid == "")
      then (elim (memory_member_pod_lost env m) [
        | err e ↦ ends [] m (err e)
        | ok true ↦
            ends (delete_member ∷ []) m
              (elim env.delete_member [ some e ↦ err e | none ↦ ok no_requeue ])
        | ok false ↦ run m
      ])
      else run m

  -- Nothing runs before the cluster controller has published --initial-cluster.
  unfoldable pub serve : EtcdMember X → Pass X
  unfolding park guard_memory
  serve m =
      if m.spec.initial_cluster == ""
      then ends [] m (ok (after (2 * second)))
      else (if m.spec.dormant then park m else guard_memory m)

  unfoldable pub with_finalizer : EtcdMember X → EtcdMember X
  with_finalizer m = record m {
    meta = record (m.meta) { finalizers = m.meta.finalizers ++ (member_finalizer ∷ []) };
  }

  unfoldable pub reconcile_member : EtcdMember X → Pass X
  unfolding handle_deletion serve with_finalizer
  reconcile_member m =
      if is_some m.meta.deletion_timestamp
      then (let r = handle_deletion env.removal m in
          ends (map remove_from_etcd r.removed ++ (if r.asked then drop_finalizer ∷ [] else [])) m
            r.answer)
      else (if any (λ f. f == member_finalizer) m.meta.finalizers
          then serve m
          else (elim env.update [
            | some e ↦ ends (add_finalizer ∷ []) m (err e)
            | none ↦
                let r = serve (with_finalizer m) in
                record { calls = add_finalizer ∷ r.calls; stored = r.stored; answer = r.answer }
          ]))

  unfoldable pub reconcile : Pass X
  unfolding reconcile_member
  reconcile = elim env.get [
    | err ApiError.not_found ↦ record { calls = []; stored = none; answer = ok no_requeue }
    | err ApiError.conflict ↦ record { calls = []; stored = none; answer = err ApiError.conflict }
    | err (ApiError.other e) ↦ record { calls = []; stored = none; answer = err (ApiError.other e) }
    | ok m ↦ reconcile_member m
  ]
