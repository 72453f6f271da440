-- ===== src/Member/Removal/Release.antt =====
-- A member's finalizer goes only once etcd no longer counts the member
-- (controllers/etcdmember_controller.go).
use etcd_operator.Prelude.{
  ℕ, String, true, false, List, [], ◌∷◌, none, ◌≡◌, ◌≢◌, refl, inl, inr, ◌==◌, ◌<◌, ◌^◌, nat_eq,
  string_eq, ltb, length, any, is_some, arith, Bool-cases, Option-cases, sym, subst,
}
use etcd_operator.Prelude.Hex.{hex16, hex16-full, parse_hex-hex16}
use etcd_operator.Api.Meta.{ApiError, Answer, ok, err, Answer-cases}
use etcd_operator.Api.Cluster.{EtcdCluster}
use etcd_operator.Api.Member.{EtcdMember}
use etcd_operator.Client.{dial}
use etcd_operator.Cluster.Voters.{Peer}
use etcd_operator.Member.Removal.{
  Env, Outcome, resolve_member_id, others, peer_endpoints, ask_etcd, remove_member_from_etcd,
  release, leave, handle_deletion, member_finalizer,
}

-- Why the finalizer may go, for a member of a cluster that is there and lives.
pub data IsOut {X : Type 0} (env : Env X) (c : EtcdCluster X) (m : EtcdMember X)
    : List ℕ → Type 0 where
  -- It is the last member.
  last : (ms : List (EtcdMember X)) → env.list ≡ ok ms → others m ms ≡ [] → IsOut env c m []
  -- etcd does not have it.
  absent : resolve_member_id env.member_list m ≡ ok 0 → IsOut env c m []
  -- etcd has removed it.
  removed :
      (id : ℕ)
      → id ≢ 0
      → resolve_member_id env.member_list m ≡ ok id
      → env.member_remove id ≡ none
      → IsOut env c m (id ∷ [])

none_left : {A : Type 0} (xs : List A) → ltb 0 (length xs) ≡ false → xs ≡ []
none_left [] h = refl
none_left (x ∷ xs) h = ground arith

module _ {X : Type 0} (env : Env X) (c : EtcdCluster X) (m : EtcdMember X) where
  ask-IsOut :
      (endpoints : List String)
      → (ask_etcd env c m endpoints).1 ≡ none
      → IsOut env c m (ask_etcd env c m endpoints).0
  unfolding ask_etcd
  ask-IsOut endpoints fine = elim (Option-cases (dial env.client env.factory c endpoints)) [
    | inr (e, failed) ↦ ground arith
    | inl dialled ↦ elim (Answer-cases (resolve_member_id env.member_list m)) [
      | inr (e, failed) ↦ ground arith
      | inl (id, found) ↦ elim (Bool-cases (id == 0)) [
        | inl nobody ↦
            let q : (ask_etcd env c m endpoints).0 ≡ [] = ground arith in
            let zero_id : id ≡ 0 = ground arith in
            subst (IsOut env c m) (sym q)
              (absent (subst (λ i. resolve_member_id env.member_list m ≡ ok i) zero_id found))
        | inr somebody ↦
            let q : (ask_etcd env c m endpoints).0 ≡ id ∷ [] = ground arith in
            subst (IsOut env c m) (sym q) (removed id (λ e. ground arith) found (ground arith))
      ]
    ]
  ]

  remove-IsOut :
      (remove_member_from_etcd env c m).1 ≡ none → IsOut env c m (remove_member_from_etcd env c m).0
  unfolding remove_member_from_etcd
  remove-IsOut fine = elim (Answer-cases env.list) [
    | inr (e, failed) ↦ ground arith
    | inl (ms, listed) ↦ by_endpoints ms listed (peer_endpoints c m ms) refl
  ]
    where
      by_endpoints :
          (ms : List (EtcdMember X))
          → env.list ≡ ok ms
          → (endpoints : List String) → peer_endpoints c m ms ≡ endpoints
          → IsOut env c m (remove_member_from_etcd env c m).0
      by_endpoints ms listed [] e = elim (Bool-cases (ltb 0 (length (others m ms)))) [
        | inl more ↦ ground arith
        | inr alone ↦
            let q : (remove_member_from_etcd env c m).0 ≡ [] = ground arith in
            subst (IsOut env c m) (sym q) (last ms listed (none_left (others m ms) alone))
      ]
      by_endpoints ms listed (u ∷ us) e =
          let q : remove_member_from_etcd env c m ≡ ask_etcd env c m (u ∷ us) = ground arith in
          subst (λ r. IsOut env c m r.0) (sym q)
            (ask-IsOut (u ∷ us) (subst (λ r. r.1 ≡ none) q fine))

-- When a pass drops the finalizer: the cluster is gone or going, or the member is out of etcd.
pub data MayGo {X : Type 0} (env : Env X) (m : EtcdMember X) (out : Outcome) : Type 0 where
  orphaned : env.get_cluster ≡ err ApiError.not_found → out.removed ≡ [] → MayGo env m out
  torn_down :
      (c : EtcdCluster X)
      → env.get_cluster ≡ ok c
      → is_some c.meta.deletion_timestamp ≡ true
      → out.removed ≡ []
      → MayGo env m out
  left : (c : EtcdCluster X) → env.get_cluster ≡ ok c → IsOut env c m out.removed → MayGo env m out

pub handle_deletion-MayGo :
    {X : Type 0} (env : Env X) (m : EtcdMember X)
    → (handle_deletion env m).released ≡ true
    → MayGo env m (handle_deletion env m)
unfolding handle_deletion leave release
handle_deletion-MayGo env m gone =
    elim (Bool-cases (any (λ f. f == member_finalizer) m.meta.finalizers)) [
      | inr bare ↦ ground arith
      | inl held ↦ elim (Answer-cases env.get_cluster) [
        | inr (ApiError.not_found, e) ↦ orphaned e (ground arith)
        | inr (ApiError.conflict, e) ↦ ground arith
        | inr (ApiError.other t, e) ↦ ground arith
        | inl (c, e) ↦ elim (Bool-cases (is_some c.meta.deletion_timestamp)) [
          | inl going ↦ torn_down c e going (ground arith)
          | inr lives ↦ elim (Option-cases (remove_member_from_etcd env c m).1) [
            | inr (f, failed) ↦ ground arith
            | inl fine ↦
                let q : (handle_deletion env m).removed ≡ (remove_member_from_etcd env c m).0 =
                  ground arith in
                left c e (subst (IsOut env c m) (sym q) (remove-IsOut env c m fine))
          ]
        ]
      ]
    ]

-- The ID that the controller recorded in the status as 16 hexadecimal digits is the one that the
-- removal asks etcd for, whatever etcd lists by then; an ID has 64 bits.
pub resolve_member_id-hex16 :
    {X : Type 0} (listing : Answer (List Peer)) (m : EtcdMember X) (id : ℕ)
    → id < 2 ^ 64
    → m.status.member_id ≡ hex16 id
    → resolve_member_id listing m ≡ ok id
unfolding resolve_member_id
resolve_member_id-hex16 listing m id small recorded =
    ground (arith, hex16-full id, parse_hex-hex16 id small)
