-- ===== src/Member/Reconcile/Quiet.antt =====
-- The calls that the parts of a pass of controllers/etcdmember_controller.go do not make, for any
-- test of calls.
use etcd_operator.Prelude.{
  ℕ, Bool, true, false, ◌||◌, List, [], ◌∷◌, ◌++◌, map, none, some, ◌≡◌, refl, inl, inr, any,
  is_some, arith, Bool-cases, Option-cases, if◌then◌else◌,
}
use etcd_operator.Api.Meta.{Result, ApiError, Answer-cases}
use etcd_operator.Api.Member.{EtcdMember}
use etcd_operator.Member.Pods.{Pod}
use etcd_operator.Member.Health.{Draft}
use etcd_operator.Member.Storage.{ensure_pvc}
use etcd_operator.Member.Reconcile.{
  Call, remove_from_etcd, drop_finalizer, Env, reconcile_role_label, ensure_pod_absent, settle,
  park, replace_pod,
}

pub any-append :
    {A : Type 0} (p : A → Bool) (xs ys : List A) → any p (xs ++ ys) ≡ (any p xs || any p ys)
any-append p [] ys = refl
any-append p (x ∷ xs) ys = ground (arith, any-append p xs ys)

-- What a deletion of the member asks.
abbrev pub leaving : {X : Type 0} → List ℕ → Bool → List (Call X)
leaving ids asked = map remove_from_etcd ids ++ (if asked then drop_finalizer ∷ [] else [])

-- The calls of bring_up that come before the Pod.
abbrev pub claimed : {X : Type 0} → Env X → EtcdMember X → List (Call X)
claimed env m = elim (ensure_pvc m env.storage).0 [ none ↦ [] | some c ↦ Call.create_claim c ∷ [] ]

module _ {X : Type 0} (p : Call X → Bool) where
  pub any-leaving :
      ((id : ℕ) → p (remove_from_etcd id) ≡ false)
      → p drop_finalizer ≡ false
      → (ids : List ℕ) (asked : Bool) → any p (leaving ids asked) ≡ false
  any-leaving h k [] true = ground (arith, k)
  any-leaving h k [] false = refl
  any-leaving h k (i ∷ ids) asked = ground (arith, h i, any-leaving h k ids asked)

  module _ (env : Env X) (m : EtcdMember X) where
    pub any-reconcile_role_label :
        ((b : Bool) → p (Call.label_pod b) ≡ false)
        → (pod : Pod) → any p (reconcile_role_label env m pod).0 ≡ false
    unfolding reconcile_role_label
    any-reconcile_role_label h pod = ground (arith, h m.status.is_voter)

    pub any-claimed : ((c : _) → p (Call.create_claim c) ≡ false) → any p (claimed env m) ≡ false
    any-claimed h = elim (Option-cases (ensure_pvc m env.storage).0) [
      | inl there ↦ ground arith
      | inr (c, made) ↦ ground (arith, h c)
    ]

    settle-calls :
        (calls : List (Call X)) (d : Draft X) (r : Result) → (settle env calls m d r).calls ≡ calls
    unfolding settle
    settle-calls calls d r = elim (Option-cases env.update_status) [
      | inl fine ↦ ground arith
      | inr (e, failed) ↦ ground arith
    ]

    module _ (h : p Call.delete_pod ≡ false) where
      any-ensure_pod_absent : any p (ensure_pod_absent env m).0 ≡ false
      unfolding ensure_pod_absent
      any-ensure_pod_absent = elim (Answer-cases env.absent_pod) [
        | inr (ApiError.not_found, e) ↦ ground arith
        | inr (ApiError.conflict, e) ↦ ground arith
        | inr (ApiError.other t, e) ↦ ground arith
        | inl (pod, got) ↦ elim (Bool-cases (is_some pod.deletion_timestamp)) [
          | inl going ↦ ground arith
          | inr lives ↦ ground (arith, h)
        ]
      ]

      pub any-park : any p (park env m).calls ≡ false
      unfolding park
      any-park = elim (Option-cases (ensure_pod_absent env m).1) [
        | inr (e, failed) ↦ ground (arith, any-ensure_pod_absent)
        | inl fine ↦ ground (arith, any-ensure_pod_absent, settle-calls (ensure_pod_absent env m).0)
      ]

      pub any-replace_pod : (pod : Pod) → any p (replace_pod env m pod).calls ≡ false
      unfolding replace_pod
      any-replace_pod pod = elim (Option-cases env.update_status) [
        | inl fine ↦ ground (arith, h)
        | inr (e, failed) ↦ ground (arith, h)
      ]
