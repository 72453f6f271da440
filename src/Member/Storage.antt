-- ===== src/Member/Storage.antt =====
-- A member's volume claim: ensurePVC of controllers/etcdmember_controller.go.
use etcd_operator.Prelude.{
  ℕ, String, ◌<>◌, Bool, true, List, [], ◌∷◌, Option, none, some, ◌≡◌, ◌⊎◌, inl, inr, ◌==◌,
  string_eq, if◌then◌else◌, arith, Bool-cases, Option-cases, refl, subst, sym,
}
use etcd_operator.Prelude.Text.{quote}
use etcd_operator.Api.Meta.{Labels, ApiError, Answer, ok, err, Answer-cases}
use etcd_operator.Api.Cluster.{StorageMedium}
use etcd_operator.Api.Member.{EtcdMember}
use etcd_operator.Naming.{member_labels}
use etcd_operator.Metadata.{apply_additional_metadata}
use etcd_operator.Cluster.Target.{storage_medium_eq}
use etcd_operator.Member.Pods.{OwnerReference, owned_by}

pub record Claim : Type 0 where
  pub name : String
  pub namespace : String
  pub labels : Labels
  pub annotations : Labels
  pub owners : List OwnerReference
  pub storage_class_name : Option String
  pub size : ℕ

-- The answers to the claim's Get, to SetControllerReference and to Create.
pub record Env : Type 0 where
  pub get : Answer Claim
  pub set_owner : Option ApiError
  pub create : Option ApiError

-- The claim that was asked for, and the name for the status or the failure.
abbrev pub Outcome : Type 0
Outcome = Option Claim × Answer String

module _ {X : Type 0} (m : EtcdMember X) where
  abbrev pub claim_name : String
  claim_name = "data-" <> m.meta.name

  abbrev pub owner_of : OwnerReference
  owner_of = record { kind = "EtcdMember"; uid = m.meta.uid }

  unfoldable pub new_claim : Claim
  new_claim =
      let pair =
        apply_additional_metadata (member_labels m.spec.cluster_name m.meta.name) []
          m.spec.additional_metadata in
      record {
        name = claim_name;
        namespace = m.meta.namespace;
        labels = pair.0;
        annotations = pair.1;
        owners = owner_of ∷ [];
        storage_class_name = m.spec.storage.storage_class_name;
        size = m.spec.storage.size;
      }

  unfoldable pub create_claim : Env → Outcome
  unfolding new_claim
  create_claim env = elim env.set_owner [
    | some e ↦ (none, err e)
    | none ↦ elim env.create [
      | some e ↦ (some new_claim, err e)
      | none ↦ (some new_claim, ok claim_name)
    ]
  ]

  -- A claim of another incarnation is not taken over.
  unfoldable pub ensure_pvc : Env → Outcome
  unfolding create_claim owned_by
  ensure_pvc env =
      if m.spec.storage.medium == StorageMedium.memory then (none, ok "") else (elim env.get [
        | err ApiError.not_found ↦ create_claim env
        | err ApiError.conflict ↦ (none, err ApiError.conflict)
        | err (ApiError.other e) ↦ (none, err (ApiError.other e))
        | ok c ↦ if owned_by c.owners m then (none, ok claim_name) else (
          none,
          err (
              ApiError.other (
                "PVC "
                <> (quote claim_name
                    <> " is owned by a different EtcdMember; awaiting GC before reuse"))),
        )
      ])

-- What stands behind the name that the status is given: a claim of this very member.
pub record IsBacked {X : Type 0} (m : EtcdMember X) (env : Env) (out : Outcome) : Type 0 where
  pub claim : Claim
  pub owned : owned_by claim.owners m ≡ true
  pub source :
      ((env.get ≡ ok claim) × (out.0 ≡ none))
      ⊎ ((env.get ≡ err ApiError.not_found) × (env.create ≡ none) × (out.0 ≡ some claim))

abbrev same_type : String → String → Bool
same_type s t = s == t

kind_itself : same_type "EtcdMember" "EtcdMember" ≡ true
unfolding string_eq
kind_itself = refl

new_claim-owned_by : {X : Type 0} (m : EtcdMember X) → owned_by (new_claim m).owners m ≡ true
unfolding new_claim owned_by
new_claim-owned_by m = ground (arith, kind_itself)

create_claim-IsBacked :
    {X : Type 0} (m : EtcdMember X) (env : Env) (name : String)
    → env.get ≡ err ApiError.not_found
    → (create_claim m env).1 ≡ ok name
    → (name ≡ claim_name m) × IsBacked m env (create_claim m env)
unfolding create_claim
create_claim-IsBacked m env name missing fine = elim (Option-cases env.set_owner) [
  | inr (e, failed) ↦ ground arith
  | inl owned ↦ elim (Option-cases env.create) [
    | inr (e, failed) ↦ ground arith
    | inl made ↦ (
      ground arith,
      record {
        claim = new_claim m;
        owned = new_claim-owned_by m;
        source = inr (missing, made, ground arith);
      },
    )
  ]
]

-- A member on disk goes on only with the claim `data-<name>` that carries its own UID, one that
-- was there or one just created; a claim that another member of the same name left behind is
-- never taken over. A member in memory has no claim and asks for none.
pub ensure_pvc-IsBacked :
    {X : Type 0} (m : EtcdMember X) (env : Env) (name : String)
    → (ensure_pvc m env).1 ≡ ok name
    → ((m.spec.storage.medium ≡ StorageMedium.memory) × (ensure_pvc m env ≡ (none, ok "")))
      ⊎ ((name ≡ claim_name m) × IsBacked m env (ensure_pvc m env))
unfolding ensure_pvc
ensure_pvc-IsBacked m env name fine =
    elim (Bool-cases (m.spec.storage.medium == StorageMedium.memory)) [
      | inl memory ↦ inl (ground arith, ground arith)
      | inr disk ↦ elim (Answer-cases env.get) [
        | inr (ApiError.conflict, e) ↦ ground arith
        | inr (ApiError.other t, e) ↦ ground arith
        | inr (ApiError.not_found, e) ↦
            let q : ensure_pvc m env ≡ create_claim m env = ground arith in
            let made = create_claim-IsBacked m env name e (ground arith) in
            inr (made.0, subst (IsBacked m env) (sym q) made.1)
        | inl (c, got) ↦ elim (Bool-cases (owned_by c.owners m)) [
          | inr foreign ↦ ground arith
          | inl ours ↦
              inr
                (ground arith, record { claim = c; owned = ours; source = inl (got, ground arith) })
        ]
      ]
    ]
