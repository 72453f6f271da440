-- ===== src/Cluster/Pdb.antt =====
-- The PodDisruptionBudget of a cluster: pdbMinAvailable and reconcilePDB of
-- controllers/etcdcluster_controller.go.
use native.Mathlib.Decide.{ℕ_discrete}
use etcd_operator.Prelude.{
  ℕ, suc, ◌+◌, ◌/◌, ◌*◌, ◌<◌, String, [], ◌∷◌, Option, none, some, ◌≡◌, refl, ◌==◌, nat_eq, ltb,
  if◌then◌else◌, max, arith, Option-cases, Bool-cases, Eq, sym, subst, ap, ◌∙◌, inl, inr,
}
use etcd_operator.Prelude.Int.{ℤ}
use etcd_operator.Api.Meta.{Labels, ApiError}
use etcd_operator.Api.Cluster.{EtcdCluster}
use etcd_operator.Naming.{cluster_labels, label_cluster}
use etcd_operator.Metadata.{apply_additional_metadata}
use etcd_operator.Cluster.Target.{observed_additional_metadata}

pub data IntOrString : Type 0 where
  int_val : ℤ → IntOrString
  str_val : String → IntOrString

-- The fields of a policyv1.PodDisruptionBudget that the controller sets.
pub record Pdb : Type 0 where
  pub name : String
  pub namespace : String
  pub labels : Labels
  pub annotations : Labels
  pub owner : String
  pub min_available : Option IntOrString
  pub max_unavailable : Option IntOrString
  pub selector : Labels

-- The API calls, `none` for a success, and int32(IntValue()) of a string. A Get that fails does so
-- for another reason than that the object is missing.
pub record Env : Type 0 where
  pub get_failure : Option String
  pub delete : Option ApiError
  pub set_owner : Option ApiError
  pub create : Option ApiError
  pub patch : Option ApiError
  pub string_value : String → ℤ

unfoldable pub int_value : Env → IntOrString → ℤ
int_value env (IntOrString.int_val n) = n
int_value env (IntOrString.str_val s) = env.string_value s

unfoldable pub pdb_min_available : ℕ → ℕ → ℕ
pdb_min_available voter_count target_replicas =
    let anchor = max voter_count target_replicas in if ltb anchor 1 then 0 else anchor / 2 + 1

abbrev pub label_role : String
label_role = "etcd-operator.cozystack.io/role"

abbrev pub role_voter : String
role_voter = "voter"

-- The budget that the API server holds after a call, and the call's error.
abbrev pub Step : Type 0
Step = Option Pdb × Option ApiError

-- What a call leaves: its effect when it succeeds.
abbrev pub call : Option ApiError → (before after : Option Pdb) → Step
call none before after = (after, none)
call (some e) before after = (before, some e)

unfoldable pub current_min : Env → Pdb → ℤ
unfolding int_value
current_min env p = elim p.max_unavailable [
  | some _ ↦ ℤ.negsuc 0
  | none ↦ elim p.min_available [ none ↦ ℤ.negsuc 0 | some v ↦ int_value env v ]
]

int_dec : Discrete ℤ
int_dec = hlevel (ℕ_discrete)

instance unfoldable pub int_eq : Eq ℤ
unfolding int_dec
int_eq = record { dec = int_dec }

module _ {X : Type 0} (env : Env) (c : EtcdCluster X) where
  abbrev pub target_replicas : ℕ
  target_replicas = elim c.status.observed [ none ↦ 0 | some o ↦ o.replicas ]

  unfoldable pub fresh_pdb : ℕ → Pdb
  fresh_pdb floor =
      let md =
        apply_additional_metadata (cluster_labels c.meta.name) []
          (observed_additional_metadata c) in
      record {
        name = c.meta.name;
        namespace = c.meta.namespace;
        labels = md.0;
        annotations = md.1;
        owner = c.meta.uid;
        min_available = some (IntOrString.int_val (ℤ.pos floor));
        max_unavailable = none;
        selector = (label_cluster, c.meta.name) ∷ (label_role, role_voter) ∷ [];
      }

  unfoldable pub adjust : Pdb → ℕ → Step
  unfolding current_min
  adjust p floor =
      if current_min env p == ℤ.pos floor
      then (some p, none)
      else call env.patch (some p) (
          some (record p {
            max_unavailable = none;
            min_available = some (IntOrString.int_val (ℤ.pos floor));
          }))

  unfoldable pub protect : Option Pdb → ℕ → Step
  unfolding fresh_pdb adjust
  protect none floor = elim env.set_owner [
    | some e ↦ (none, some e)
    | none ↦ call env.create none (some (fresh_pdb floor))
  ]
  protect (some p) floor = adjust p floor

  unfoldable pub reconcile_pdb : Option Pdb → ℕ → Step
  unfolding pdb_min_available protect
  reconcile_pdb held voter_count = elim env.get_failure [
    | some e ↦ (held, some (ApiError.other e))
    | none ↦
        if voter_count == 0
        then (elim held [ none ↦ (none, none) | some p ↦ call env.delete (some p) none ])
        else protect held (pdb_min_available voter_count target_replicas)
  ]

-- What the API server holds for so many voters: a budget exactly when there is one, and that
-- keeps more than half of the voters, and of the target, from eviction.
pub record Guards (env : Env) (voters target : ℕ) (p : Pdb) : Type 0 where
  pub floor : ℕ
  pub stands : current_min env p ≡ ℤ.pos floor
  pub majority_of_voters : voters < 2 * floor
  pub majority_of_target : target < 2 * floor
  pub attainable : floor < suc (max voters target)

abbrev pub IsGuarded : Env → ℕ → ℕ → Option Pdb → Type 0
IsGuarded env voters target none = voters ≡ 0
IsGuarded env voters target (some p) = (0 < voters) × Guards env voters target p

floor-majority :
    (v t : ℕ)
    → 0 < v
    → let f = pdb_min_available v t in (v < 2 * f) × (t < 2 * f) × (f < suc (max v t))
unfolding pdb_min_available
floor-majority v t h = (ground arith, ground arith, ground arith)

adjust-IsGuarded :
    {X : Type 0} (env : Env) (c : EtcdCluster X) (p : Pdb) (floor voters target : ℕ)
    → (adjust env c p floor).1 ≡ none
    → 0 < voters
    → voters < 2 * floor
    → target < 2 * floor
    → floor < suc (max voters target)
    → IsGuarded env voters target (adjust env c p floor).0
unfolding adjust current_min int_value
adjust-IsGuarded env c p floor voters target fine busy v t a =
    let guards : (q : Pdb) → current_min env q ≡ ℤ.pos floor → Guards env voters target q = λ q s.
      record {
        floor = floor;
        stands = s;
        majority_of_voters = v;
        majority_of_target = t;
        attainable = a;
      } in
    elim (Bool-cases (current_min env p == ℤ.pos floor)) [
      | inl same ↦
          let kept : (adjust env c p floor).0 ≡ some p = ground arith in
          subst (λ q. IsGuarded env voters target q) (sym kept) (busy, guards p (ground arith))
      | inr differ ↦
          let set : (adjust env c p floor).0
              ≡ some (record p {
                max_unavailable = none;
                min_available = some (IntOrString.int_val (ℤ.pos floor));
              }) =
            ground arith in
          subst (λ q. IsGuarded env voters target q) (sym set) (busy, guards _ refl)
    ]

idle-IsGuarded :
    {X : Type 0} (env : Env) (c : EtcdCluster X) (held : Option Pdb) (voters : ℕ)
    → env.get_failure ≡ none
    → voters ≡ 0
    → (reconcile_pdb env c held voters).1 ≡ none
    → (reconcile_pdb env c held voters).0 ≡ none
unfolding reconcile_pdb
idle-IsGuarded env c none voters fetched idle fine = ground arith
idle-IsGuarded env c (some p) voters fetched idle fine = ground arith

busy-IsGuarded :
    {X : Type 0} (env : Env) (c : EtcdCluster X) (held : Option Pdb) (voters : ℕ)
    → 0 < voters
    → (protect env c held (pdb_min_available voters (target_replicas env c))).1 ≡ none
    → IsGuarded env voters
        (target_replicas env c)
        (protect env c held (pdb_min_available voters (target_replicas env c))).0
unfolding protect fresh_pdb current_min int_value
busy-IsGuarded env c (some p) voters busy fine =
    let f = floor-majority voters (target_replicas env c) busy in
    adjust-IsGuarded env c p _ voters _ fine busy f.0 f.1 f.2
busy-IsGuarded env c none voters busy fine =
    let floor = pdb_min_available voters (target_replicas env c) in
    let f = floor-majority voters (target_replicas env c) busy in
    let made : (protect env c none floor).0 ≡ some (fresh_pdb env c floor) = ground arith in
    subst (λ q. IsGuarded env voters (target_replicas env c) q) (sym made)
      (
        busy,
        record {
          floor = floor;
          stands = refl;
          majority_of_voters = f.0;
          majority_of_target = f.1;
          attainable = f.2;
        },
      )

-- A pass over the budget that reports no error leaves the API server with no budget when there is
-- no voter, and otherwise with one whose floor is a majority of the voters and of the target alike
-- and no more than the larger of the two.
pub reconcile_pdb-IsGuarded :
    {X : Type 0} (env : Env) (c : EtcdCluster X) (held : Option Pdb) (voters : ℕ)
    → (reconcile_pdb env c held voters).1 ≡ none
    → IsGuarded env voters (target_replicas env c) (reconcile_pdb env c held voters).0
unfolding reconcile_pdb protect fresh_pdb
reconcile_pdb-IsGuarded env c held voters fine =
    let target = target_replicas env c in
    let IsFine = λ (r : Step). IsGuarded env voters target r.0 in
    elim (Option-cases env.get_failure) [
      | inr bad ↦ ground arith
      | inl fetched ↦ elim (Bool-cases (voters == 0)) [
        | inl idle ↦
            let idle : voters ≡ 0 = ground arith in
            subst (λ q. IsGuarded env voters target q)
              (sym (idle-IsGuarded env c held voters fetched idle fine)) idle
        | inr busy ↦
            let q : reconcile_pdb env c held voters
                ≡ protect env c held (pdb_min_available voters target) =
              ground arith in
            subst IsFine (sym q) (
              busy-IsGuarded env c held voters (ground arith)
                (ap (λ (r : Step). r.1) (sym q) ∙ fine))
      ]
    ]
