-- ===== src/Cluster/Auth/Lockout.antt =====
-- Turning authentication on does not lock the operator out (controllers/etcdcluster_controller.go
-- and controllers/etcd_client.go).
use etcd_operator.Prelude.{
  String, ◌==◌, string_eq, false, List, [], ◌∷◌, none, some, true, ◌≡◌, ◌⊎◌, inl, inr, arith,
  Bool-cases, Option-cases, subst, sym,
}
use etcd_operator.Api.Meta.{ApiError, ok, err, Answer-cases}
use etcd_operator.Cluster.Discovery.{is_auth_required_err}
use etcd_operator.Api.Cluster.{EtcdCluster, ObservedClusterSpec}
use etcd_operator.Api.Member.{EtcdMember}
use etcd_operator.Naming.{cluster_client_scheme}
use etcd_operator.Members.{member_endpoints}
use etcd_operator.Client.{
  dial, auth_configured, read_root_password, resolve_etcd_credentials, root_secret_name,
}
use etcd_operator.Cluster.Auth.{
  AuthCall, Env, Outcome, with_auth, latch_auth_enabled, provision, turn_on, reconcile_auth,
  user_add, user_grant_role, auth_enable, converged, is_auth_already_exists,
}

-- etcd says that authentication is on, or that it wants credentials.
abbrev pub IsOn : Env → Type 0
IsOn env =
    (env.auth_status ≡ ok true)
    ⊎ ((e : ApiError) × (env.auth_status ≡ err e)
        × (is_auth_required_err (env.show_error e) ≡ true))

-- Where a pass leaves authentication: as it was, or latched, and then because etcd has it on or
-- because the pass made root and turned it on, with the password that the next dial presents.
abbrev pub Latches : {X : Type 0} → Env → EtcdCluster X → Outcome X → Type 0
Latches env c r =
    (r.stored ≡ c)
    ⊎ ((r.stored ≡ with_auth env c)
        × (IsOn env
            ⊎ ((password : String) × (r.calls
                  ≡ user_add "root" password ∷ user_grant_role "root" "root" ∷ auth_enable ∷ [])
                × (env.user_grant_role ≡ none)
                × (env.auth_enable ≡ none)
                × (resolve_etcd_credentials env.client r.stored ≡ ok ("root", password, true)))))

-- What asks for etcd's calls: authentication is wanted and the target is reached.
pub record IsDue {X : Type 0} (env : Env) (c : EtcdCluster X) (running : List (EtcdMember X))
    : Type 0 where
  pub wanted : auth_configured env.client c ≡ true
  pub off : c.status.auth_enabled ≡ false
  pub formed : (c.status.cluster_id == "") ≡ false
  pub target : ObservedClusterSpec X
  pub observed : c.status.observed ≡ some target
  pub reached : converged env c target running ≡ true

module _ {X : Type 0} (env : Env) (c : EtcdCluster X) where
  latch-cases :
      (calls : List AuthCall)
      → ((latch_auth_enabled env c calls).stored ≡ c)
        ⊎ (((latch_auth_enabled env c calls).stored ≡ with_auth env c)
            × ((latch_auth_enabled env c calls).calls ≡ calls))
  unfolding latch_auth_enabled
  latch-cases calls = elim (Bool-cases c.status.auth_enabled) [
    | inl on ↦ inl (ground arith)
    | inr off ↦ elim (Option-cases env.patch) [
      | inl fine ↦ inr (ground arith, ground arith)
      | inr (ApiError.conflict, e) ↦ inl (ground arith)
      | inr (ApiError.not_found, e) ↦ inl (ground arith)
      | inr (ApiError.other t, e) ↦ inl (ground arith)
    ]
  ]

  resolve-with_auth :
      (password : String)
      → auth_configured env.client c ≡ true
      → read_root_password env.client c ≡ ok password
      → resolve_etcd_credentials env.client (with_auth env c) ≡ ok ("root", password, true)
  unfolding resolve_etcd_credentials read_root_password auth_configured root_secret_name
  resolve-with_auth password wanted read = ground arith

  abbrev enabling : String → List AuthCall
  enabling password = user_add "root" password ∷ user_grant_role "root" "root" ∷ auth_enable ∷ []

  provision-cases :
      (password : String)
      → ((provision env c password).stored ≡ c)
        ⊎ ((provision env c password ≡ latch_auth_enabled env c (enabling password))
            × (env.user_grant_role ≡ none)
            × (env.auth_enable ≡ none))
  unfolding provision
  provision-cases password = elim (Option-cases env.user_grant_role) [
    | inr (e, failed) ↦ inl (ground arith)
    | inl granted ↦ elim (Option-cases env.auth_enable) [
      | inr (e, failed) ↦ inl (ground arith)
      | inl enabled ↦
          elim (Bool-cases (elim env.user_add [
            | none ↦ true
            | some e ↦ is_auth_already_exists (env.show_error e)
          ])) [ inl added ↦ inr (ground arith, granted, enabled) | inr failed ↦ inl (ground arith) ]
    ]
  ]

  latch-Latches :
      (calls : List AuthCall) → IsOn env → Latches env c (latch_auth_enabled env c calls)
  latch-Latches calls on = elim (latch-cases calls) [
    | inl same ↦ inl same
    | inr (q, _) ↦ inr (q, inl on)
  ]

  provision-Latches :
      (password : String)
      → auth_configured env.client c ≡ true
      → read_root_password env.client c ≡ ok password
      → Latches env c (provision env c password)
  provision-Latches password wanted read = elim (provision-cases password) [
    | inl same ↦ inl same
    | inr (made, granted, enabled) ↦ elim (latch-cases (enabling password)) [
      | inl same ↦ inl (ground arith)
      | inr (q, calls) ↦
          let stored : (provision env c password).stored ≡ with_auth env c = ground arith in
          inr (
            stored,
            inr (
              password,
              ground arith,
              granted,
              enabled,
              subst (λ d. resolve_etcd_credentials env.client d ≡ ok ("root", password, true))
                  (sym stored) (resolve-with_auth password wanted read),
            ),
          )
    ]
  ]

  turn_on-Latches : auth_configured env.client c ≡ true → Latches env c (turn_on env c)
  unfolding turn_on
  turn_on-Latches wanted = elim (Answer-cases env.auth_status) [
    | inr (e, refused) ↦ elim (Bool-cases (is_auth_required_err (env.show_error e))) [
      | inr unknown ↦ inl (ground arith)
      | inl wanting ↦
          let q : turn_on env c ≡ latch_auth_enabled env c [] = ground arith in
          subst (Latches env c) (sym q) (latch-Latches [] (inr (e, refused, wanting)))
    ]
    | inl (true, on) ↦
        let q : turn_on env c ≡ latch_auth_enabled env c [] = ground arith in
        subst (Latches env c) (sym q) (latch-Latches [] (inl on))
    | inl (false, off) ↦ elim (Answer-cases (read_root_password env.client c)) [
      | inr (e, missing) ↦ inl (ground arith)
      | inl (password, read) ↦
          let q : turn_on env c ≡ provision env c password = ground arith in
          subst (Latches env c) (sym q) (provision-Latches password wanted read)
    ]
  ]

  auth-cases :
      (running : List (EtcdMember X))
      → (((reconcile_auth env c running).stored ≡ c) × ((reconcile_auth env c running).calls ≡ []))
        ⊎ (IsDue env c running × (reconcile_auth env c running ≡ turn_on env c))
  unfolding reconcile_auth
  auth-cases running = elim (Bool-cases (auth_configured env.client c)) [
    | inr unwanted ↦ inl (ground arith, ground arith)
    | inl wanted ↦ elim (Bool-cases c.status.auth_enabled) [
      | inl on ↦ inl (ground arith, ground arith)
      | inr off ↦ elim (Bool-cases (c.status.cluster_id == "")) [
        | inl unformed ↦ inl (ground arith, ground arith)
        | inr formed ↦ elim (Option-cases c.status.observed) [
          | inl unseen ↦ inl (ground arith, ground arith)
          | inr (target, seen) ↦ elim (Bool-cases (converged env c target running)) [
            | inr far ↦ inl (ground arith, ground arith)
            | inl reached ↦
                elim (Option-cases (
                  dial env.client env.factory c
                    (member_endpoints (cluster_client_scheme c) running c.meta.namespace))) [
                      | inr (e, failed) ↦ inl (ground arith, ground arith)
                      | inl dialled ↦ inr (
                        record {
                          wanted = wanted;
                          off = off;
                          formed = formed;
                          target = target;
                          observed = seen;
                          reached = reached;
                        },
                        ground arith,
                      )
                    ]
          ]
        ]
      ]
    ]
  ]

pub reconcile_auth-Latches :
    {X : Type 0} (env : Env) (c : EtcdCluster X) (running : List (EtcdMember X))
    → Latches env c (reconcile_auth env c running)
      × (((reconcile_auth env c running).calls ≡ []) ⊎ IsDue env c running)
reconcile_auth-Latches env c running = elim (auth-cases env c running) [
  | inl (same, quiet) ↦ (inl same, inl quiet)
  | inr (due, q) ↦ (subst (Latches env c) (sym q) (turn_on-Latches env c due.wanted), inr due)
]
