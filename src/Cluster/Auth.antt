-- ===== src/Cluster/Auth.antt =====
-- reconcileAuth and latchAuthEnabled of controllers/etcdcluster_controller.go: etcd's root user is
-- made and authentication is turned on, once the cluster has converged.
pub mod Lockout
use etcd_operator.Prelude.{
  ℕ, String, Bool, true, false, ◌&&◌, ◌||◌, not, List, [], ◌∷◌, Option, none, some, ◌==◌, nat_eq,
  string_eq, if◌then◌else◌, length, ◌*◌,
}
use etcd_operator.Prelude.Text.{contains}
use etcd_operator.Api.Meta.{Result, requeue_now, after, second, ApiError, Answer, ok, err}
use etcd_operator.Api.Cluster.{EtcdCluster, ObservedClusterSpec}
use etcd_operator.Api.Member.{EtcdMember}
use etcd_operator.Naming.{cluster_client_scheme}
use etcd_operator.Members.{member_endpoints}
use etcd_operator.Client.{Env as ClientEnv, Factory, dial, auth_configured, read_root_password}
use etcd_operator.Cluster.Target.{with_status, all_members_ready}
use etcd_operator.Cluster.Discovery.{is_auth_required_err}

-- What is asked of etcd's auth API.
pub data AuthCall : Type 0 where
  user_add user_grant_role : String → String → AuthCall
  auth_enable : AuthCall

-- The way to etcd, the answers of its auth API, and that of the status patch.
pub record Env : Type 0 where
  pub client : ClientEnv
  pub factory : Factory
  pub show_error : ApiError → String
  pub auth_status : Answer Bool
  pub user_add : Option ApiError
  pub user_grant_role : Option ApiError
  pub auth_enable : Option ApiError
  pub patch : Option ApiError

-- The cluster as the API server and as the pass itself hold it afterwards, the calls made of etcd,
-- and the answer: none goes on.
pub record Outcome (X : Type 0) : Type 0 where
  pub stored : EtcdCluster X
  pub memory : EtcdCluster X
  pub calls : List AuthCall
  pub answer : Option (Answer Result)

abbrev retry : Option (Answer Result)
retry = some (ok (after (10 * second)))

unfoldable pub is_auth_already_exists : String → Bool
is_auth_already_exists msg = contains msg "user name already exists"

module _ {X : Type 0} (env : Env) (c : EtcdCluster X) where
  abbrev pub with_auth : EtcdCluster X
  with_auth = with_status c (record (c.status) { auth_enabled = true })

  abbrev unchanged : List AuthCall → Option (Answer Result) → Outcome X
  unchanged calls answer = record { stored = c; memory = c; calls = calls; answer = answer }

  -- The patch failed, and the object in memory has it.
  abbrev unpatched : List AuthCall → Answer Result → Outcome X
  unpatched calls answer = record {
    stored = c;
    memory = with_auth;
    calls = calls;
    answer = some answer;
  }

  -- `calls` are those made before.
  unfoldable pub latch_auth_enabled : List AuthCall → Outcome X
  latch_auth_enabled calls =
      if c.status.auth_enabled then unchanged calls (some (ok requeue_now)) else (elim env.patch [
        | none ↦ record {
          stored = with_auth;
          memory = with_auth;
          calls = calls;
          answer = some (ok requeue_now);
        }
        | some ApiError.conflict ↦ unpatched calls (ok requeue_now)
        | some ApiError.not_found ↦ unpatched calls (err ApiError.not_found)
        | some (ApiError.other e) ↦ unpatched calls (err (ApiError.other e))
      ])

  -- UserAdd takes an existing user for success; the other two calls do not.
  unfoldable pub provision : String → Outcome X
  unfolding latch_auth_enabled is_auth_already_exists
  provision password =
      let one = user_add "root" password ∷ [] in
      let two = user_add "root" password ∷ user_grant_role "root" "root" ∷ [] in
      let three = user_add "root" password ∷ user_grant_role "root" "root" ∷ auth_enable ∷ [] in
      let added : Bool = elim env.user_add [
        | none ↦ true
        | some e ↦ is_auth_already_exists (env.show_error e)
      ] in
      if not added then unchanged one retry else (elim env.user_grant_role [
        | some _ ↦ unchanged two retry
        | none ↦ elim env.auth_enable [
          | some _ ↦ unchanged three retry
          | none ↦ latch_auth_enabled three
        ]
      ])

  -- An answer that demands credentials means that authentication is on.
  unfoldable pub turn_on : Outcome X
  unfolding provision latch_auth_enabled read_root_password is_auth_required_err
  turn_on = elim env.auth_status [
    | err e ↦
        if is_auth_required_err (env.show_error e)
        then latch_auth_enabled []
        else unchanged [] retry
    | ok true ↦ latch_auth_enabled []
    | ok false ↦ elim (read_root_password env.client c) [
      | err _ ↦ unchanged [] retry
      | ok password ↦ provision password
    ]
  ]

  -- All desired members are there and ready.
  unfoldable pub converged : ObservedClusterSpec X → List (EtcdMember X) → Bool
  unfolding all_members_ready
  converged o running =
      not (o.replicas == 0) && length running == o.replicas && all_members_ready running

  unfoldable pub reconcile_auth : List (EtcdMember X) → Outcome X
  unfolding converged turn_on dial auth_configured member_endpoints
  reconcile_auth running =
      if not (auth_configured env.client c) || c.status.auth_enabled || c.status.cluster_id == ""
      then unchanged [] none
      else (elim c.status.observed [
        | none ↦ unchanged [] none
        | some o ↦
            if not (converged o running)
            then unchanged [] none
            else (let endpoints =
                  member_endpoints (cluster_client_scheme c) running c.meta.namespace in
                elim (dial env.client env.factory c endpoints) [
                  | some _ ↦ unchanged [] retry
                  | none ↦ turn_on
                ])
      ])
