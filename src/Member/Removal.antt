-- ===== src/Member/Removal.antt =====
-- handleDeletion, removeMemberFromEtcd and resolveMemberID of
-- controllers/etcdmember_controller.go: a member leaves etcd before its finalizer goes.
pub mod Release
use etcd_operator.Prelude.{
  ℕ, String, ◌<>◌, Bool, true, false, ◌&&◌, ◌||◌, not, List, [], ◌∷◌, Option, none, some, map, ◌==◌,
  nat_eq, string_eq, if◌then◌else◌, length, select, any, find?, is_some, ◌*◌, ltb,
}
use etcd_operator.Prelude.Text.{quote, decimal}
use etcd_operator.Prelude.Hex.{parse_hex}
use etcd_operator.Api.Meta.{Result, no_requeue, after, second, ApiError, Answer, ok, err}
use etcd_operator.Api.Cluster.{EtcdCluster}
use etcd_operator.Api.Member.{EtcdMember}
use etcd_operator.Naming.{
  peer_url, client_url, member_peer_scheme, member_service_name, cluster_client_scheme,
}
use etcd_operator.Members.{filter_active_members, member_url}
use etcd_operator.Client.{Env as ClientEnv, Factory, dial}
use etcd_operator.Cluster.Voters.{Peer}

abbrev pub member_finalizer : String
member_finalizer = "etcd-operator.cozystack.io/member-cleanup"

-- The answers of the API server and of etcd.
pub record Env (X : Type 0) : Type 0 where
  pub get_cluster : Answer (EtcdCluster X)
  pub list : Answer (List (EtcdMember X))
  pub client : ClientEnv
  pub factory : Factory
  pub member_list : Answer (List Peer)
  pub member_remove : ℕ → Option ApiError
  pub update : Option ApiError

-- The IDs that MemberRemove was called with, whether the removal of the finalizer was asked for and
-- whether the API server has done it, and the answer.
pub record Outcome : Type 0 where
  pub removed : List ℕ
  pub asked : Bool
  pub released : Bool
  pub answer : Answer Result

-- What MemberRemove is called with, and the failure.
abbrev pub Removal : Type 0
Removal = List ℕ × Option ApiError

module _ {X : Type 0} where
  unfoldable pub own_peer_url : EtcdMember X → String
  own_peer_url m =
      peer_url (member_peer_scheme m) m.meta.name (member_service_name m) m.meta.namespace

  -- etcd's entry of a member, by its name or its peer URL.
  unfoldable pub matches : EtcdMember X → Peer → Bool
  unfolding own_peer_url
  matches m p = p.name == m.meta.name || any (λ u. u == own_peer_url m) p.peer_urls

  -- 0 when etcd does not have the member.
  unfoldable pub resolve_member_id : Answer (List Peer) → EtcdMember X → Answer ℕ
  unfolding matches
  resolve_member_id listing m =
      if not (m.status.member_id == "")
      then (elim (parse_hex m.status.member_id) [
        | none ↦ err (ApiError.other ("parse memberID " <> quote m.status.member_id))
        | some id ↦ ok id
      ])
      else (elim listing [
        | err e ↦ err e
        | ok peers ↦ elim (find? (matches m) peers) [ none ↦ ok 0 | some p ↦ ok p.id ]
      ])

  -- The other members that are not being deleted.
  unfoldable pub others : EtcdMember X → List (EtcdMember X) → List (EtcdMember X)
  others m ms = select (λ n. not (n.meta.name == m.meta.name)) (filter_active_members ms)

  -- Where to ask: the others that have a Pod.
  unfoldable pub peer_endpoints : EtcdCluster X → EtcdMember X → List (EtcdMember X) → List String
  unfolding others member_url
  peer_endpoints c m ms =
      map (member_url (cluster_client_scheme c) m.meta.namespace)
        (select (λ n. not (n.status.pod_name == "")) (others m ms))

module _ {X : Type 0} (env : Env X) (c : EtcdCluster X) (m : EtcdMember X) where
  unfoldable pub ask_etcd : List String → Removal
  unfolding dial resolve_member_id
  ask_etcd endpoints = elim (dial env.client env.factory c endpoints) [
    | some e ↦ ([], some e)
    | none ↦ elim (resolve_member_id env.member_list m) [
      | err e ↦ ([], some e)
      | ok id ↦ if id == 0 then ([], none) else (id ∷ [], env.member_remove id)
    ]
  ]

  unfoldable pub remove_member_from_etcd : Removal
  unfolding ask_etcd peer_endpoints others
  remove_member_from_etcd = elim env.list [
    | err e ↦ ([], some e)
    | ok ms ↦
        let endpoints = peer_endpoints c m ms in
        let n = length (others m ms) in
        elim endpoints [
          | u ∷ us ↦ ask_etcd (u ∷ us)
          | [] ↦
              if ltb 0 n
              then (
                [],
                some (
                    ApiError.other (
                      "no reachable peers ("
                      <> (decimal n <> " other member(s) have empty PodName); will retry"))),
              )
              else ([], none)
        ]
  ]

module _ {X : Type 0} (env : Env X) (m : EtcdMember X) where
  -- The removal of the finalizer.
  unfoldable pub release : List ℕ → Outcome
  release removed = elim env.update [
    | some e ↦ record { removed = removed; asked = true; released = false; answer = err e }
    | none ↦ record { removed = removed; asked = true; released = true; answer = ok no_requeue }
  ]

  unfoldable pub leave : EtcdCluster X → Outcome
  unfolding remove_member_from_etcd release
  leave c =
      let r = remove_member_from_etcd env c m in
      elim r.1 [
        | some _ ↦ record {
          removed = r.0;
          asked = false;
          released = false;
          answer = ok (after (5 * second));
        }
        | none ↦ release r.0
      ]

  -- A cluster that is gone or going takes its members with it.
  unfoldable pub handle_deletion : Outcome
  unfolding leave release
  handle_deletion =
      if not (any (λ f. f == member_finalizer) m.meta.finalizers)
      then record { removed = []; asked = false; released = false; answer = ok no_requeue }
      else (elim env.get_cluster [
        | err ApiError.not_found ↦ release []
        | err ApiError.conflict ↦ record {
          removed = [];
          asked = false;
          released = false;
          answer = err ApiError.conflict;
        }
        | err (ApiError.other e) ↦ record {
          removed = [];
          asked = false;
          released = false;
          answer = err (ApiError.other e);
        }
        | ok c ↦ if is_some c.meta.deletion_timestamp then release [] else leave c
      ])
