-- ===== src/Cluster/ScaleUp.antt =====
-- scaleUp of controllers/etcdcluster_controller.go: wake, complete, promote or create a member.
use etcd_operator.Prelude.{String, ◌<>◌, List, [], ◌∷◌, Option, none, some, map, if◌then◌else◌}
use etcd_operator.Prelude.Text.{quote}
use etcd_operator.Api.Meta.{ApiError, Answer, ok, err}
use etcd_operator.Api.Cluster.{EtcdCluster, ObservedClusterSpec}
use etcd_operator.Api.Member.{EtcdMember}
use etcd_operator.Naming.{cluster_client_scheme}
use etcd_operator.Members.{filter_running_members, find_dormant_member, member_endpoints}
use etcd_operator.Client.{Env as ClientEnv, Factory, dial}
use etcd_operator.Cluster.Voters.{Env as VoterEnv, Peer, try_promote_learner}
use etcd_operator.Cluster.Calls.{Step, ask, refuse, wait, create_member, wake, promote}
use etcd_operator.Cluster.Bootstrap.{controls, new_meta, new_spec, blank_status}
use etcd_operator.Cluster.Join.{Env as JoinEnv, find_pending_member, complete_pending_member}

-- The answers to the wake's patch, to SetControllerReference and Create, and the way to etcd.
pub record Env (X : Type 0) : Type 0 where
  pub wake : Option ApiError
  pub set_owner : Option ApiError
  pub create : EtcdMember X → Answer (EtcdMember X)
  pub client : ClientEnv
  pub factory : Factory
  pub voters : VoterEnv
  pub join : JoinEnv

unfoldable pub new_member : {X : Type 0} → EtcdCluster X → ObservedClusterSpec X → EtcdMember X
unfolding new_meta new_spec
new_member c o = record { meta = new_meta c; spec = new_spec c o; status = blank_status }

module _ {X : Type 0} (env : Env X) (c : EtcdCluster X) where
  -- Step 4.
  unfoldable pub create_joiner : ObservedClusterSpec X → List Peer → Step X
  unfolding new_member complete_pending_member ask refuse
  create_joiner o peers = elim env.set_owner [
    | some e ↦ refuse e
    | none ↦ elim (env.create (new_member c o)) [
      | err e ↦ (create_member (new_member c o) ∷ [], err e)
      | ok m ↦
          ask (create_member (new_member c o)) none (complete_pending_member env.join c peers m)
    ]
  ]

  unfoldable pub foreign_pending : EtcdMember X → String
  foreign_pending m =
      "pending EtcdMember "
      <> (quote m.meta.name
          <> (" in namespace "
              <> (quote m.meta.namespace
                  <> (" is not controlled by this EtcdCluster (uid="
                      <> (c.meta.uid <> "); refusing to adopt")))))

  -- Steps 2 to 4, on one snapshot of etcd's list.
  unfoldable pub advance : ObservedClusterSpec X → List (EtcdMember X) → List Peer → Step X
  unfolding controls complete_pending_member find_pending_member refuse foreign_pending
      try_promote_learner create_joiner
  advance o running peers = elim (find_pending_member running) [
    | some m ↦
        if controls c m
        then complete_pending_member env.join c peers m
        else refuse (ApiError.other (foreign_pending m))
    | none ↦
        let tried = try_promote_learner env.voters peers in
        elim tried.1 [ some r ↦ (map promote tried.0, ok r) | none ↦ create_joiner o peers ]
  ]

  -- With no connection or no list, the step is tried again.
  unfoldable pub grow : ObservedClusterSpec X → List (EtcdMember X) → Step X
  unfolding advance dial member_endpoints wait
  grow o running =
      let endpoints = member_endpoints (cluster_client_scheme c) running c.meta.namespace in
      elim (dial env.client env.factory c endpoints) [
        | some _ ↦ wait 10
        | none ↦ elim env.voters.member_list [
          | none ↦ wait 10
          | some peers ↦ advance o running peers
        ]
      ]

  unfoldable pub scale_up : ObservedClusterSpec X → List (EtcdMember X) → Step X
  unfolding grow filter_running_members find_dormant_member ask wait
  scale_up o members = elim (find_dormant_member members) [
    | some m ↦ ask (wake m.meta.name) env.wake (wait 5)
    | none ↦ grow o (filter_running_members members)
  ]
