-- ===== src/Cluster/Reconcile/Growth.antt =====
-- The calls of scaleUp of controllers/etcdcluster_controller.go follow a script.
use etcd_operator.Prelude.{
  ℕ, String, Has, any, any-Has, Has-any, map, ◌==◌, Option, some, true, List, [], ◌∷◌, none, ◌≡◌,
  refl, ◌⊎◌, inl, inr, ◌<◌, nat_eq, string_eq, length, arith, subst, sym, ◌∙◌, Bool-cases,
  Option-cases,
}
use etcd_operator.Api.Meta.{Answer-cases, Result}
use etcd_operator.Api.Cluster.{EtcdCluster, ObservedClusterSpec}
use etcd_operator.Api.Member.{EtcdMember}
use etcd_operator.Members.{
  filter_active_members, filter_running_members, find_dormant_member, member_endpoints,
}
use etcd_operator.Naming.{cluster_client_scheme}
use etcd_operator.Client.{dial}
use etcd_operator.Cluster.Calls.{
  Call, ask, refuse, wait, create_member, patch_member, wake, add_learner, promote,
}
use etcd_operator.Cluster.Target.{all_members_ready}
use etcd_operator.Cluster.Voters.{
  Env as VoterEnv, Promotes, Peer, url_of, try_promote_learner-first,
}
use etcd_operator.Cluster.Bootstrap.{Env as BootstrapEnv, controls}
use etcd_operator.Cluster.Join.{
  Env as JoinEnv, find_pending_member, registered, joined, publish, complete_pending_member,
}
use etcd_operator.Cluster.ScaleUp.{
  Env as ScaleUpEnv, new_member, create_joiner, advance, grow, scale_up,
}
use etcd_operator.Cluster.Reconcile.Script.{
  IsJoin, IsGrowth, IsPromotion, IsStable, Lists, pending_of, dormant_of, Script,
}

module _ {X : Type 0} (c : EtcdCluster X) where
  publish-calls :
      (env : JoinEnv) (peers : List Peer) (m : EtcdMember X)
      → (publish env c peers m).0 ≡ patch_member (joined c peers m) ∷ []
  unfolding publish ask wait
  publish-calls env peers m = elim (Option-cases env.patch) [
    | inl fine ↦ ground arith
    | inr (e, failed) ↦ ground arith
  ]

-- Whether some peer has the URL, by the code's test.
registered-Lists :
    (peers : List Peer) (url : String) → registered peers url ≡ true → Lists peers url
unfolding registered
registered-Lists peers url h =
    let p = any-Has (λ p. any (λ u. u == url) p.peer_urls) peers h in
    let u = any-Has (λ u. u == url) p.0.peer_urls p.2 in
    let same : u.0 ≡ url = ground (arith, u.2) in
    (p.0, p.1, subst (λ v. Has v p.0.peer_urls) same u.1)

Lists-registered :
    (peers : List Peer) (url : String) → Lists peers url → registered peers url ≡ true
unfolding registered
Lists-registered peers url (p, there, listed) =
    let same : (url == url) ≡ true = ground arith in
    Has-any (λ p. any (λ u. u == url) p.peer_urls) p peers there
      (Has-any (λ u. u == url) url p.peer_urls listed same)

module _ {X : Type 0} (env : ScaleUpEnv X) (c : EtcdCluster X) where
  complete-IsJoin :
      (peers : List Peer) (m : EtcdMember X)
      → env.voters.member_list ≡ some peers
      → IsJoin env c m (complete_pending_member env.join c peers m).0
  unfolding complete_pending_member ask
  complete-IsJoin peers m listing =
      let out = (complete_pending_member env.join c peers m).0 in
      let to = λ (calls : List (Call X)) (q : out ≡ calls). subst (IsJoin env c m) (sym q) in
      elim (Bool-cases (registered peers (url_of c m))) [
        | inl there ↦
            to (patch_member (joined c peers m) ∷ [])
              (ground (arith, publish-calls c env.join peers m))
              (IsJoin.known peers listing (registered-Lists peers (url_of c m) there))
        | inr absent ↦
            let unlisted : ¬ Lists peers (url_of c m) =
              λ l. let r = Lists-registered peers (url_of c m) l in ground arith in
            elim (Option-cases (env.join.add_learner (url_of c m))) [
              | inl failed ↦
                  to (add_learner (url_of c m) ∷ []) (ground arith)
                    (IsJoin.refused peers listing unlisted)
              | inr (answered, fine) ↦
                  to (add_learner (url_of c m) ∷ patch_member (joined c answered m) ∷ [])
                    (ground (arith, publish-calls c env.join answered m))
                    (IsJoin.added peers answered listing unlisted fine)
            ]
      ]

pub Promotes-IsPromotion :
    {X : Type 0} (voters : VoterEnv) (peers : List Peer) (r : List ℕ × Option Result)
    → Promotes voters peers r
    → IsPromotion {X = X} peers (map promote r.0)
Promotes-IsPromotion {X} voters peers r (inl (absent, nothing)) =
    subst (λ s. IsPromotion {X = X} peers (map promote s.0)) (sym nothing)
      (IsPromotion.nobody absent)
Promotes-IsPromotion {X} voters peers r (inr (p, found, asked, more)) =
    subst (λ ids. IsPromotion {X = X} peers (map promote ids)) (sym asked)
      (IsPromotion.first p found)

-- The running members of the active ones are the running ones.
pub running-active :
    {X : Type 0} (ms : List (EtcdMember X))
    → filter_running_members (filter_active_members ms) ≡ filter_running_members ms
unfolding filter_running_members filter_active_members
running-active [] = refl
running-active (m ∷ ms) = ground (arith, running-active ms)

module _ {X : Type 0} (env : ScaleUpEnv X) (c : EtcdCluster X) (o : ObservedClusterSpec X) where
  joiner-IsGrowth :
      (peers : List Peer)
      → env.voters.member_list ≡ some peers
      → ((create_joiner env c o peers).0 ≡ []) ⊎ IsGrowth env c o (create_joiner env c o peers).0
  unfolding create_joiner ask refuse
  joiner-IsGrowth peers listing = elim (Option-cases env.set_owner) [
    | inr (e, failed) ↦ inl (ground arith)
    | inl owned ↦ elim (Answer-cases (env.create (new_member c o))) [
      | inr (e, failed) ↦
          let q : (create_joiner env c o peers).0 ≡ create_member (new_member c o) ∷ [] =
            ground arith in
          inr (subst (IsGrowth env c o) (sym q) IsGrowth.uncreated)
      | inl (m, made) ↦
          let q : (create_joiner env c o peers).0
              ≡ create_member (new_member c o) ∷ (complete_pending_member env.join c peers m).0 =
            ground arith in
          inr (
            subst (IsGrowth env c o) (sym q)
              (IsGrowth.created m made (complete-IsJoin env c peers m listing)))
    ]
  ]

  -- Room for a new member, when none is parked or half made.
  abbrev pub HasRoom : List (EtcdMember X) → Type 0
  HasRoom listed =
      dormant_of listed ≡ none
      → pending_of listed ≡ none
      → (length (filter_running_members listed) < o.replicas)
        × (all_members_ready (filter_running_members listed) ≡ true)

module _ {X : Type 0} (boot : BootstrapEnv X) (env : ScaleUpEnv X) (c : EtcdCluster X)
    (o : ObservedClusterSpec X) where
  advance-Script :
      (listed : List (EtcdMember X)) (peers : List Peer)
      → IsStable c listed
      → dormant_of listed ≡ none
      → HasRoom env c o listed
      → env.voters.member_list ≡ some peers
      → Script boot env c o listed (advance env c o (filter_running_members listed) peers).0
  unfolding advance refuse
  advance-Script listed peers stable awake room listing =
      let running = filter_running_members listed in
      let out = (advance env c o running peers).0 in
      let to =
        λ (calls : List (Call X)) (q : out ≡ calls). subst (Script boot env c o listed) (sym q) in
      elim (Option-cases (find_pending_member running)) [
        | inr (m, found) ↦ elim (Bool-cases (controls c m)) [
          | inr foreign ↦ to [] (ground arith) Script.idle
          | inl ours ↦
              to (complete_pending_member env.join c peers m).0 (ground arith)
                (Script.completing m stable found ours (complete-IsJoin env c peers m listing))
        ]
        | inl whole ↦ elim (try_promote_learner-first env.voters peers) [
          | inr (p, learner, asked, more) ↦
              let space = room awake whole in
              to (promote p.id ∷ []) (ground (arith, asked, more)) (
                Script.promoting peers stable awake whole space.0 listing
                  (IsPromotion.first p learner))
          | inl (nobody, nothing) ↦
              let joining : out ≡ (create_joiner env c o peers).0 = ground (arith, nothing) in
              elim (joiner-IsGrowth env c o peers listing) [
                | inl idle ↦ to [] (joining ∙ idle) Script.idle
                | inr grown ↦
                    let space = room awake whole in
                    to (create_joiner env c o peers).0 joining
                      (Script.growing peers listing nobody stable awake whole space.0 space.1 grown)
              ]
        ]
      ]

  -- scaleUp, on the active members.
  pub scale_up-Script :
      (listed : List (EtcdMember X))
      → IsStable c listed
      → HasRoom env c o listed
      → Script boot env c o listed (scale_up env c o (filter_active_members listed)).0
  unfolding scale_up grow ask wait
  scale_up-Script listed stable room =
      let active = filter_active_members listed in
      let running = filter_running_members listed in
      let out = (scale_up env c o active).0 in
      let to =
        λ (calls : List (Call X)) (q : out ≡ calls). subst (Script boot env c o listed) (sym q) in
      elim (Option-cases (find_dormant_member active)) [
        | inr (m, parked) ↦ elim (Option-cases env.wake) [
          | inl fine ↦ to (wake m.meta.name ∷ []) (ground arith) (Script.waking m stable parked)
          | inr (e, failed) ↦
              to (wake m.meta.name ∷ []) (ground arith) (Script.waking m stable parked)
        ]
        | inl awake ↦
            let same = running-active listed in
            elim (Option-cases (
              dial env.client env.factory c
                (member_endpoints (cluster_client_scheme c) running c.meta.namespace))) [
                  | inr (e, failed) ↦ to [] (ground (arith, same)) Script.idle
                  | inl dialled ↦ elim (Option-cases env.voters.member_list) [
                    | inl failed ↦ to [] (ground (arith, same)) Script.idle
                    | inr (peers, listing) ↦
                        to (advance env c o running peers).0 (ground (arith, same))
                          (advance-Script listed peers stable awake room listing)
                  ]
                ]
      ]
