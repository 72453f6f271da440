-- ===== src/Cluster/Discovery/Seed.antt =====
-- What tryDiscoverCluster of controllers/etcdcluster_controller.go may latch.
use etcd_operator.Prelude.{
  ℕ, String, true, false, List, [], ◌∷◌, some, ◌≡◌, refl, ◌⊎◌, inl, inr, arith, Bool-cases,
  Option-cases, ◌==◌, string_eq, subst, sym, ap, ◌∙◌, ◌<>◌, ◌*◌,
}
use etcd_operator.Prelude.Text.{quote}
use etcd_operator.Prelude.Hex.{hex16}
use etcd_operator.Api.Meta.{after, second, status_true, Result, ApiError, ok, Answer-cases}
use etcd_operator.Api.Cluster.{EtcdCluster}
use etcd_operator.Api.Member.{EtcdMember}
use etcd_operator.Naming.{cluster_client_scheme}
use etcd_operator.Members.{member_url}
use etcd_operator.Client.{build_operator_tls_config}
use etcd_operator.Cluster.Target.{set_cluster_condition}
use etcd_operator.Cluster.Health.{Draft, put}
use etcd_operator.Cluster.Voters.{Peer}
use etcd_operator.Cluster.Bootstrap.{find_seed}
use etcd_operator.Cluster.Discovery.{
  Env, Step, surface, broken, surface_discovery_error, describes, discovered, latch_id, ask_seed,
  try_discover_cluster,
}

-- The seed was dialled, and etcd's list is a single member that is the seed.
pub record IsDefinitive {X : Type 0} (env : Env) (c : EtcdCluster X) (members : List (EtcdMember X))
    (id : ℕ) : Type 0 where
  pub seed : EtcdMember X
  pub found : find_seed members ≡ some seed
  pub started : (seed.status.pod_name == "") ≡ false
  pub peer : Peer
  pub listed : env.member_list ≡ ok (id, peer ∷ [])
  pub ours : describes env c seed peer ≡ true

module _ {X : Type 0} (env : Env) where
  surface-id :
      (c : EtcdCluster X) (d : Draft X) (r : Result)
      → d.0.status.cluster_id ≡ c.status.cluster_id
      → (surface env c d r).0.status.cluster_id ≡ c.status.cluster_id
  unfolding surface
  surface-id c d r same = elim (Option-cases env.update_status) [
    | inl fine ↦ ground arith
    | inr (ApiError.conflict, e) ↦ ground arith
    | inr (ApiError.not_found, e) ↦ ground arith
    | inr (ApiError.other t, e) ↦ ground arith
  ]

  error-id :
      (c : EtcdCluster X) (what : String) (e : ApiError)
      → (surface_discovery_error env c what e).0.status.cluster_id ≡ c.status.cluster_id
  unfolding surface_discovery_error broken set_cluster_condition
  error-id c what e = ground (arith, surface-id c)

  -- What a pass leaves in the status: the ID as it was, or the one of a definitive answer.
  abbrev pub Latches : EtcdCluster X → List (EtcdMember X) → Step X → Type 0
  Latches c members r =
      (r.0.status.cluster_id ≡ c.status.cluster_id)
      ⊎ ((id : ℕ) × IsDefinitive env c members id × (r.0.status.cluster_id ≡ hex16 id))

  latch_id-cases :
      (c : EtcdCluster X) (seed : EtcdMember X) (id : ℕ) (peers : List Peer)
      → ((latch_id env c seed id peers).0 ≡ c)
        ⊎ ((p : Peer) × (peers ≡ p ∷ [])
            × (describes env c seed p ≡ true)
            × ((latch_id env c seed id peers).0.status.cluster_id ≡ hex16 id))
  unfolding latch_id discovered set_cluster_condition
  latch_id-cases c seed id [] = inl refl
  latch_id-cases c seed id (p ∷ q ∷ ps) = inl refl
  latch_id-cases c seed id (p ∷ []) = elim (Bool-cases (describes env c seed p)) [
    | inr stranger ↦ inl (ground arith)
    | inl ours ↦ elim (Option-cases env.update_status) [
      | inr (e, failed) ↦ inl (ground arith)
      | inl fine ↦ inr (p, refl, ours, ground arith)
    ]
  ]

  -- The three failures, and the list.
  ask_seed-Latches :
      (c : EtcdCluster X) (members : List (EtcdMember X)) (seed : EtcdMember X)
      → find_seed members ≡ some seed
      → (seed.status.pod_name == "") ≡ false
      → Latches c members (ask_seed env c seed)
  unfolding ask_seed
  ask_seed-Latches c members seed found started =
      elim (Answer-cases (build_operator_tls_config env.client c)) [
        | inr (e, failed) ↦ inl (ground (arith, error-id c "operator TLS config" e))
        | inl (config, made) ↦
            let endpoint = member_url (cluster_client_scheme c) c.meta.namespace seed in
            elim (Option-cases (env.factory (endpoint ∷ []) config "" "")) [
              | inr (e, failed) ↦
                  inl (ground (arith, error-id c "etcd client construction failed" e))
              | inl dialled ↦ elim (Answer-cases env.member_list) [
                | inr (e, failed) ↦ inl (ground (arith, error-id c "MemberList failed" e))
                | inl ((id, peers), listed) ↦
                    let q : ask_seed env c seed ≡ latch_id env c seed id peers = ground arith in
                    elim (latch_id-cases c seed id peers) [
                      | inl same ↦ inl (ground arith)
                      | inr (p, alone, ours, set) ↦ inr (
                        id,
                        record {
                          seed = seed;
                          found = found;
                          started = started;
                          peer = p;
                          listed = listed ∙ ap (λ ps. ok (id, ps)) alone;
                          ours = ours;
                        },
                        ground arith,
                      )
                    ]
              ]
            ]
      ]

-- The cluster ID is latched only from a definitive answer: the seed has a Pod, etcd lists a single
-- member, and that member has the seed's name or its peer URL. Whatever else happens, and whatever
-- fails, the ID stays as it was.
pub try_discover_cluster-Latches :
    {X : Type 0} (env : Env) (c : EtcdCluster X) (members : List (EtcdMember X))
    → Latches env c members (try_discover_cluster env c members)
unfolding try_discover_cluster set_cluster_condition
try_discover_cluster-Latches env c members = elim (Option-cases (find_seed members)) [
  | inl absent ↦ inl (ground arith)
  | inr (seed, found) ↦ elim (Bool-cases (seed.status.pod_name == "")) [
    | inl waiting ↦
        let d =
          put env.now "Progressing" status_true "WaitingForSeed"
            ("seed member " <> (quote seed.meta.name <> " has no Pod yet")) (c, false) in
        inl (ground (arith, surface-id env c d (after (5 * second)) refl))
    | inr started ↦
        let q : try_discover_cluster env c members ≡ ask_seed env c seed = ground arith in
        subst (Latches env c members) (sym q) (ask_seed-Latches env c members seed found started)
  ]
]
