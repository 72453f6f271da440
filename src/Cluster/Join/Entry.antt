-- ===== src/Cluster/Join/Entry.antt =====
-- The --initial-cluster of a joining member has an entry for that member
-- (completePendingMember of controllers/etcdcluster_controller.go).
use etcd_operator.Prelude.{
  String, ◌<>◌, true, false, List, [], ◌∷◌, some, ◌≡◌, ◌≢◌, ◌⊎◌, inl, inr, ◌==◌, string_eq, arith,
  Has, head, tail, refl, sym, subst, Option-cases,
}
use etcd_operator.Prelude.Sorted.{Has-sort_by}
use etcd_operator.Prelude.Text.{str_ltb}
use etcd_operator.Api.Cluster.{EtcdCluster}
use etcd_operator.Api.Member.{EtcdMember}
use etcd_operator.Naming.{member_service_name}
use etcd_operator.Naming.PeerUrl.{lacks, member_name_from_peer_url-peer_url}
use etcd_operator.Cluster.Voters.{Peer, url_of}
use etcd_operator.Cluster.Join.{initial_part, initial_parts, sorted_parts}

initial_parts-Has :
    (p : Peer) (s : String) (peers : List Peer)
    → initial_part p ≡ some s
    → Has p peers
    → Has s (initial_parts peers)
unfolding initial_parts
initial_parts-Has p s [] made h = elim h [ ]
initial_parts-Has p s (q ∷ qs) made (head same) =
    let here : initial_parts (q ∷ qs) ≡ s ∷ initial_parts qs = ground (arith, same) in
    subst (λ l. Has s l) (sym here) (head refl)
initial_parts-Has p s (q ∷ qs) made (tail later) = elim (Option-cases (initial_part q)) [
  | inl skipped ↦
      let here : initial_parts (q ∷ qs) ≡ initial_parts qs = ground arith in
      subst (λ l. Has s l) (sym here) (initial_parts-Has p s qs made later)
  | inr (t, kept) ↦
      let here : initial_parts (q ∷ qs) ≡ t ∷ initial_parts qs = ground arith in
      subst (λ l. Has s l) (sym here) (tail (initial_parts-Has p s qs made later))
]

-- etcd's entry of a member: its peer URL comes first, and its name is not known yet or its own.
pub record IsEntry {X : Type 0} (c : EtcdCluster X) (m : EtcdMember X) (p : Peer) : Type 0 where
  pub more : List String
  pub urls : p.peer_urls ≡ url_of c m ∷ more
  pub name : (p.name ≡ "") ⊎ (p.name ≡ m.meta.name)

-- A DNS label as the API server makes names: not empty, with neither a dot nor a colon.
pub record IsLabel (n : String) : Type 0 where
  pub full : n ≢ ""
  pub no_dot : lacks "." n ≡ true
  pub no_colon : lacks ":" n ≡ true

-- When etcd lists the joining member, even under no name yet, the entries of its --initial-cluster
-- have one with its own name and its own peer URL, so that etcd finds itself in it.
pub sorted_parts-Has :
    {X : Type 0} (c : EtcdCluster X) (m : EtcdMember X) (peers : List Peer) (p : Peer)
    → IsLabel m.meta.name
    → Has p peers
    → IsEntry c m p
    → Has (m.meta.name <> ("=" <> url_of c m)) (sorted_parts peers)
unfolding sorted_parts initial_part url_of
sorted_parts-Has c m peers p label listed entry =
    let back =
      member_name_from_peer_url-peer_url c m.meta.name (member_service_name m) c.meta.namespace
        label.no_colon label.no_dot in
    let named : (m.meta.name == "") ≡ false = ground (arith, label.full) in
    let part : initial_part p ≡ some (m.meta.name <> ("=" <> url_of c m)) = elim entry.name [
      | inl unnamed ↦ ground (arith, entry.urls, back)
      | inr known ↦ ground (arith, entry.urls)
    ] in
    Has-sort_by str_ltb (m.meta.name <> ("=" <> url_of c m)) (initial_parts peers)
      (initial_parts-Has p (m.meta.name <> ("=" <> url_of c m)) peers part listed)
