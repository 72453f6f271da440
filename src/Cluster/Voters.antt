-- ===== src/Cluster/Voters.antt =====
-- etcd's member list against the members: syncIsVoter, tryPromoteLearner and promotePendingLearner
-- of controllers/etcdcluster_controller.go.
use etcd_operator.Prelude.{
  ℕ, String, Bool, true, false, ◌&&◌, not, List, [], ◌∷◌, Option, none, some, map, ◌≡◌, refl, ◌==◌,
  string_eq, bool_eq, if◌then◌else◌, any, find?, arith, All, Has, head, tail, subst, ◌⊎◌, inl, inr,
  Bool-cases, Option-cases, sym, ap, ◌∙◌, ◌*◌,
}
use etcd_operator.Api.Meta.{Result, requeue_now, after, second, ApiError}
use etcd_operator.Api.Cluster.{EtcdCluster}
use etcd_operator.Api.Member.{EtcdMember}
use etcd_operator.Naming.{peer_url, cluster_peer_scheme, member_service_name}
use etcd_operator.Members.{is_deleting}

-- The fields of etcd's Member that are read.
pub record Peer : Type 0 where
  pub id : ℕ
  pub name : String
  pub peer_urls : List String
  pub is_learner : Bool

-- Whether some listed peer, a voter or a learner as asked, has the URL.
unfoldable pub listed_as : Bool → List Peer → String → Bool
listed_as learner peers url =
    any (λ p. p.is_learner == learner && any (λ u. u == url) p.peer_urls) peers

-- The answers of the status patch of a member, by name, of MemberList and of MemberPromote.
pub record Env : Type 0 where
  pub patch_status : String → Option ApiError
  pub member_list : Option (List Peer)
  pub member_promote : ℕ → Option String

module _ {X : Type 0} (c : EtcdCluster X) where
  unfoldable pub url_of : EtcdMember X → String
  url_of m = peer_url (cluster_peer_scheme c) m.meta.name (member_service_name m) c.meta.namespace

  -- What the list says of a member, if anything: voters first.
  unfoldable pub want_voter : List Peer → EtcdMember X → Option Bool
  unfolding url_of listed_as
  want_voter peers m =
      if listed_as false peers (url_of m)
      then some true
      else (if listed_as true peers (url_of m) then some false else none)

  abbrev pub with_voter : Bool → EtcdMember X → EtcdMember X
  with_voter v m = record m { status = record (m.status) { is_voter = v } }

  -- Whether a member is patched, and to what.
  unfoldable pub change_of : List Peer → EtcdMember X → Option Bool
  unfolding want_voter
  change_of peers m = if is_deleting m then none else (elim (want_voter peers m) [
    | none ↦ none
    | some v ↦ if m.status.is_voter == v then none else some v
  ])

-- The members as the API server holds them afterwards, and the error that ended the loop.
unfoldable pub sync_is_voter :
    {X : Type 0}
    → Env
    → EtcdCluster X
    → List Peer
    → List (EtcdMember X)
    → List (EtcdMember X) × Option ApiError
unfolding change_of
sync_is_voter env c peers [] = ([], none)
sync_is_voter env c peers (m ∷ ms) =
    let rest = sync_is_voter env c peers ms in
    elim (change_of c peers m) [
      | none ↦ (m ∷ rest.0, rest.1)
      | some v ↦ elim (env.patch_status m.meta.name) [
        | some e ↦ (m ∷ ms, some e)
        | none ↦ (with_voter c v m ∷ rest.0, rest.1)
      ]
    ]

-- The members as the pass itself holds them afterwards: a failed patch has set the vote in memory.
unfoldable pub votes_in_memory :
    {X : Type 0} → Env → EtcdCluster X → List Peer → List (EtcdMember X) → List (EtcdMember X)
unfolding change_of
votes_in_memory env c peers [] = []
votes_in_memory env c peers (m ∷ ms) =
    let rest = votes_in_memory env c peers ms in
    elim (change_of c peers m) [
      | none ↦ m ∷ rest
      | some v ↦ elim (env.patch_status m.meta.name) [
        | some _ ↦ with_voter c v m ∷ ms
        | none ↦ with_voter c v m ∷ rest
      ]
    ]

-- The status patches that the loop asks for: the member's name and its vote.
unfoldable pub vote_patches :
    {X : Type 0} → Env → EtcdCluster X → List Peer → List (EtcdMember X) → List (String × Bool)
unfolding change_of
vote_patches env c peers [] = []
vote_patches env c peers (m ∷ ms) =
    let rest = vote_patches env c peers ms in
    elim (change_of c peers m) [
      | none ↦ rest
      | some v ↦ elim (env.patch_status m.meta.name) [
        | some _ ↦ (m.meta.name, v) ∷ []
        | none ↦ (m.meta.name, v) ∷ rest
      ]
    ]

-- The IDs that MemberPromote was called with, and the requeue.
abbrev pub Promotion : Type 0
Promotion = List ℕ × Option Result

unfoldable pub try_promote_learner : Env → List Peer → Promotion
try_promote_learner env [] = ([], none)
try_promote_learner env (p ∷ ps) =
    let rest = try_promote_learner env ps in
    if not p.is_learner then rest else (elim (env.member_promote p.id) [
      | some e ↦ (p.id ∷ [], some (after (5 * second)))
      | none ↦ (p.id ∷ [], some requeue_now)
    ])

-- A sync that fails is only logged.
unfoldable pub promote_pending_learner :
    {X : Type 0} → Env → EtcdCluster X → List (EtcdMember X) → List (EtcdMember X) × Promotion
unfolding sync_is_voter try_promote_learner
promote_pending_learner env c ms = elim env.member_list [
  | none ↦ (ms, ([], some (after (10 * second))))
  | some peers ↦ ((sync_is_voter env c peers ms).0, try_promote_learner env peers)
]

-- What etcd's list makes of a member: its vote when it is not being deleted and its peer URL is
-- listed, a voter's entry counting before a learner's.
abbrev pub synced : {X : Type 0} → EtcdCluster X → List Peer → EtcdMember X → EtcdMember X
synced c peers m =
    with_voter c
      (if is_deleting m
        then m.status.is_voter
        else (if listed_as false peers (url_of c m)
            then true
            else m.status.is_voter && not (listed_as true peers (url_of c m))))
      m

vote-change_of :
    {X : Type 0} (c : EtcdCluster X) (peers : List Peer) (m : EtcdMember X)
    → (synced c peers m).status.is_voter
      ≡ elim (change_of c peers m) [ none ↦ m.status.is_voter | some v ↦ v ]
unfolding change_of want_voter
vote-change_of c peers m = ground arith

cons_cong : {A : Type 0} {a b : A} {xs ys : List A} → a ≡ b → xs ≡ ys → (a ∷ xs) ≡ (b ∷ ys)
cons_cong p q = cc

-- When no patch fails, each member's vote afterwards is the one that etcd's list gives its peer
-- URL; a member that is being deleted, or that the list does not have, keeps its own.
pub sync_is_voter-synced :
    {X : Type 0} (env : Env) (c : EtcdCluster X) (peers : List Peer) (ms : List (EtcdMember X))
    → (sync_is_voter env c peers ms).1 ≡ none
    → (sync_is_voter env c peers ms).0 ≡ map (synced c peers) ms
unfolding sync_is_voter
sync_is_voter-synced env c peers [] h = refl
sync_is_voter-synced env c peers (m ∷ ms) h =
    let vote = vote-change_of c peers m in
    elim (Option-cases (change_of c peers m)) [
      | inl same ↦
          let keep : (synced c peers m).status.is_voter ≡ m.status.is_voter =
            ground (arith, vote) in
          let head : synced c peers m ≡ m = ap (λ v. with_voter c v m) keep in
          let out : (sync_is_voter env c peers (m ∷ ms)).0 ≡ m ∷ (sync_is_voter env c peers ms).0 =
            ground arith in
          let fine : (sync_is_voter env c peers ms).1 ≡ none = ground arith in
          out ∙ cons_cong (sym head) (sync_is_voter-synced env c peers ms fine)
      | inr (v, other) ↦
          let set : (synced c peers m).status.is_voter ≡ v = ground (arith, vote) in
          let head : synced c peers m ≡ with_voter c v m = ap (λ u. with_voter c u m) set in
          let out : (sync_is_voter env c peers (m ∷ ms)).0
              ≡ with_voter c v m ∷ (sync_is_voter env c peers ms).0 =
            ground arith in
          let fine : (sync_is_voter env c peers ms).1 ≡ none = ground arith in
          out ∙ cons_cong (sym head) (sync_is_voter-synced env c peers ms fine)
    ]

-- Nothing without a learner, and otherwise the first one is promoted.
abbrev pub Promotes : Env → List Peer → Promotion → Type 0
Promotes env peers r =
    ((find? (λ p. p.is_learner) peers ≡ none) × (r ≡ ([], none)))
    ⊎ ((p : Peer) × (find? (λ p. p.is_learner) peers ≡ some p)
        × (r.0 ≡ p.id ∷ [])
        × (((env.member_promote p.id ≡ none) × (r.1 ≡ some requeue_now))
            ⊎ ((e : String) × (env.member_promote p.id ≡ some e)
                × (r.1 ≡ some (after (5 * second))))))

-- A patch that etcd's list justifies: it changes the vote of a member to what the list makes of it.
pub record IsVote {X : Type 0} (c : EtcdCluster X) (peers : List Peer) (ms : List (EtcdMember X))
    (vote : String × Bool) : Type 0 where
  pub of : EtcdMember X
  pub member : Has of ms
  pub named : vote.0 ≡ of.meta.name
  pub listed : (synced c peers of).status.is_voter ≡ vote.1
  pub changes : (of.status.is_voter == vote.1) ≡ false

IsVote-tail :
    {X : Type 0} (c : EtcdCluster X) (peers : List Peer) (m : EtcdMember X)
    (ms : List (EtcdMember X)) (votes : List (String × Bool))
    → All (IsVote c peers ms) votes
    → All (IsVote c peers (m ∷ ms)) votes
IsVote-tail c peers m ms [] h = tt
IsVote-tail c peers m ms (v ∷ votes) h = (
  record {
    of = h.0.of;
    member = tail h.0.member;
    named = h.0.named;
    listed = h.0.listed;
    changes = h.0.changes;
  },
  IsVote-tail c peers m ms votes h.1,
)

changes-change_of :
    {X : Type 0} (c : EtcdCluster X) (peers : List Peer) (m : EtcdMember X) (v : Bool)
    → change_of c peers m ≡ some v
    → (m.status.is_voter == v) ≡ false
unfolding change_of want_voter
changes-change_of c peers m v h = ground arith

pub vote_patches-IsVote :
    {X : Type 0} (env : Env) (c : EtcdCluster X) (peers : List Peer) (ms : List (EtcdMember X))
    → All (IsVote c peers ms) (vote_patches env c peers ms)
unfolding vote_patches
vote_patches-IsVote env c peers [] = tt
vote_patches-IsVote env c peers (m ∷ ms) =
    let rest = IsVote-tail c peers m ms _ (vote_patches-IsVote env c peers ms) in
    let votes = vote_patches env c peers (m ∷ ms) in
    let to =
      λ (l : List (String × Bool)) (q : votes ≡ l). subst (All (IsVote c peers (m ∷ ms))) (sym q) in
    elim (Option-cases (change_of c peers m)) [
      | inl same ↦ to (vote_patches env c peers ms) (ground arith) rest
      | inr (v, other) ↦
          let set = vote-change_of c peers m in
          let vote : IsVote c peers (m ∷ ms) (m.meta.name, v) = record {
            of = m;
            member = head refl;
            named = refl;
            listed = ground (arith, set);
            changes = changes-change_of c peers m v other;
          } in
          elim (Option-cases (env.patch_status m.meta.name)) [
            | inr (e, failed) ↦ to ((m.meta.name, v) ∷ []) (ground arith) (vote, tt)
            | inl fine ↦
                to ((m.meta.name, v) ∷ vote_patches env c peers ms) (ground arith) (vote, rest)
          ]
    ]

-- A pass promotes the first learner of etcd's list and no other; it comes back at once when etcd has
-- promoted it and after five seconds when etcd has not, and it asks for no requeue when the list has
-- no learner.
pub try_promote_learner-first :
    (env : Env) (peers : List Peer) → Promotes env peers (try_promote_learner env peers)
unfolding try_promote_learner
try_promote_learner-first env [] = inl (refl, refl)
try_promote_learner-first env (p ∷ ps) = elim (Bool-cases p.is_learner) [
  | inl learner ↦ inr (
    p,
    ground arith,
    ground arith,
    (elim (Option-cases (env.member_promote p.id)) [
      | inl fine ↦ inl (fine, ground arith)
      | inr (e, failed) ↦ inr (e, failed, ground arith)
    ]),
  )
  | inr voter ↦ elim (try_promote_learner-first env ps) [
    | inl nobody ↦ inl (ground (arith, nobody.0, nobody.1), ground (arith, nobody.0, nobody.1))
    | inr (q, f, g, inl (fine, k)) ↦ inr (q, ground arith, ground arith, inl (fine, ground arith))
    | inr (q, f, g, inr (e, failed, k)) ↦
        inr (q, ground arith, ground arith, inr (e, failed, ground arith))
  ]
]
