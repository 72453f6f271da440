-- ===== src/Defrag/Gate.antt =====
-- clusterDefragHealthy and blockingStatusError of controllers/etcddefrag_controller.go.
use etcd_operator.Prelude.{
  ℕ, String, ◌<>◌, ◌||◌, not, List, [], ◌∷◌, Option, none, some, ◌≡◌, refl, ◌≢◌, ◌==◌, nat_eq,
  if◌then◌else◌, length, All, arith, find?, Option-cases, inl, inr, ◌⊎◌, ◌↔◌,
}
use etcd_operator.Prelude.Text.{contains, decimal}
use etcd_operator.Api.Cluster.{EtcdCluster}
use etcd_operator.Api.Member.{EtcdMember}
use etcd_operator.Defrag.World.{EtcdStatus, MemberBackend}

-- The first reported error that is no NOSPACE alarm.
unfoldable pub blocking_status_error : List String → Option String
blocking_status_error errs = find? (λ e. not (contains e "alarm:NOSPACE")) errs

module _ {X : Type 0} where
  unfoldable pub desired_members : EtcdCluster X → ℕ
  desired_members c = elim c.status.observed [ none ↦ 0 | some o ↦ o.replicas ]

  -- The loop over the backends, from the leader agreed on so far; `none` means healthy.
  agree : ℕ → List (MemberBackend X) → Option String
  agree leader [] = none
  agree leader (b ∷ bs) = elim b.status [
    | none ↦ some ("member " <> (b.member.meta.name <> " is unreachable"))
    | some s ↦ elim (blocking_status_error s.errors) [
      | some e ↦ some ("member " <> (b.member.meta.name <> (" reports: " <> e)))
      | none ↦
          let rest = agree s.leader bs in
          if s.leader == 0
          then some ("member " <> (b.member.meta.name <> " reports no leader"))
          else if leader == 0 || s.leader == leader
          then rest
          else some "members disagree on the leader"
    ]
  ]

  -- `none` when a defragmentation is safe, otherwise the reason to defer.
  unfoldable pub cluster_defrag_healthy :
      EtcdCluster X → List (EtcdMember X) → List (MemberBackend X) → Option String
  unfolding agree blocking_status_error desired_members
  cluster_defrag_healthy c running bs =
      let desired = desired_members c in
      if desired == 0 || not (length running == desired)
      then some
          ("have " <> (decimal (length running) <> (" running members, want " <> decimal desired)))
      else agree 0 bs

  -- A member that answers, reports nothing but NOSPACE alarms, and follows the leader `l`.
  pub record Sound (l : ℕ) (b : MemberBackend X) : Type 0 where
    pub answer : EtcdStatus
    pub reachable : b.status ≡ some answer
    pub unblocked : blocking_status_error answer.errors ≡ none
    pub follows : answer.leader ≡ l

  agree-Sound : (l : ℕ) (bs : List (MemberBackend X)) → l ≢ 0 → agree l bs ≡ none → All (Sound l) bs
  unfolding agree
  agree-Sound l [] n h = tt
  agree-Sound l (b ∷ bs) n h = ground (arith, agree-Sound l bs n)

  Sound-agree :
      (l m : ℕ) (bs : List (MemberBackend X))
      → m ≢ 0
      → (l ≡ 0) ⊎ (l ≡ m)
      → All (Sound m) bs
      → agree l bs ≡ none
  unfolding agree
  Sound-agree l m [] n e h = refl
  Sound-agree l m (b ∷ bs) n e h = ground (arith, Sound-agree h.0.answer.leader m bs n)

  agree_zero-Sound :
      (bs : List (MemberBackend X)) → agree 0 bs ≡ none → (l : ℕ) × (l ≢ 0) × All (Sound l) bs
  unfolding agree
  agree_zero-Sound [] h = (1, omega arith, tt)
  agree_zero-Sound (b ∷ bs) h = elim (Option-cases b.status) [
    | inl e ↦ absurd (ground arith)
    | inr (s, e) ↦
        let n : s.leader ≢ 0 = λ z. ground arith in
        (s.leader, n, (ground arith, agree-Sound s.leader bs n (ground arith)))
  ]

  -- What makes a defragmentation safe: every desired member is running, and all answer, report
  -- nothing but NOSPACE, and follow one leader.
  abbrev pub IsSafe : EtcdCluster X → List (EtcdMember X) → List (MemberBackend X) → Type 0
  IsSafe c running bs =
      (desired_members c ≢ 0)
      × (length running ≡ desired_members c)
      × ((l : ℕ) × (l ≢ 0) × All (Sound l) bs)

  -- The health gate opens exactly on the clusters that are safe to defragment.
  pub cluster_defrag_healthy-IsSafe :
      (c : EtcdCluster X) (running : List (EtcdMember X)) (bs : List (MemberBackend X))
      → (cluster_defrag_healthy c running bs ≡ none) ↔ IsSafe c running bs
  unfolding cluster_defrag_healthy
  cluster_defrag_healthy-IsSafe c running bs = (
    λ h. (λ e. ground arith, ground arith, agree_zero-Sound bs (ground arith)),
    λ s. ground (arith, Sound-agree 0 s.2.0 bs s.2.1 (inl refl) s.2.2),
  )
