-- ===== src/Defrag/Rule.antt =====
-- defragRuleTriggered, parsePercent and effectiveQuotaBytes of
-- controllers/etcddefrag_controller.go. `over_share` is the comparison of floats, which is exact
-- in no model over integers and so stays a parameter.
use etcd_operator.Prelude.{
  ℕ, ◌*◌, ◌≤◌, String, Bool, true, false, ◌&&◌, Option, none, some, ◌≡◌, ◌⊎◌, inl, inr, ltb, leb,
  Bool-cases, Option-cases, if◌then◌else◌, arith,
}
use etcd_operator.Prelude.Int.{ℤ, pos, negsuc, sub_ℕ, ltb_ℤ, leb_ℤ, ◌<ℤ◌, ◌≤ℤ◌}
use etcd_operator.Prelude.Text.{atoi, trim_last}
use etcd_operator.Api.Cluster.{EtcdCluster}
use etcd_operator.Api.Defrag.{DefragRule}

abbrev pub default_free_space : ℤ
default_free_space = pos (200 * 1048576)

abbrev pub default_min_reclaim : ℤ
default_min_reclaim = pos (32 * 1048576)

abbrev pub default_quota_bytes : ℤ
default_quota_bytes = pos 2147483648

in_percent_range : ℤ → Option ℕ
in_percent_range (negsuc _) = none
in_percent_range (pos n) = if leb 1 n && ltb n 100 then some n else none

-- The percentage, which the source goes on to divide by 100.
unfoldable pub parse_percent : String → Option ℕ
unfolding in_percent_range
parse_percent s = elim (atoi (trim_last "%" s)) [ none ↦ none | some n ↦ in_percent_range n ]

unfoldable pub effective_quota_bytes : {X : Type 0} → EtcdCluster X → ℤ
effective_quota_bytes c = elim c.status.observed [
  | none ↦ default_quota_bytes
  | some o ↦ elim o.options [
    | none ↦ default_quota_bytes
    | some opts ↦ elim opts.quota_backend_bytes [
      | none ↦ default_quota_bytes
      | some q ↦ if ltb_ℤ (pos 0) q then q else default_quota_bytes
    ]
  ]
]

abbrev or_default : Option ℤ → ℤ → ℤ
or_default none d = d
or_default (some v) d = v

abbrev pub free_of : Option DefragRule → ℤ
free_of none = default_free_space
free_of (some r) = or_default r.free_space_above default_free_space

abbrev pub min_reclaim_of : Option DefragRule → ℤ
min_reclaim_of none = default_min_reclaim
min_reclaim_of (some r) = or_default r.min_reclaim default_min_reclaim

abbrev pub quota_percent_of : Option DefragRule → Option ℕ
quota_percent_of none = none
quota_percent_of (some r) = parse_percent r.quota_usage_above

abbrev pub is_unconditional : Option DefragRule → Bool
is_unconditional none = false
is_unconditional (some r) = r.all

module _ (over_share : (db_size percent : ℕ) (quota : ℤ) → Bool) where
  quota_arm : Option DefragRule → ℕ → ℤ → ℤ → Bool
  quota_arm rule db_size reclaimable quota = elim (quota_percent_of rule) [
    | none ↦ false
    | some p ↦
        ltb_ℤ (pos 0) quota && over_share db_size p quota && leb_ℤ (min_reclaim_of rule) reclaimable
  ]

  -- The arms of a rule that is not unconditional, at what can be reclaimed.
  conditional_arms : Option DefragRule → ℕ → ℤ → ℤ → Bool
  unfolding quota_arm
  conditional_arms rule db_size reclaimable quota =
      if ltb_ℤ (free_of rule) reclaimable then true else quota_arm rule db_size reclaimable quota

  -- Whether to defragment; the reason when not is always "BelowThreshold".
  unfoldable pub defrag_rule_triggered : Option DefragRule → ℕ → ℕ → ℤ → Bool
  unfolding conditional_arms
  defrag_rule_triggered rule db_size db_size_in_use quota =
      if is_unconditional rule
      then true
      else conditional_arms rule db_size (sub_ℕ db_size db_size_in_use) quota

  abbrev pub WorthIt : Option DefragRule → ℕ → ℤ → ℤ → Type 0
  WorthIt rule db_size reclaimable quota =
      (free_of rule <ℤ reclaimable)
      ⊎ ((p : ℕ) × (quota_percent_of rule ≡ some p)
          × (pos 0 <ℤ quota)
          × (over_share db_size p quota ≡ true)
          × (min_reclaim_of rule ≤ℤ reclaimable))

  conditional_arms-WorthIt :
      (rule : Option DefragRule) (db_size : ℕ) (r quota : ℤ)
      → conditional_arms rule db_size r quota ≡ true
      → WorthIt rule db_size r quota
  unfolding conditional_arms
  conditional_arms-WorthIt rule db_size r quota h = elim (Option-cases (quota_percent_of rule)) [
    | inl e ↦ inl (ground arith)
    | inr (p, e) ↦ elim (Bool-cases (ltb_ℤ (free_of rule) r)) [
      | inl f ↦ inl (ground arith)
      | inr f ↦ inr (p, e, ground arith, ground arith, ground arith)
    ]
  ]

  -- A rule that is not unconditional and whose `minReclaim` is at most its `freeSpaceAbove`, the
  -- defaults counted in, never fires on a backend that would reclaim less than `minReclaim`.
  pub defrag_rule_triggered-floor :
      (rule : Option DefragRule) (db_size db_size_in_use : ℕ) (quota : ℤ)
      → is_unconditional rule ≡ false
      → min_reclaim_of rule ≤ℤ free_of rule
      → defrag_rule_triggered rule db_size db_size_in_use quota ≡ true
      → min_reclaim_of rule ≤ℤ sub_ℕ db_size db_size_in_use
  unfolding defrag_rule_triggered
  defrag_rule_triggered-floor rule db_size used quota u below h =
      elim (conditional_arms-WorthIt rule db_size (sub_ℕ db_size used) quota (rw u at h)) [
        | inl free ↦ ground arith
        | inr (p, share, some_quota, over, enough) ↦ enough
      ]

  conditional_arms_mono :
      (rule : Option DefragRule) (db_size : ℕ) (r r' quota : ℤ)
      → r ≤ℤ r'
      → conditional_arms rule db_size r quota ≡ true
      → conditional_arms rule db_size r' quota ≡ true
  unfolding conditional_arms
  conditional_arms_mono rule db_size r r' quota le h = ground arith

  sub_ℕ_mono : (a b c : ℕ) → c ≤ b → sub_ℕ a b ≤ℤ sub_ℕ a c
  sub_ℕ_mono a b c h = ground arith

  -- A backend of the same size with less in use triggers every rule that one with more triggers.
  pub defrag_rule_triggered_mono :
      (rule : Option DefragRule) (db_size used used' : ℕ) (quota : ℤ)
      → used' ≤ used
      → defrag_rule_triggered rule db_size used quota ≡ true
      → defrag_rule_triggered rule db_size used' quota ≡ true
  unfolding defrag_rule_triggered
  defrag_rule_triggered_mono rule db_size used used' quota le h =
      elim (Bool-cases (is_unconditional rule)) [
        | inl e ↦ rw e
        | inr e ↦ rw e (
            conditional_arms_mono rule db_size (sub_ℕ db_size used) (sub_ℕ db_size used') quota
              (sub_ℕ_mono db_size used used' le) (rw e at h))
      ]
