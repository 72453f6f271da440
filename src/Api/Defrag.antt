-- ===== src/Api/Defrag.antt =====
-- api/v1alpha2/etcddefrag_types.go. Sizes are int64 byte counts.
use etcd_operator.Prelude.{ℕ, String, Bool, List, Option}
use etcd_operator.Prelude.Int.{ℤ}
use etcd_operator.Api.Meta.{Condition, ObjectMeta}

pub record DefragRule : Type 0 where
  pub all : Bool
  pub free_space_above : Option ℤ
  pub quota_usage_above : String
  pub min_reclaim : Option ℤ

pub record DefragSpec : Type 0 where
  pub cluster_ref : String
  pub rule : Option DefragRule
  pub ttl_seconds_after_finished : Option ℕ

-- `unset` is the empty phase of a fresh object.
pub data Phase : Type 0 where
  unset pending running complete failed : Phase

pub data DefragOutcome : Type 0 where
  pending skipped defragmented failed : DefragOutcome

pub data MemberRole : Type 0 where
  leader follower : MemberRole

pub record MemberDefragStatus : Type 0 where
  pub name : String
  pub role : MemberRole
  pub outcome : DefragOutcome
  pub reason : String
  pub db_size_before : ℕ
  pub db_size_after : ℕ
  pub reclaimed_bytes : ℕ
  pub finished_at : Option ℕ

pub record DefragStatus : Type 0 where
  pub phase : Phase
  pub started_at : Option ℕ
  pub completed_at : Option ℕ
  pub defragmented : ℕ
  pub members : List MemberDefragStatus
  pub conditions : List Condition

pub record EtcdDefrag : Type 0 where
  pub meta : ObjectMeta
  pub spec : DefragSpec
  pub status : DefragStatus
