-- ===== src/Api/Policy.antt =====
-- api/v1alpha2/etcddefragpolicy_types.go. A deadline is a number of seconds.
use etcd_operator.Prelude.{ℕ, String, Bool, List, Option}
use etcd_operator.Api.Meta.{Condition, ObjectMeta}
use etcd_operator.Api.Defrag.{DefragRule}

-- `unset` is the empty policy.
pub data ConcurrencyPolicy : Type 0 where
  unset allow_concurrent forbid_concurrent : ConcurrencyPolicy

-- An empty `timezone` is an absent one.
pub record DefragSchedule : Type 0 where
  pub cron : String
  pub timezone : String

pub record DefragPolicySpec : Type 0 where
  pub cluster_ref : String
  pub schedule : DefragSchedule
  pub suspend : Option Bool
  pub concurrency_policy : ConcurrencyPolicy
  pub starting_deadline_seconds : Option ℕ
  pub history_limit : Option ℕ
  pub rule : Option DefragRule
  pub ttl_seconds_after_finished : Option ℕ

-- `active` holds the names of the references.
pub record DefragPolicyStatus : Type 0 where
  pub last_schedule_time : Option ℕ
  pub last_successful_time : Option ℕ
  pub active : List String
  pub conditions : List Condition

pub record EtcdDefragPolicy : Type 0 where
  pub meta : ObjectMeta
  pub spec : DefragPolicySpec
  pub status : DefragPolicyStatus
