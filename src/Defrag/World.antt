-- ===== src/Defrag/World.antt =====
-- What one pass of the defrag controller sees and does. The API server, the etcd client and the
-- clock are not part of the program: their answers within a pass are the fields of `Env`.
use etcd_operator.Prelude.{ℕ, String, Bool, false, List, [], Option}
use etcd_operator.Prelude.Int.{ℤ}
use etcd_operator.Api.Meta.{Answer, ApiError}
use etcd_operator.Api.Cluster.{EtcdCluster}
use etcd_operator.Api.Member.{EtcdMember}
use etcd_operator.Api.Defrag.{EtcdDefrag, DefragStatus}

-- The fields of clientv3.StatusResponse that are read. `header` is the answering member's ID.
pub record EtcdStatus : Type 0 where
  pub header : Option ℕ
  pub leader : ℕ
  pub is_learner : Bool
  pub db_size : ℕ
  pub db_size_in_use : ℕ
  pub errors : List String

-- `after` is the DbSize after a successful defrag, when the status read succeeded.
pub record MemberBackend (X : Type 0) : Type 0 where
  pub member : EtcdMember X
  pub endpoint : String
  pub status : Option EtcdStatus
  pub after : Option ℕ

pub data AlarmType : Type 0 where
  nospace corrupt : AlarmType

-- A call that can only fail answers with its error, or `none`.
pub record Env (X : Type 0) : Type 0 where
  pub now : ℕ
  pub get_cluster : String → Answer (EtcdCluster X)
  pub list_runs : Answer (List EtcdDefrag)
  pub list_members : Answer (List (EtcdMember X))
  pub tls_config : Option ApiError
  pub credentials : Option ApiError
  pub dial : List String → Option ApiError
  pub status : String → Option EtcdStatus
  pub status_after : String → Option EtcdStatus
  pub move_leader : ℕ → Option String
  pub defragment : String → Option String
  pub alarm_list : Option (List (AlarmType × ℕ))
  pub alarm_disarm : ℕ → Option String
  pub update_status : Option ApiError
  pub persist_status : Option ApiError
  pub delete : Option ApiError
  pub error_text : ApiError → String
  -- float64(dbSize) > float64(percent)/100*float64(quota)
  pub over_share : (db_size percent : ℕ) (quota : ℤ) → Bool

-- The object in memory, the status that the API server holds, and the calls made so far, the
-- newest first: endpoints defragmented, leaderships moved, members disarmed, events by reason.
pub record World : Type 0 where
  pub df : EtcdDefrag
  pub stored : DefragStatus
  pub defragments : List String
  pub moves : List ℕ
  pub disarms : List ℕ
  pub events : List String
  pub deleted : Bool

-- A pass begins with the object as the API server holds it.
abbrev pub start : EtcdDefrag → World
start df = record {
  df = df;
  stored = df.status;
  defragments = [];
  moves = [];
  disarms = [];
  events = [];
  deleted = false;
}
