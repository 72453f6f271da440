-- ===== src/Tests/Policies.antt =====
-- The theorems about the defrag policy controller at a policy that is due every minute.
use etcd_operator.Prelude.{
  string_eq, ℕ, ◌+◌, ◌*◌, ◌<◌, ◌<>◌, map, String, [], ◌∷◌, none, some, ◌≡◌, ◌≢◌, refl, subst, arith,
  All,
}
use etcd_operator.Api.Meta.{Answer, ok, err, minute}
use etcd_operator.Api.Defrag.{EtcdDefrag, Phase}
use etcd_operator.Api.Policy.{EtcdDefragPolicy, forbid_concurrent}
use etcd_operator.Policy.Schedule.{
  too_many_missed, next_schedule, defrag_policy_max_catchup, walk_start, walk, requeue_for,
}
use etcd_operator.Policy.Schedule.Walk.{next_schedule-walks}
use etcd_operator.Policy.Runs.{
  gc_history, owned_runs, controlled_by, partition_defrag_runs, is_finished, delete_oldest,
  finished_before, defrag_finish_time, latest_successful_time, defrag_run_refs,
}
use etcd_operator.Prelude.Sorted.{sort_by, insert_by}
use etcd_operator.Prelude.Text.{decimal}
use etcd_operator.Policy.Runs.History.{IsTrimmed, gc_history-IsTrimmed}
use etcd_operator.Policy.Reconcile.{
  Env, Call, got, listed, trimmed, trim, note_runs, go_on, is_suspended, parse_schedule, located,
  read, set_defrag_policy_condition, keep_schedule, last_tick, missed, follow, start_due, forbids,
  concurrency_policy, stamp, created, save, reconcile, build_defrag, made, create, delete, event,
  update_status,
}
use etcd_operator.Policy.Reconcile.Stamp.{Justified, reconcile-MayStamp}
use etcd_operator.Tests.Fixtures.{meta_of}

abbrev every_minute : ℕ → ℕ
every_minute t = t + minute

every_minute-rises : (t : ℕ) → t < every_minute t
every_minute-rises t = omega arith

abbrev policy : EtcdDefragPolicy
policy = record {
  meta = meta_of "nightly" minute [];
  spec = record {
    cluster_ref = "demo";
    schedule = record { cron = "* * * * *"; timezone = "" };
    suspend = none;
    concurrency_policy = forbid_concurrent;
    starting_deadline_seconds = some 90;
    history_limit = some 1;
    rule = none;
    ttl_seconds_after_finished = none;
  };
  status = record {
    last_schedule_time = none;
    last_successful_time = none;
    active = [];
    conditions = [];
  };
}

-- A run of the policy that completed.
abbrev done : ℕ → EtcdDefrag
unfolding build_defrag
done t = record {
  meta = record ((build_defrag policy t).meta) { controller = some "uid-nightly" };
  spec = (build_defrag policy t).spec;
  status = record {
    phase = Phase.complete;
    started_at = some t;
    completed_at = some (t + 5);
    defragmented = 3;
    members = [];
    conditions = [];
  };
}

abbrev calls : Env
calls = record {
  get = ok policy;
  list = ok (done 7 ∷ done 5 ∷ done 6 ∷ []);
  delete = λ d. none;
  load_location = λ tz. none;
  parse = λ s. ok every_minute;
  now = minute + minute + minute + 1;
  wall = 0;
  set_owner = none;
  create = λ d. made;
  update_status = λ s. none;
  error_text = λ e. "";
  quoted = λ s. s;
  tick_string = λ t. "";
}

abbrev Rises : Answer (ℕ → ℕ) → Type 0
Rises (err e) = Unit
Rises (ok next) = (t : ℕ) → t < next t

reconcile-MayStamp_example : All (Justified calls) (reconcile calls).0
reconcile-MayStamp_example = reconcile-MayStamp calls (λ s next q. subst Rises q every_minute-rises)

gc_history-IsTrimmed_example :
    IsTrimmed
      (done 7 ∷ done 5 ∷ done 6 ∷ [])
      1
      (gc_history (λ d. none) (done 7 ∷ done 5 ∷ done 6 ∷ []) 1)
gc_history-IsTrimmed_example = gc_history-IsTrimmed (λ d. none) (done 7 ∷ done 5 ∷ done 6 ∷ []) 1

next_schedule-walks_example :
    next_schedule every_minute (101 * minute) 0 defrag_policy_max_catchup ≢ too_many_missed
next_schedule-walks_example =
    next_schedule-walks every_minute every_minute-rises minute (λ t. omega arith) (101 * minute) 0
      defrag_policy_max_catchup (omega arith)

-- What a pass over it asks, in order.
abbrev kind : Call → String
kind (delete d) = "delete"
kind (create d) = "create " <> d.meta.name
kind (event reason) = reason
kind (update_status s) = "status"

calls-reconcile :
    map kind (reconcile calls).0
    ≡ "delete" ∷ "delete" ∷ "create nightly-2" ∷ "StampedRun" ∷ "status" ∷ []
unfolding reconcile got listed trimmed trim note_runs go_on is_suspended parse_schedule located read
    set_defrag_policy_condition keep_schedule last_tick missed follow start_due forbids
    concurrency_policy stamp created build_defrag save walk_start next_schedule walk requeue_for
    owned_runs controlled_by partition_defrag_runs is_finished gc_history delete_oldest
    finished_before defrag_finish_time latest_successful_time defrag_run_refs sort_by insert_by
    decimal string_eq
calls-reconcile = refl
