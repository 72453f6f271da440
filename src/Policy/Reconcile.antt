-- ===== src/Policy/Reconcile.antt =====
-- Reconcile and buildDefrag of controllers/etcddefragpolicy_controller.go. The API server, the cron
-- library, the clocks and the printing of times are not part of the program: what they answer
-- within a pass are the fields of `Env`. Events are recorded by their reasons.
pub mod Stamp
use etcd_operator.Prelude.{
  ℕ, ◌/◌, String, ◌<>◌, Bool, true, false, ◌&&◌, List, [], ◌∷◌, ◌++◌, map, Option, none, some, ◌==◌,
  string_eq, if◌then◌else◌, ltb, length,
}
use etcd_operator.Prelude.Text.{decimal}
use etcd_operator.Api.Meta.{
  Condition, ConditionStatus, status_true, status_false, ApiError, Answer, ok, err, Result,
  no_requeue, after, minute,
}
use etcd_operator.Api.Defrag.{EtcdDefrag, Phase}
use etcd_operator.Api.Policy.{
  EtcdDefragPolicy, DefragPolicyStatus, DefragSchedule, ConcurrencyPolicy, unset, forbid_concurrent,
}
use etcd_operator.Condition.{set_condition}
use etcd_operator.Naming.{label_cluster}
use etcd_operator.Policy.Schedule.{
  defrag_policy_max_catchup, Outcome, walked, too_many_missed, next_schedule, walk_start,
  requeue_for,
}
use etcd_operator.Policy.Runs.{
  owned_runs, partition_defrag_runs, defrag_run_refs, latest_successful_time, gc_history,
}

abbrev pub label_defrag_policy : String
label_defrag_policy = "etcd-operator.cozystack.io/defrag-policy"

-- What a pass asks of the API server and of the event recorder, in order.
pub data Call : Type 0 where
  delete create : EtcdDefrag → Call
  event : String → Call
  update_status : DefragPolicyStatus → Call

-- What Create answers.
pub data Created : Type 0 where
  made already_exists : Created
  refused : ApiError → Created

-- `load_location` answers with its failure; `parse` is the parser of five-field expressions, and
-- gives Next of the schedule. `now` is the reconciler's clock and `wall` that of the conditions.
pub record Env : Type 0 where
  pub get : Answer EtcdDefragPolicy
  pub list : Answer (List EtcdDefrag)
  pub delete : EtcdDefrag → Option ApiError
  pub load_location : String → Option String
  pub parse : String → Answer (ℕ → ℕ)
  pub now : ℕ
  pub wall : ℕ
  pub set_owner : Option ApiError
  pub create : EtcdDefrag → Created
  pub update_status : DefragPolicyStatus → Option ApiError
  pub error_text : ApiError → String
  pub quoted : String → String
  pub tick_string : ℕ → String

abbrev pub Turn : Type 0
Turn = List Call × Answer Result

unfoldable pub concurrency_policy : EtcdDefragPolicy → ConcurrencyPolicy
concurrency_policy p = elim p.spec.concurrency_policy [ unset ↦ forbid_concurrent | other ↦ other ]

-- concurrencyPolicy(pol) == ForbidConcurrent
unfoldable pub forbids : EtcdDefragPolicy → Bool
unfolding concurrency_policy
forbids p = elim (concurrency_policy p) [ forbid_concurrent ↦ true | _ ↦ false ]

-- The run of a tick, by the minute.
unfoldable pub build_defrag : EtcdDefragPolicy → ℕ → EtcdDefrag
build_defrag p tick = record {
  meta = record {
    name = p.meta.name <> ("-" <> decimal (tick / minute));
    generate_name = "";
    namespace = p.meta.namespace;
    uid = "";
    generation = 0;
    creation_timestamp = 0;
    deletion_timestamp = none;
    labels = (label_defrag_policy, p.meta.name) ∷ (label_cluster, p.spec.cluster_ref) ∷ [];
    annotations = [];
    controller = none;
    finalizers = [];
  };
  spec = record {
    cluster_ref = p.spec.cluster_ref;
    rule = p.spec.rule;
    ttl_seconds_after_finished = p.spec.ttl_seconds_after_finished;
  };
  status = record {
    phase = Phase.unset;
    started_at = none;
    completed_at = none;
    defragmented = 0;
    members = [];
    conditions = [];
  };
}

-- SetControllerReference.
abbrev pub controlled : EtcdDefragPolicy → EtcdDefrag → EtcdDefrag
controlled p d = record d { meta = record (d.meta) { controller = some p.meta.uid } }

abbrev pub with_status : EtcdDefragPolicy → DefragPolicyStatus → EtcdDefragPolicy
with_status p s = record p { status = s }

abbrev pub scheduled : ℕ → EtcdDefragPolicy → EtcdDefragPolicy
scheduled tick p = with_status p (record (p.status) { last_schedule_time = some tick })

-- The status of the runs that were listed.
unfoldable pub note_runs : EtcdDefragPolicy → (active finished : List EtcdDefrag) → EtcdDefragPolicy
unfolding defrag_run_refs latest_successful_time
note_runs p active finished = with_status p (record (p.status) {
  active = defrag_run_refs active;
  last_successful_time = elim (latest_successful_time finished) [
    | none ↦ p.status.last_successful_time
    | some t ↦ some t
  ];
})

-- Where the walk is anchored.
unfoldable pub last_tick : EtcdDefragPolicy → ℕ
last_tick p = elim p.status.last_schedule_time [ none ↦ p.meta.creation_timestamp | some t ↦ t ]

unfoldable pub is_suspended : EtcdDefragPolicy → Bool
is_suspended p = elim p.spec.suspend [ none ↦ false | some b ↦ b ]

module _ (env : Env) where
  -- After LoadLocation.
  unfoldable pub located : (tz cron : String) → Option String → Answer (ℕ → ℕ)
  located tz cron (some e) =
      err (ApiError.other ("unknown timezone " <> (env.quoted tz <> (": " <> e))))
  located tz cron none = env.parse ("CRON_TZ=" <> (tz <> (" " <> cron)))

  unfoldable pub parse_schedule : DefragSchedule → Answer (ℕ → ℕ)
  unfolding located
  parse_schedule s =
      let tz = if s.timezone == "" then "UTC" else s.timezone in
      located tz s.cron (env.load_location tz)

  unfoldable pub set_defrag_policy_condition :
      EtcdDefragPolicy → ConditionStatus → String → String → EtcdDefragPolicy
  set_defrag_policy_condition p status reason message = with_status p (record (p.status) {
    conditions = set_condition p.status.conditions env.wall (record {
      type = "Active";
      status = status;
      reason = reason;
      message = message;
      observed_generation = p.meta.generation;
      last_transition_time = 0;
    });
  })

  -- Status().Update ends the pass.
  unfoldable pub save : List Call → EtcdDefragPolicy → Answer Result → Turn
  save calls p r = (
    calls ++ (update_status p.status ∷ []),
    elim (env.update_status p.status) [ some e ↦ err e | none ↦ r ],
  )

  -- After Create, by its answer; `calls` are those before.
  unfoldable pub created : List Call → EtcdDefragPolicy → (tick next : ℕ) → Created → Turn
  unfolding build_defrag save requeue_for set_defrag_policy_condition
  created calls p tick next made =
      let run = controlled p (build_defrag p tick) in
      save (calls ++ (Call.create run ∷ event "StampedRun" ∷ []))
        (scheduled tick
          (with_status p (record (p.status) { active = p.status.active ++ (run.meta.name ∷ []) })))
        (ok (after (requeue_for next env.now)))
  created calls p tick next already_exists =
      save (calls ++ (Call.create (controlled p (build_defrag p tick)) ∷ [])) (scheduled tick p)
        (ok (after (requeue_for next env.now)))
  created calls p tick next (refused e) =
      save (calls ++ (Call.create (controlled p (build_defrag p tick)) ∷ []))
        (set_defrag_policy_condition p status_false "StampFailed"
          ("cannot stamp EtcdDefrag for " <> (env.tick_string tick <> (": " <> env.error_text e))))
        (err e)

  -- After SetControllerReference.
  unfoldable pub stamp : List Call → EtcdDefragPolicy → (tick next : ℕ) → Option ApiError → Turn
  unfolding build_defrag created
  stamp calls p tick next (some e) = (calls, err e)
  stamp calls p tick next none =
      created calls p tick next (env.create (controlled p (build_defrag p tick)))

  -- The tick that is due, unless another run forbids it.
  unfoldable pub start_due : List Call → EtcdDefragPolicy → Bool → (tick next : ℕ) → Turn
  unfolding stamp save requeue_for forbids
  start_due calls p busy tick next =
      if forbids p && busy
      then save (calls ++ (event "ConcurrencyForbidden" ∷ [])) (scheduled tick p)
          (ok (after (requeue_for next env.now)))
      else stamp calls p tick next env.set_owner

  -- The event of a tick before the start of the walk.
  unfoldable pub missed : (ℕ → ℕ) → (anchor earliest : ℕ) → List Call
  missed next anchor earliest =
      if ltb anchor earliest && ltb (next anchor) earliest then event "MissedSchedule" ∷ [] else []

  -- What the walk's outcome asks for.
  unfoldable pub follow : List Call → EtcdDefragPolicy → Bool → Outcome → Turn
  unfolding save requeue_for set_defrag_policy_condition start_due
  follow calls p busy too_many_missed =
      save calls
        (set_defrag_policy_condition p status_false "TooManyMissedTicks"
          "too many missed ticks; check the clock or set spec.startingDeadlineSeconds")
        (ok no_requeue)
  follow calls p busy (walked none t) = save calls p (ok (after (requeue_for t env.now)))
  follow calls p busy (walked (some tick) t) = start_due calls p busy tick t

  unfoldable pub keep_schedule : List Call → EtcdDefragPolicy → Bool → (ℕ → ℕ) → Turn
  unfolding last_tick missed walk_start next_schedule follow
  keep_schedule calls p busy next =
      let anchor = last_tick p in
      let earliest = walk_start next env.now p.spec.starting_deadline_seconds anchor in
      follow (calls ++ missed next anchor earliest) p busy
        (next_schedule next env.now earliest defrag_policy_max_catchup)

  -- After parseSchedule.
  unfoldable pub read : List Call → EtcdDefragPolicy → Bool → Answer (ℕ → ℕ) → Turn
  unfolding save set_defrag_policy_condition keep_schedule
  read calls p busy (err e) =
      save calls
        (set_defrag_policy_condition p status_false "InvalidSchedule" (
          "cannot parse schedule "
          <> (env.quoted p.spec.schedule.cron <> (": " <> env.error_text e))))
        (ok no_requeue)
  read calls p busy (ok next) =
      keep_schedule calls
        (set_defrag_policy_condition p status_true "Scheduled" "policy is scheduling runs") busy
        next

  unfoldable pub go_on : List Call → EtcdDefragPolicy → Bool → Turn
  unfolding is_suspended save parse_schedule set_defrag_policy_condition read
  go_on calls p busy =
      if is_suspended p
      then save calls
          (set_defrag_policy_condition p status_false "Suspended" "scheduling is suspended")
          (ok no_requeue)
      else read calls p busy (parse_schedule p.spec.schedule)

  -- The runs that the history limit deletes.
  unfoldable pub trim : EtcdDefragPolicy → List EtcdDefrag → List EtcdDefrag × Option ApiError
  unfolding gc_history
  trim p finished = elim p.spec.history_limit [
    | none ↦ ([], none)
    | some limit ↦ gc_history env.delete finished limit
  ]

  -- After gcHistory.
  unfoldable pub trimmed :
      EtcdDefragPolicy
      → (active finished : List EtcdDefrag) → List EtcdDefrag × Option ApiError
      → Turn
  unfolding note_runs go_on
  trimmed p active finished (gone, some e) = (map Call.delete gone, err e)
  trimmed p active finished (gone, none) =
      go_on (map Call.delete gone) (note_runs p active finished) (ltb 0 (length active))

  unfoldable pub listed : EtcdDefragPolicy → Answer (List EtcdDefrag) → Turn
  unfolding owned_runs partition_defrag_runs trim trimmed
  listed p (err e) = ([], err e)
  listed p (ok ds) =
      let runs = partition_defrag_runs (owned_runs p.meta ds) in
      trimmed p runs.0 runs.1 (trim p runs.1)

  unfoldable pub got : Answer EtcdDefragPolicy → Turn
  unfolding listed
  got (err ApiError.not_found) = ([], ok no_requeue)
  got (err e) = ([], err e)
  got (ok p) = listed p env.list

  unfoldable pub reconcile : Turn
  unfolding got
  reconcile = got env.get
