-- ===== src/Defrag/Finish.antt =====
-- How a pass of controllers/etcddefrag_controller.go ends: the TTL, a failure, the final verdict,
-- the alarms that it disarms and the write of its status. Events are recorded by their reasons.
pub mod Frame
use etcd_operator.Prelude.{
  ℕ, suc, ◌+◌, ◌-◌, ◌*◌, ◌/◌, String, ◌<>◌, Bool, true, false, ◌&&◌, ◌||◌, not, List, [], ◌∷◌,
  Option, none, some, map, ◌==◌, string_eq, nat_eq, ltb, leb, if◌then◌else◌, length, is_some,
}
use etcd_operator.Prelude.Text.{decimal, quote}
use etcd_operator.Api.Meta.{
  Condition, ConditionStatus, status_true, status_false, Result, no_requeue, after, second, minute,
  ApiError, Answer, ok, err,
}
use etcd_operator.Api.Cluster.{EtcdCluster}
use etcd_operator.Api.Member.{EtcdMember}
use etcd_operator.Api.Defrag.{EtcdDefrag, DefragStatus, Phase, DefragOutcome, MemberDefragStatus}
use etcd_operator.Condition.{upsert}
use etcd_operator.Naming.{cluster_client_scheme}
use etcd_operator.Members.{filter_running_members, member_url}
use etcd_operator.Defrag.World.{EtcdStatus, MemberBackend, AlarmType, nospace, corrupt, Env, World}
use etcd_operator.Defrag.Rule.{defrag_rule_triggered, effective_quota_bytes}
use etcd_operator.Defrag.Plan.{
  is_leader_status, planned_members, first_pending_member, backend_by_name, mark_member,
  pick_transferee,
}
use etcd_operator.Defrag.Queue.{is_terminal, oldest_active}
use etcd_operator.Defrag.Gate.{cluster_defrag_healthy}

abbrev pub defrag_requeue_after : ℕ
defrag_requeue_after = 10 * second

-- 7*(5m + 10s + 7*5s) + 5m
abbrev pub defrag_active_deadline : ℕ
defrag_active_deadline = 7 * (5 * minute + 10 * second + 7 * (5 * second)) + 5 * minute

-- What a pass returns: the world after it, and the result or the error.
abbrev pub Turn : Type 0
Turn = World × Answer Result

abbrev pub with_status : World → DefragStatus → World
with_status w s = record w { df = record (w.df) { status = s } }

abbrev pub note : String → World → World
note reason w = record w { events = reason ∷ w.events }

-- The world after setDefragCondition, and whether it changed anything.
unfoldable pub set_defrag_condition : ℕ → World → ConditionStatus → String → String → World × Bool
set_defrag_condition now w status reason message =
    let r = upsert w.df.status.conditions now (record {
      type = "DefragChecked";
      status = status;
      reason = reason;
      message = message;
      observed_generation = w.df.meta.generation;
      last_transition_time = 0;
    }) in
    (with_status w (record (w.df.status) { conditions = r.0 }), r.1)

-- client.IgnoreNotFound over a zero result.
ignore_not_found : ApiError → Answer Result
ignore_not_found ApiError.not_found = ok no_requeue
ignore_not_found e = err e

-- time.Since(t) > defragActiveDeadline, from StartedAt or else from a creation time that is set.
unfoldable pub exceeded_deadline : ℕ → EtcdDefrag → Bool
exceeded_deadline now df = elim df.status.started_at [
  | some s ↦ ltb defrag_active_deadline (now - s)
  | none ↦
      not (df.meta.creation_timestamp == 0)
      && ltb defrag_active_deadline (now - df.meta.creation_timestamp)
]

pub deadline_msg : EtcdDefrag → String
deadline_msg df = elim df.status.started_at [
  | some _ ↦ "defragmentation did not complete within 45m15s"
  | none ↦ "defragmentation could not start within 45m15s (cluster never became healthy)"
]

module _ {X : Type 0} (env : Env X) where
  unfoldable pub handle_ttl : World → Turn
  unfolding ignore_not_found
  handle_ttl w = elim w.df.spec.ttl_seconds_after_finished [
    | none ↦ (w, ok no_requeue)
    | some ttl ↦ elim w.df.status.completed_at [
      | none ↦ (w, ok no_requeue)
      | some done ↦
          let expiry = done + ttl * second in
          if ltb env.now expiry then (w, ok (after (expiry - env.now))) else elim env.delete [
            | none ↦ (record w { deleted = true }, ok no_requeue)
            | some e ↦ (w, ignore_not_found e)
          ]
    ]
  ]

  -- r.Status().Update(ctx, df), and what follows when it succeeds.
  unfoldable pub store_status : World → (World → Turn) → Turn
  store_status w next = elim env.update_status [
    | none ↦ next (record w { stored = w.df.status })
    | some e ↦ (w, err e)
  ]

  unfoldable pub fail : World → String → String → Turn
  fail w reason msg =
      let w1 =
        with_status w
          (record (w.df.status) { phase = Phase.failed; completed_at = some env.now }) in
      let r = set_defrag_condition env.now w1 status_false reason msg in
      store_status (if r.1 then note reason r.0 else r.0) handle_ttl

  -- The loop of disarmNoSpaceAlarms: every NOSPACE alarm, also after a failure. True on an error.
  pub disarm_each : List (AlarmType × ℕ) → World → World × Bool
  disarm_each [] w = (w, false)
  disarm_each ((corrupt, id) ∷ alarms) w = disarm_each alarms w
  disarm_each ((nospace, id) ∷ alarms) w =
      let (w', failed) = disarm_each alarms (record w { disarms = id ∷ w.disarms }) in
      (w', is_some (env.alarm_disarm id) || failed)

  unfoldable pub disarm_no_space_alarms : World → World × Bool
  disarm_no_space_alarms w = elim env.alarm_list [
    | none ↦ (w, true)
    | some alarms ↦ disarm_each alarms w
  ]

  unfoldable pub maybe_disarm : World → World
  maybe_disarm w =
      let (w', failed) = disarm_no_space_alarms w in
      if w.df.status.defragmented == 0
      then w
      else if failed
      then note "AlarmDisarmFailed" w'
      else w'

  unfoldable pub fail_run : World → String → String → Turn
  fail_run w reason msg = fail (maybe_disarm w) reason msg

  unfoldable pub any_failed : List MemberDefragStatus → Bool
  any_failed [] = false
  any_failed (m ∷ ms) =
      let rest = any_failed ms in elim m.outcome [ DefragOutcome.failed ↦ true | _ ↦ rest ]

  -- The phase, by whether any member failed.
  abbrev pub conclude : Bool → World → World
  conclude bad w = with_status w (record (w.df.status) {
    phase = if bad then Phase.failed else Phase.complete;
    completed_at = some env.now;
  })

  abbrev pub tally : DefragStatus → String
  tally s =
      decimal s.defragmented <> ("/" <> (decimal (length s.members) <> " members defragmented"))

  unfoldable pub finalize : World → Turn
  finalize w =
      let bad = any_failed w.df.status.members in
      let w1 = conclude bad (maybe_disarm w) in
      store_status
        (set_defrag_condition env.now w1 (if bad then status_false else status_true)
          (if bad then "MemberFailed" else "Complete") (tally w1.df.status)).0
        handle_ttl

  -- The retried status write; the status that was computed is written over whatever was there.
  unfoldable pub persist_and_requeue : World → Turn
  persist_and_requeue w = elim env.persist_status [
    | none ↦ (record w { stored = w.df.status }, ok (after defrag_requeue_after))
    | some e ↦ (w, err e)
  ]
