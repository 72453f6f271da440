-- ===== src/Policy/Schedule.antt =====
-- nextSchedule, lookbackFloor and requeueFor of controllers/etcddefragpolicy_controller.go. A time
-- is a number of nanoseconds. `next` is Next of the cron library's schedule.
pub mod Walk
use etcd_operator.Prelude.{ℕ, zero, suc, ◌+◌, ◌-◌, ◌*◌, max, Option, none, some, ltb, if◌then◌else◌}
use etcd_operator.Api.Meta.{second}

abbrev pub defrag_policy_max_catchup : ℕ
defrag_policy_max_catchup = 100

-- `walked due next`, or errTooManyMissed.
pub data Outcome : Type 0 where
  walked : (due : Option ℕ) (next : ℕ) → Outcome
  too_many_missed : Outcome

module _ (next : ℕ → ℕ) (now : ℕ) where
  -- The loop; `left` is maxCatchup - n. At its head `t` is `last`.
  unfoldable pub walk : (left last : ℕ) → Outcome
  walk zero last = let t = next last in if ltb now t then walked (some last) t else too_many_missed
  walk (suc left) last =
      let t = next last in
      let rest = walk left t in if ltb now t then walked (some last) t else rest

  unfoldable pub next_schedule : (earliest max_catchup : ℕ) → Outcome
  unfolding walk
  next_schedule earliest max_catchup =
      let t = next earliest in if ltb now t then walked none t else walk max_catchup t

  -- The widest of `n` consecutive intervals from `t`.
  unfoldable pub widest : (n t : ℕ) → ℕ
  widest zero t = 0
  widest (suc n) t = let u = next t in max (u - t) (widest n u)

  unfoldable pub lookback_floor : ℕ
  unfolding widest
  lookback_floor = 2 * widest 4 (next now)

  -- The start of the walk: `deadline` is StartingDeadlineSeconds; times before 0 are 0.
  unfoldable pub walk_start : (deadline : Option ℕ) (anchor : ℕ) → ℕ
  unfolding lookback_floor
  walk_start none anchor = max anchor (now - lookback_floor)
  walk_start (some d) anchor = max anchor (now - d * second)

unfoldable pub requeue_for : (next now : ℕ) → ℕ
requeue_for next now = if ltb 0 (next - now) then next - now else second
