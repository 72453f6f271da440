-- ===== src/Policy/Schedule/Walk.antt =====
-- What the walk over missed ticks finds (nextSchedule of
-- controllers/etcddefragpolicy_controller.go).
use etcd_operator.Prelude.{
  ℕ, zero, suc, ◌+◌, ◌*◌, ◌≤◌, ◌<◌, none, some, ◌≡◌, ◌≢◌, refl, ap, inl, inr, arith, ltb,
  Bool-cases, sym, subst,
}
use etcd_operator.Policy.Schedule.{Outcome, walked, too_many_missed, walk, next_schedule}

-- The n-th tick after a time, counted from 0.
unfoldable pub tick : (ℕ → ℕ) → (n start : ℕ) → ℕ
tick next zero start = next start
tick next (suc n) start = next (tick next n start)

tick-next : (next : ℕ → ℕ) (n start : ℕ) → tick next n (next start) ≡ tick next (suc n) start
unfolding tick
tick-next next zero start = refl
tick-next next (suc n) start = ap next (tick-next next n start)

-- `due` is the latest tick at or before `now`, `upcoming` the tick that follows it.
pub record IsLatest (next : ℕ → ℕ) (now earliest due upcoming : ℕ) : Type 0 where
  pub place : ℕ
  pub is_tick : due ≡ tick next place earliest
  pub follows : upcoming ≡ next due
  pub come : due ≤ now
  pub future : now < upcoming
  pub latest : (n : ℕ) → tick next n earliest ≤ now → tick next n earliest ≤ due

abbrev pub Found : (ℕ → ℕ) → (now earliest max_catchup : ℕ) → Outcome → Type 0
Found next now earliest n (walked none t) = (t ≡ next earliest) × (now < t)
Found next now earliest n (walked (some due) t) = IsLatest next now earliest due t
Found next now earliest n too_many_missed = tick next (suc n) earliest ≤ now

module _ (next : ℕ → ℕ) (rises : (t : ℕ) → t < next t) where
  tick-rises : (n start : ℕ) → start < tick next n start
  unfolding tick
  tick-rises zero start = rises start
  tick-rises (suc n) start = omega (arith, tick-rises n start, rises (tick next n start))

  tick-le : (m n start : ℕ) → m ≤ n → tick next m start ≤ tick next n start
  unfolding tick
  tick-le zero zero start h = omega arith
  tick-le zero (suc n) start h = omega (arith, tick-next next n start, tick-rises n (next start))
  tick-le (suc m) zero start h = omega arith
  tick-le (suc m) (suc n) start h = omega (
    arith,
    tick-next next m start,
    tick-next next n start,
    tick-le m n (next start) (omega arith),
  )

  module _ (now earliest n : ℕ) where
    walk-IsLatest :
        (place last : ℕ)
        → last ≡ tick next place earliest
        → last ≤ now
        → now < next last
        → IsLatest next now earliest last (next last)
    unfolding tick
    walk-IsLatest place last at come future = record {
      place = place;
      is_tick = at;
      follows = refl;
      come = come;
      future = future;
      latest = λ k h. grind (arith, tick-le k place earliest, tick-le (suc place) k earliest, up);
    }
      where
        up : tick next (suc place) earliest ≡ next last
        up = ap next (sym at)

    walk-Found :
        (left place last : ℕ)
        → left + place ≡ n
        → last ≡ tick next place earliest
        → last ≤ now
        → Found next now earliest n (walk next now left last)
    unfolding walk tick
    walk-Found zero place last count at come = elim (Bool-cases (ltb now (next last))) [
      | inl p ↦ rw (p) (walk-IsLatest place last at come (ground (arith, p)))
      | inr p ↦ rw (p) (over (ground (arith, p)))
    ]
      where
        over : next last ≤ now → tick next (suc n) earliest ≤ now
        over h =
            subst (λ k. next (tick next k earliest) ≤ now) (omega arith)
              (subst (λ t. next t ≤ now) at h)
    walk-Found (suc left) place last count at come = elim (Bool-cases (ltb now (next last))) [
      | inl p ↦ rw (p) (walk-IsLatest place last at come (ground (arith, p)))
      | inr p ↦
          rw (p)
            (walk-Found left (suc place) (next last) (omega arith) (ap next at) (ground (arith, p)))
    ]

  -- When each tick of the schedule is after the time it is asked for, the walk from `earliest` to
  -- `now` answers with the first tick when that is still to come, and otherwise with the latest tick
  -- at or before `now` and the one that follows it, which is after `now`; or it answers that there
  -- are too many, and then more than `n` + 1 ticks have come.
  pub next_schedule-Found :
      (now earliest n : ℕ) → Found next now earliest n (next_schedule next now earliest n)
  unfolding next_schedule tick
  next_schedule-Found now earliest n = elim (Bool-cases (ltb now (next earliest))) [
    | inl p ↦ rw (p) (refl, ground (arith, p))
    | inr p ↦
        rw (p)
          (walk-Found now earliest n n 0 (next earliest) (omega arith) refl (ground (arith, p)))
  ]

  -- A tick that is found is after the time that the walk starts from.
  pub IsLatest-fresh :
      (now earliest due upcoming : ℕ) → IsLatest next now earliest due upcoming → earliest < due
  IsLatest-fresh now earliest due upcoming l = omega (arith, tick-rises l.place earliest, l.is_tick)

  -- For a schedule whose ticks are at least `gap` apart.
  module _ (gap : ℕ) (apart : (t : ℕ) → next t + gap ≤ next (next t)) where
    tick-apart : (n start : ℕ) → tick next n start + gap ≤ next (tick next n start)
    unfolding tick
    tick-apart zero start = apart start
    tick-apart (suc n) start = apart (tick next n start)

    tick-spread : (n start : ℕ) → start + n * gap < tick next n start
    unfolding tick
    tick-spread zero start = omega (arith, rises start)
    tick-spread (suc n) start = omega (arith, tick-spread n start, tick-apart n start)

    -- Over a window of at most `n` + 1 gaps, the walk never answers that there are too many missed
    -- ticks, when each tick is after the time it is asked for and two ticks are at least `gap` apart.
    pub next_schedule-walks :
        (now earliest n : ℕ)
        → now ≤ earliest + suc n * gap
        → next_schedule next now earliest n ≢ too_many_missed
    next_schedule-walks now earliest n h q = omega (
      arith,
      tick-spread (suc n) earliest,
      subst (Found next now earliest n) q (next_schedule-Found now earliest n),
    )
