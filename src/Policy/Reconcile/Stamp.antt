-- ===== src/Policy/Reconcile/Stamp.antt =====
-- When a pass creates a run (Reconcile of controllers/etcddefragpolicy_controller.go).
use etcd_operator.Prelude.{
  ℕ, ◌+◌, ◌*◌, ◌≤◌, ◌<◌, false, List, [], ◌∷◌, ◌++◌, map, none, some, ◌≡◌, String, string_eq, subst,
  sym, ◌∙◌, refl, inl, inr, arith, Bool, true, Bool-cases, All, All-append, length, ltb, ◌&&◌,
  Option,
}
use etcd_operator.Api.Meta.{ApiError, Answer, ok, err, second, status_true}
use etcd_operator.Api.Defrag.{EtcdDefrag}
use etcd_operator.Api.Policy.{EtcdDefragPolicy, DefragPolicyStatus}
use etcd_operator.Policy.Schedule.{
  Outcome, walked, too_many_missed, next_schedule, walk_start, defrag_policy_max_catchup,
}
use etcd_operator.Policy.Schedule.Walk.{Found, IsLatest, next_schedule-Found, IsLatest-fresh}
use etcd_operator.Policy.Runs.{owned_runs, partition_defrag_runs}
use etcd_operator.Policy.Reconcile.{
  Env, Call, create, delete, event, update_status, save, stamp, start_due, missed, follow,
  keep_schedule, go_on, note_runs, reconcile, forbids, is_suspended, last_tick, build_defrag,
  controlled, parse_schedule, set_defrag_policy_condition, concurrency_policy, made, already_exists,
  refused, located, Created, created, read, trimmed, listed, got,
}

-- The run is that of a tick which the policy has not acted on, which has come and has no later one,
-- and which is within the starting deadline; the policy is not suspended; and no run of it is active
-- unless runs may overlap.
pub record MayStamp (env : Env) (run : EtcdDefrag) : Type 0 where
  pub policy : EtcdDefragPolicy
  pub stored : env.get ≡ ok policy
  pub runs : List EtcdDefrag
  pub listed : env.list ≡ ok runs
  pub next : ℕ → ℕ
  pub parsed : parse_schedule env policy.spec.schedule ≡ ok next
  pub tick : ℕ
  pub rendered : run ≡ controlled policy (build_defrag policy tick)
  pub awake : is_suspended policy ≡ false
  pub fresh : last_tick policy < tick
  pub come : tick ≤ env.now
  pub latest : env.now < next tick
  pub in_time :
      (d : ℕ) → policy.spec.starting_deadline_seconds ≡ some d → env.now < tick + d * second
  pub alone :
      forbids policy ≡ true → length (partition_defrag_runs (owned_runs policy.meta runs)).0 ≡ 0

abbrev pub Justified : Env → Call → Type 0
Justified env (create run) = MayStamp env run
Justified env (delete run) = Unit
Justified env (event reason) = Unit
Justified env (update_status s) = Unit

walk_start-anchor :
    (next : ℕ → ℕ) (now : ℕ) (o : Option ℕ) (anchor : ℕ) → anchor ≤ walk_start next now o anchor
unfolding walk_start
walk_start-anchor next now none anchor = omega arith
walk_start-anchor next now (some d) anchor = omega arith

walk_start-deadline :
    (next : ℕ → ℕ) (now : ℕ) (o : Option ℕ) (anchor d : ℕ)
    → o ≡ some d
    → now ≤ walk_start next now o anchor + d * second
unfolding walk_start
walk_start-deadline next now none anchor d q = ground arith
walk_start-deadline next now (some e) anchor d q = ground (arith, q)

module _ (env : Env) where
  ended :
      (calls : List Call) (s : DefragPolicyStatus)
      → All (Justified env) calls
      → All (Justified env) (calls ++ (update_status s ∷ []))
  ended calls s h = All-append (Justified env) calls (update_status s ∷ []) h (tt, tt)

  module _ (calls : List Call) (p : EtcdDefragPolicy) (h : All (Justified env) calls) where
    created-Justified :
        (tick next : ℕ)
        → MayStamp env (controlled p (build_defrag p tick))
        → (c : Created) → All (Justified env) (created env calls p tick next c).0
    unfolding created save
    created-Justified tick next may made =
        ended _ _ (All-append (Justified env) calls _ h (may, (tt, tt)))
    created-Justified tick next may already_exists =
        ended _ _ (All-append (Justified env) calls _ h (may, tt))
    created-Justified tick next may (refused e) =
        ended _ _ (All-append (Justified env) calls _ h (may, tt))

    stamp-Justified :
        (tick next : ℕ)
        → MayStamp env (controlled p (build_defrag p tick))
        → (o : Option ApiError) → All (Justified env) (stamp env calls p tick next o).0
    unfolding stamp
    stamp-Justified tick next may (some e) = h
    stamp-Justified tick next may none = created-Justified tick next may _

    start_due-Justified :
        (busy : Bool) (tick next : ℕ)
        → ((forbids p ≡ true → busy ≡ false) → MayStamp env (controlled p (build_defrag p tick)))
        → All (Justified env) (start_due env calls p busy tick next).0
    unfolding start_due save
    start_due-Justified busy tick next may = elim (Bool-cases (forbids p && busy)) [
      | inl q ↦ rw (q) (
          ended (calls ++ (event "ConcurrencyForbidden" ∷ [])) _
            (All-append (Justified env) calls _ h (tt, tt)))
      | inr q ↦ rw (q) (stamp-Justified tick next (may (λ f. ground (arith, q, f))) env.set_owner)
    ]

    follow-Justified :
        (busy : Bool) (o : Outcome)
        → ((tick t : ℕ)
            → o ≡ walked (some tick) t
            → (forbids p ≡ true → busy ≡ false)
            → MayStamp env (controlled p (build_defrag p tick)))
        → All (Justified env) (follow env calls p busy o).0
    unfolding follow save
    follow-Justified busy too_many_missed may = ended calls _ h
    follow-Justified busy (walked none t) may = ended calls _ h
    follow-Justified busy (walked (some tick) t) may =
        start_due-Justified busy tick t (may tick t refl)

  missed-Justified :
      (next : ℕ → ℕ) (anchor earliest : ℕ) → All (Justified env) (missed env next anchor earliest)
  unfolding missed
  missed-Justified next anchor earliest =
      elim (Bool-cases (ltb anchor earliest && ltb (next anchor) earliest)) [
        | inl q ↦ rw (q) (tt, tt)
        | inr q ↦ rw (q) tt
      ]

  keep_schedule-Justified :
      (calls : List Call) (p : EtcdDefragPolicy)
      → All (Justified env) calls
      → (busy : Bool) (next : ℕ → ℕ) → ((t : ℕ) → t < next t)
      → ((tick : ℕ)
          → last_tick p < tick
          → tick ≤ env.now
          → env.now < next tick
          → ((d : ℕ) → p.spec.starting_deadline_seconds ≡ some d → env.now < tick + d * second)
          → (forbids p ≡ true → busy ≡ false)
          → MayStamp env (controlled p (build_defrag p tick)))
      → All (Justified env) (keep_schedule env calls p busy next).0
  unfolding keep_schedule
  keep_schedule-Justified calls p h busy next rises may =
      follow-told (All-append (Justified env) calls _ h (missed-Justified next _ _))
    where
      deadline : Option ℕ
      deadline = p.spec.starting_deadline_seconds

      earliest : ℕ
      earliest = walk_start next env.now deadline (last_tick p)

      outcome : Outcome
      outcome = next_schedule next env.now earliest defrag_policy_max_catchup

      found : (tick t : ℕ) → outcome ≡ walked (some tick) t → IsLatest next env.now earliest tick t
      found tick t q =
          subst (Found next env.now earliest defrag_policy_max_catchup) q
            (next_schedule-Found next rises env.now earliest defrag_policy_max_catchup)

      due :
          (tick t : ℕ)
          → outcome ≡ walked (some tick) t
          → (forbids p ≡ true → busy ≡ false)
          → MayStamp env (controlled p (build_defrag p tick))
      due tick t q =
          let l = found tick t q in
          let fresh = IsLatest-fresh next rises env.now earliest tick t l in
          may tick (omega (arith, fresh, walk_start-anchor next env.now deadline (last_tick p)))
            l.come (omega (arith, l.future, l.follows))
            (λ d e.
              omega (arith, fresh, walk_start-deadline next env.now deadline (last_tick p) d e))

      follow-told :
          All (Justified env) (calls ++ missed env next (last_tick p) earliest)
          → All
              (Justified env)
              (follow env (calls ++ missed env next (last_tick p) earliest) p busy outcome).0
      follow-told told =
          follow-Justified (calls ++ missed env next (last_tick p) earliest) p told busy outcome due

  deletes-Justified : (ds : List EtcdDefrag) → All (Justified env) (map Call.delete ds)
  deletes-Justified [] = tt
  deletes-Justified (d ∷ ds) = (tt, deletes-Justified ds)

  module _ (rises : (s : String) (next : ℕ → ℕ) → env.parse s ≡ ok next → (t : ℕ) → t < next t)
      (p : EtcdDefragPolicy) (stored : env.get ≡ ok p) (ds : List EtcdDefrag)
      (shown : env.list ≡ ok ds) where
    abbrev runs : List EtcdDefrag × List EtcdDefrag
    runs = partition_defrag_runs (owned_runs p.meta ds)

    located-rises :
        (tz cron : String) (o : Option String) (next : ℕ → ℕ)
        → located env tz cron o ≡ ok next
        → (t : ℕ) → t < next t
    unfolding located
    located-rises tz cron (some e) next q = absurd (ground arith)
    located-rises tz cron none next q = rises _ next q

    parse_schedule-rises :
        (next : ℕ → ℕ) → parse_schedule env p.spec.schedule ≡ ok next → (t : ℕ) → t < next t
    unfolding parse_schedule
    parse_schedule-rises next q = located-rises _ _ _ next q

    seen : EtcdDefragPolicy
    unfolding note_runs
    seen = note_runs p runs.0 runs.1

    seen-suspended : is_suspended seen ≡ is_suspended p
    unfolding is_suspended seen
    seen-suspended = refl

    read-Justified :
        (gone : List EtcdDefrag)
        → is_suspended p ≡ false
        → (a : Answer (ℕ → ℕ)) → parse_schedule env p.spec.schedule ≡ a
        → All (Justified env) (read env (map Call.delete gone) seen (ltb 0 (length runs.0)) a).0
    unfolding read save set_defrag_policy_condition forbids last_tick build_defrag
        concurrency_policy seen
    read-Justified gone awake (err e) q = ended _ _ (deletes-Justified gone)
    read-Justified gone awake (ok next) q =
        keep_schedule-Justified (map Call.delete gone)
          (set_defrag_policy_condition env seen status_true "Scheduled" "policy is scheduling runs")
          (deletes-Justified gone) (ltb 0 (length runs.0)) next (parse_schedule-rises next q)
          (λ tick fresh come latest in_time alone. record {
            policy = p;
            stored = stored;
            runs = ds;
            listed = shown;
            next = next;
            parsed = q;
            tick = tick;
            rendered = refl;
            awake = awake;
            fresh = fresh;
            come = come;
            latest = latest;
            in_time = in_time;
            alone = λ f. ground (arith, alone f);
          })

    go_on-Justified :
        (gone : List EtcdDefrag)
        → All (Justified env) (go_on env (map Call.delete gone) seen (ltb 0 (length runs.0))).0
    unfolding go_on save seen
    go_on-Justified gone = elim (Bool-cases (is_suspended seen)) [
      | inl s ↦ rw (s) (ended _ _ (deletes-Justified gone))
      | inr s ↦ rw (s) (read-Justified gone (sym seen-suspended ∙ s) _ refl)
    ]

    trimmed-Justified :
        (r : List EtcdDefrag × Option ApiError)
        → All (Justified env) (trimmed env p runs.0 runs.1 r).0
    unfolding trimmed seen
    trimmed-Justified (gone, some e) = deletes-Justified gone
    trimmed-Justified (gone, none) = go_on-Justified gone

  module _
      (rises : (s : String) (next : ℕ → ℕ) → env.parse s ≡ ok next → (t : ℕ) → t < next t) where
    listed-Justified :
        (p : EtcdDefragPolicy)
        → env.get ≡ ok p
        → (a : Answer (List EtcdDefrag)) → env.list ≡ a
        → All (Justified env) (listed env p a).0
    unfolding listed
    listed-Justified p stored (err e) q = tt
    listed-Justified p stored (ok ds) q = trimmed-Justified rises p stored ds q _

    got-Justified : (a : Answer EtcdDefragPolicy) → env.get ≡ a → All (Justified env) (got env a).0
    unfolding got
    got-Justified (err ApiError.not_found) q = tt
    got-Justified (err ApiError.conflict) q = tt
    got-Justified (err (ApiError.other t)) q = tt
    got-Justified (ok p) q = listed-Justified p q env.list refl

    pub reconcile-MayStamp : All (Justified env) (reconcile env).0
    unfolding reconcile
    reconcile-MayStamp = got-Justified env.get refl
