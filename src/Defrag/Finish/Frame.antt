-- ===== src/Defrag/Finish/Frame.antt =====
-- What the ends of a pass leave alone: the sweep's own records and its Defragment calls.
use etcd_operator.Prelude.{ℕ, String, List, [], ◌∷◌, some, ◌≡◌, arith, Option-cases, inl, inr, ◌⊎◌}
use etcd_operator.Api.Meta.{ConditionStatus, status_false}
use etcd_operator.Api.Defrag.{DefragStatus, Phase}
use etcd_operator.Defrag.World.{AlarmType, nospace, corrupt, Env, World}
use etcd_operator.Defrag.Finish.{
  set_defrag_condition, handle_ttl, store_status, fail, disarm_each, disarm_no_space_alarms,
  maybe_disarm, fail_run, finalize, Turn, conclude, any_failed, with_status,
}

-- The sweep's part of a status: when it started, the members' rows and how many were defragmented.
pub record SameSweep (s t : DefragStatus) : Type 0 where
  pub started_at : t.started_at ≡ s.started_at
  pub members : t.members ≡ s.members
  pub defragmented : t.defragmented ≡ s.defragmented

-- From `w` to `v` the sweep has not moved in memory, and the API server holds what it held or what
-- memory holds.
pub record Framed (w v : World) : Type 0 where
  pub calls : v.defragments ≡ w.defragments
  pub memory : SameSweep w.df.status v.df.status
  pub store : (v.stored ≡ w.stored) ⊎ SameSweep w.df.status v.stored

pub Framed-refl : (w : World) → Framed w w
Framed-refl w = ground arith

pub Framed-trans : {w v u : World} → Framed w v → Framed v u → Framed w u
Framed-trans p q = ground arith

pub set_defrag_condition-Framed :
    (now : ℕ) (w : World) (s : ConditionStatus) (r m : String)
    → Framed w (set_defrag_condition now w s r m).0
unfolding set_defrag_condition
set_defrag_condition-Framed now w s r m = ground arith

module _ {X : Type 0} (env : Env X) where
  pub handle_ttl-Framed : (w : World) → Framed w (handle_ttl env w).0
  unfolding handle_ttl
  handle_ttl-Framed w = ground arith

  pub store_status-Framed :
      (w v : World) (next : World → Turn)
      → Framed w v
      → ((u : World) → Framed u (next u).0)
      → Framed w (store_status env v next).0
  unfolding store_status
  store_status-Framed w v next h k = ground (arith, k (record v { stored = v.df.status }))

  pub fail-Framed : (w : World) (r m : String) → Framed w (fail env w r m).0
  unfolding fail
  fail-Framed w r m =
      store_status-Framed w _ (handle_ttl env)
        (ground (
          arith,
          set_defrag_condition-Framed env.now
              (with_status w
                (record (w.df.status) { phase = Phase.failed; completed_at = some env.now }))
              status_false r m,
        ))
        handle_ttl-Framed

  disarm_each-Framed :
      (alarms : List (AlarmType × ℕ)) (w : World) → Framed w (disarm_each env alarms w).0
  unfolding disarm_each
  disarm_each-Framed [] w = Framed-refl w
  disarm_each-Framed ((corrupt, id) ∷ alarms) w = disarm_each-Framed alarms w
  disarm_each-Framed ((nospace, id) ∷ alarms) w =
      ground (arith, disarm_each-Framed alarms (record w { disarms = id ∷ w.disarms }))

  disarm_no_space_alarms-Framed : (w : World) → Framed w (disarm_no_space_alarms env w).0
  unfolding disarm_no_space_alarms
  disarm_no_space_alarms-Framed w = elim (Option-cases env.alarm_list) [
    | inl e ↦ rw (e, disarm_no_space_alarms) (Framed-refl w)
    | inr (alarms, e) ↦ rw (e, disarm_no_space_alarms) (disarm_each-Framed alarms w)
  ]

  pub maybe_disarm-Framed : (w : World) → Framed w (maybe_disarm env w)
  unfolding maybe_disarm
  maybe_disarm-Framed w = ground (arith, disarm_no_space_alarms-Framed w)

  pub fail_run-Framed : (w : World) (r m : String) → Framed w (fail_run env w r m).0
  unfolding fail_run
  fail_run-Framed w r m =
      ground (arith, maybe_disarm-Framed w, fail-Framed (maybe_disarm env w) r m)

  pub finalize-Framed : (w : World) → Framed w (finalize env w).0
  unfolding finalize
  finalize-Framed w =
      let w1 = conclude env (any_failed env w.df.status.members) (maybe_disarm env w) in
      store_status-Framed w _ (handle_ttl env)
        (Framed-trans (maybe_disarm-Framed w)
          (Framed-trans {v = w1} (ground arith) (set_defrag_condition-Framed env.now w1 _ _ _)))
        handle_ttl-Framed
