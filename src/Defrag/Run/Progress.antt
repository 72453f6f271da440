-- ===== src/Defrag/Run/Progress.antt =====
-- A run whose cluster stays healthy comes to an end: each pass settles one member, and the pass that
-- finds none left concludes the run.
use mathlib.Core.List.{Nodup}
use etcd_operator.Prelude.{
  suc, ◌≤◌, ◌<◌, String, true, false, List, [], ◌∷◌, none, some, ◌≡◌, refl, ◌⊎◌, inl, inr, arith,
  sym, ap, subst, Option-cases, Bool-cases, ◌∙◌, string_eq, length,
}
use etcd_operator.Api.Meta.{ok}
use etcd_operator.Api.Cluster.{EtcdCluster}
use etcd_operator.Api.Member.{EtcdMember}
use etcd_operator.Api.Defrag.{EtcdDefrag, DefragStatus, MemberDefragStatus}
use etcd_operator.Members.{filter_running_members}
use etcd_operator.Defrag.World.{MemberBackend, Env, World, start}
use etcd_operator.Defrag.Plan.{first_pending_member}
use etcd_operator.Defrag.Plan.Laws.{names, waiting}
use etcd_operator.Defrag.Queue.{is_terminal}
use etcd_operator.Defrag.Gate.{cluster_defrag_healthy}
use etcd_operator.Defrag.Finish.{
  exceeded_deadline, finalize, set_defrag_condition, store_status, handle_ttl,
}
use etcd_operator.Defrag.Run.{
  dial_and_probe, start_running, sweep, work, gated, headed, serialized, reconcile, planned_of,
  with_plan,
}
use etcd_operator.Defrag.Run.Safety.{IsHead}
use etcd_operator.Defrag.Run.Count.{sweep-Swept}
use etcd_operator.Defrag.Run.Invariant.{
  IsCounted, member_names, dial_and_probe-Nodup, with_plan-IsCounted, reconcile-IsCounted,
}

waiting-of_no_names : (ms : List MemberDefragStatus) → names ms ≡ [] → waiting ms ≡ 0
waiting-of_no_names [] h = refl
waiting-of_no_names (m ∷ ms) h = cc

module _ {X : Type 0} where
  -- A pass over a healthy cluster whose writes go through.
  pub record IsReady (env : Env X) (df : EtcdDefrag) : Type 0 where
    pub cluster : EtcdCluster X
    pub is_head : IsHead env df cluster
    pub members : List (EtcdMember X)
    pub seen : env.list_members ≡ ok members
    pub distinct : Nodup (member_names members)
    pub backends : List (MemberBackend X)
    pub probed : dial_and_probe env cluster (filter_running_members members) ≡ some backends
    pub in_time : exceeded_deadline env.now df ≡ false
    pub healthy : cluster_defrag_healthy cluster (filter_running_members members) backends ≡ none
    pub persists : env.persist_status ≡ none
    pub updates : env.update_status ≡ none

  -- The run as the next pass will find it.
  abbrev pub pass : Env X → EtcdDefrag → EtcdDefrag
  pass env df = record df { status = (reconcile env (start df)).0.stored }

  ready-work :
      (env : Env X) (df : EtcdDefrag) (r : IsReady env df)
      → reconcile env (start df) ≡ work env (start df) r.cluster r.backends
  unfolding reconcile serialized headed gated
  ready-work env df r = ground arith

  finalize-terminal :
      (env : Env X) (w : World)
      → env.update_status ≡ none
      → is_terminal (finalize env w).0.stored.phase ≡ true
  unfolding finalize store_status handle_ttl set_defrag_condition is_terminal
  finalize-terminal env w h = ground arith

  -- What one ready pass makes of a run: finished, or with one pending row less.
  abbrev Advanced : EtcdDefrag → List (MemberBackend X) → DefragStatus → Type 0
  Advanced df bs s =
      (is_terminal s.phase ≡ true)
      ⊎ ((is_terminal s.phase ≡ false)
          × (suc (waiting s.members) ≡ waiting (planned_of df.status.members bs))
          × (names s.members ≡ names (planned_of df.status.members bs)))

  work-Advanced :
      (env : Env X) (df : EtcdDefrag) (r : IsReady env df)
      → IsCounted df.status
      → Advanced df r.backends (work env (start df) r.cluster r.backends).0.stored
  unfolding work start_running set_defrag_condition is_terminal
  work-Advanced env df r h =
      let bs = r.backends in
      let w1 = with_plan (start df) bs in
      let d = dial_and_probe-Nodup env r.cluster r.members bs r.distinct r.probed in
      let plan = with_plan-IsCounted (start df) bs df.status.members refl d h in
      elim (Option-cases (first_pending_member (planned_of df.status.members bs))) [
        | inl e ↦ inl (rw (e, work) (finalize-terminal env w1 r.updates))
        | inr (next, e) ↦
            let s = sweep-Swept env (start_running env w1) next plan.1 e r.cluster bs in
            let v = (sweep env (start_running env w1) r.cluster bs next).0 in
            let kept : v.stored ≡ v.df.status = ground (arith, r.persists, s.store) in
            let q : (work env (start df) r.cluster bs).0.stored ≡ v.df.status = ground arith in
            inr (
              ground (arith, s.phase),
              ap (λ (x : DefragStatus). suc (waiting x.members)) q ∙ s.rows,
              ap (λ (x : DefragStatus). names x.members) q ∙ s.same_names,
            )
      ]

  pub pass-Advanced :
      (env : Env X) (df : EtcdDefrag) (r : IsReady env df)
      → IsCounted df.status
      → Advanced df r.backends (pass env df).status
  pass-Advanced env df r h =
      subst (λ t. Advanced df r.backends t.0.stored) (sym (ready-work env df r))
        (work-Advanced env df r h)

  -- One pass for each environment.
  pub run_passes : List (Env X) → EtcdDefrag → EtcdDefrag
  run_passes [] df = df
  run_passes (env ∷ envs) df = run_passes envs (pass env df)

  -- Every pass of the run that finds it unfinished is ready.
  abbrev pub AllReady : List (Env X) → EtcdDefrag → Type 0
  AllReady [] df = Unit
  AllReady (env ∷ envs) df =
      (is_terminal df.status.phase ≡ false → IsReady env df) × AllReady envs (pass env df)

  pass-terminal :
      (env : Env X) (df : EtcdDefrag)
      → is_terminal df.status.phase ≡ true
      → (pass env df).status ≡ df.status
  unfolding reconcile handle_ttl
  pass-terminal env df h = ground arith

  terminal-run_passes :
      (envs : List (Env X)) (df : EtcdDefrag)
      → is_terminal df.status.phase ≡ true
      → is_terminal (run_passes envs df).status.phase ≡ true
  unfolding run_passes
  terminal-run_passes [] df h = h
  terminal-run_passes (env ∷ envs) df h =
      terminal-run_passes envs (pass env df)
        (ap (λ (s : DefragStatus). is_terminal s.phase) (pass-terminal env df h) ∙ h)

  -- A work list with a name is not made again.
  planned_again :
      (ms : List MemberDefragStatus) (bs : List (MemberBackend X)) (n : String) (ns : List String)
      → names ms ≡ n ∷ ns
      → planned_of ms bs ≡ ms
  planned_again [] bs n ns h = cc
  planned_again (m ∷ ms) bs n ns h = refl

  pass-IsCounted :
      (env : Env X) (df : EtcdDefrag)
      → IsReady env df
      → IsCounted df.status
      → IsCounted (pass env df).status
  pass-IsCounted env df r h =
      reconcile-IsCounted env df
        (λ ms seen.
          let same : r.members ≡ ms = ground (arith, r.seen) in
          subst (λ l. Nodup (member_names l)) same r.distinct)
        h

  -- From a work list with a name.
  finish_planned :
      (envs : List (Env X)) (df : EtcdDefrag) (n : String) (ns : List String)
      → names df.status.members ≡ n ∷ ns
      → IsCounted df.status
      → AllReady envs df
      → waiting df.status.members < length envs
      → is_terminal (run_passes envs df).status.phase ≡ true
  unfolding run_passes
  finish_planned [] df n ns e h a l = absurd (omega arith)
  finish_planned (env ∷ envs) df n ns e h a l = elim (Bool-cases (is_terminal df.status.phase)) [
    | inl over ↦ terminal-run_passes (env ∷ envs) df over
    | inr live ↦
        let r = a.0 live in
        let again = planned_again df.status.members r.backends n ns e in
        elim (pass-Advanced env df r h) [
          | inl over ↦ terminal-run_passes envs (pass env df) over
          | inr (still, fewer, same) ↦
              finish_planned envs (pass env df) n ns (same ∙ ap names again ∙ e)
                (pass-IsCounted env df r h) a.1 (omega (arith, fewer, ap waiting again))
        ]
  ]

  -- A run that is not finished, whose counter is right and whose rows have distinct names, finishes
  -- when its passes are ready: one pass more than there are members waiting in its work list is
  -- enough, also when the first pass makes the list.
  pub run_passes-finishes :
      (env : Env X) (envs : List (Env X)) (df : EtcdDefrag) (r : IsReady env df)
      → IsCounted df.status
      → AllReady envs (pass env df)
      → waiting (planned_of df.status.members r.backends) ≤ length envs
      → is_terminal (run_passes (env ∷ envs) df).status.phase ≡ true
  unfolding run_passes
  run_passes-finishes env envs df r h a l = elim (pass-Advanced env df r h) [
    | inl over ↦ terminal-run_passes envs (pass env df) over
    | inr (still, fewer, same) ↦ go (names (pass env df).status.members) refl fewer same
  ]
    where
      go :
          (l : List String)
          → names (pass env df).status.members ≡ l
          → suc (waiting (pass env df).status.members)
            ≡ waiting (planned_of df.status.members r.backends)
          → names (pass env df).status.members ≡ names (planned_of df.status.members r.backends)
          → is_terminal (run_passes envs (pass env df)).status.phase ≡ true
      go [] e fewer same =
          let z = waiting-of_no_names (planned_of df.status.members r.backends) (sym same ∙ e) in
          absurd (omega (arith, z, fewer))
      go (n ∷ ns) e fewer same =
          finish_planned envs (pass env df) n ns e (pass-IsCounted env df r h) a (omega arith)
