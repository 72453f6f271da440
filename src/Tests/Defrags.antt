-- ===== src/Tests/Defrags.antt =====
-- The theorems about the defrag controller at a run over the cluster `demo`.
use etcd_operator.Prelude.{
  ℕ, suc, ◌+◌, ◌≤◌, String, Bool, true, false, List, [], ◌∷◌, none, some, ◌≡◌, refl, ◌⊎◌, inr, ◌↔◌,
  ◌≢◌, arith, subst, string_eq, nat_eq, ◌<>◌, ◌==◌, ◌*◌, ltb, if◌then◌else◌,
}
use mathlib.Core.List.{Nodup, Nodup-nil, Nodup-cons, Mem, not-mem-nil, eq-or-mem_of_mem-cons}
use mathlib.Core.HLevel.{⊥_prop}
use mathlib.Core.Logic.Or
use etcd_operator.Prelude.Int.{ℤ, sub_ℕ, ◌≤ℤ◌}
use etcd_operator.Api.Meta.{ok, err}
use etcd_operator.Api.Member.{EtcdMember}
use etcd_operator.Api.Defrag.{
  EtcdDefrag, DefragStatus, Phase, DefragOutcome, MemberRole, MemberDefragStatus,
}
use etcd_operator.Defrag.World.{EtcdStatus, MemberBackend, Env, start}
use etcd_operator.Defrag.Rule.{
  defrag_rule_triggered, min_reclaim_of, defrag_rule_triggered-floor, defrag_rule_triggered_mono,
}
use etcd_operator.Defrag.Plan.{planned_members, mark_member, first_pending_member}
use etcd_operator.Defrag.Plan.Laws.{
  names, done, waiting, gain, IsPlan, planned_members-IsPlan, mark_member-counts,
}
use etcd_operator.Prelude.Sorted.{sort_by}
use etcd_operator.Defrag.Queue.{oldest_active, actives, IsOldest, oldest_active-IsOldest}
use etcd_operator.Defrag.Gate.{cluster_defrag_healthy, IsSafe, cluster_defrag_healthy-IsSafe}
use etcd_operator.Defrag.Run.{reconcile, planned_of}
use etcd_operator.Defrag.Run.Safety.{Cleared, reconcile-Cleared}
use etcd_operator.Defrag.Run.Sweep.{reconcile-started_at}
use etcd_operator.Defrag.Run.Invariant.{IsCounted, member_names, reconcile-IsCounted}
use etcd_operator.Defrag.Run.Progress.{IsReady, run_passes, run_passes-finishes}
use etcd_operator.Defrag.Run.{
  connect, probe, dial_and_probe, move_leadership_away, hand_over, defragment_member, sweep,
  start_running, work, defer_run, gated, headed, queued, serialized, reconcile,
}
use etcd_operator.Defrag.Finish.{
  set_defrag_condition, exceeded_deadline, handle_ttl, store_status, fail, disarm_no_space_alarms,
  maybe_disarm, fail_run, any_failed, finalize, persist_and_requeue,
}
use etcd_operator.Defrag.Gate.{blocking_status_error, desired_members, cluster_defrag_healthy}
use etcd_operator.Defrag.Queue.{is_terminal, before, first_of_sorted, oldest_active}
use etcd_operator.Defrag.Plan.{
  is_leader_status, planned_members, backend_by_name, pick_transferee, marked, mark_member,
  first_pending_member,
}
use etcd_operator.Defrag.Rule.{parse_percent, effective_quota_bytes, defrag_rule_triggered}
use etcd_operator.Members.{
  filter_active_members, filter_running_members, find_dormant_member, member_url, member_endpoints,
}
use etcd_operator.Naming.{
  value_at, peer_url, client_url, member_service_name, client_tls, peer_tls, cluster_client_scheme,
  cluster_peer_auto_tls, cluster_peer_scheme, server_secret_name, operator_client_secret_name,
  peer_secret_name, derive_member_tls, member_client_scheme, member_peer_scheme, restore_for_seed,
  derive_cluster_token, resolve_etcd_image, build_initial_cluster, cluster_labels,
}
use etcd_operator.Condition.{set_condition, same_condition, is_current, upsert}
use etcd_operator.Tests.Fixtures.{demo, meta_of, member, three}

abbrev over_share : ℕ → ℕ → ℤ → Bool
over_share size percent quota = elim quota [
  | ℤ.pos q ↦ ltb (percent * q) (100 * size)
  | ℤ.negsuc n ↦ true
]

abbrev answer_of : ℕ → EtcdStatus
answer_of id = record {
  header = some id;
  leader = 1;
  is_learner = false;
  db_size = 900000000;
  db_size_in_use = 100000000;
  errors = [];
}

-- demo-a leads.
abbrev status_of : String → EtcdStatus
status_of endpoint =
    if endpoint == "http://demo-a.demo.ns.svc:2379"
    then answer_of 1
    else (if endpoint == "http://demo-b.demo.ns.svc:2379" then answer_of 2 else answer_of 3)

abbrev unmarked : DefragStatus
unmarked = record {
  phase = Phase.unset;
  started_at = none;
  completed_at = none;
  defragmented = 0;
  members = [];
  conditions = [];
}

abbrev run_of : DefragStatus → EtcdDefrag
run_of status = record {
  meta = meta_of "sweep" 50 [];
  spec = record { cluster_ref = "demo"; rule = none; ttl_seconds_after_finished = none };
  status = status;
}

abbrev calls : Env Unit
calls = record {
  now = 60;
  get_cluster = λ name. ok (demo 3);
  list_runs = ok (run_of unmarked ∷ []);
  list_members = ok three;
  tls_config = none;
  credentials = none;
  dial = λ es. none;
  status = λ e. some (status_of e);
  status_after = λ e. some (status_of e);
  move_leader = λ id. none;
  defragment = λ e. none;
  alarm_list = some [];
  alarm_disarm = λ id. none;
  update_status = none;
  persist_status = none;
  delete = none;
  error_text = λ e. "error";
  over_share = over_share;
}

fires : defrag_rule_triggered over_share none 900000000 100000000 (ℤ.pos 2147483648) ≡ true
unfolding defrag_rule_triggered
fires = refl

defrag_rule_triggered-floor_example : min_reclaim_of none ≤ℤ sub_ℕ 900000000 100000000
defrag_rule_triggered-floor_example =
    defrag_rule_triggered-floor over_share none 900000000 100000000 (ℤ.pos 2147483648) refl
      (ground arith) fires

defrag_rule_triggered_mono_example :
    defrag_rule_triggered over_share none 900000000 50000000 (ℤ.pos 2147483648) ≡ true
defrag_rule_triggered_mono_example =
    defrag_rule_triggered_mono over_share none 900000000 100000000 50000000 (ℤ.pos 2147483648)
      (ground arith) fires

abbrev backend : EtcdMember Unit → ℕ → MemberBackend Unit
backend m id = record {
  member = m;
  endpoint = "http://" <> (m.meta.name <> ".demo.ns.svc:2379");
  status = some (answer_of id);
  after = none;
}

abbrev backends : List (MemberBackend Unit)
backends =
    backend (member "demo-a" 10 []) 1
    ∷ backend (member "demo-b" 20 []) 2
    ∷ backend (member "demo-c" 30 []) 3
    ∷ []

planned_members-IsPlan_example : IsPlan backends (planned_members backends)
planned_members-IsPlan_example = planned_members-IsPlan backends

abbrev pending_row : String → MemberDefragStatus
pending_row name = record {
  name = name;
  role = MemberRole.follower;
  outcome = DefragOutcome.pending;
  reason = "";
  db_size_before = 0;
  db_size_after = 0;
  reclaimed_bytes = 0;
  finished_at = none;
}

not_waiting : DefragOutcome.defragmented ≢ DefragOutcome.pending
not_waiting = λ h. cc h

cons-Nodup : {a : String} {l : List String} → ¬ Mem a l → Nodup l → Nodup (a ∷ l)
cons-Nodup n d = Nodup-cons.1 (n, d)

one_of : {a b : String} {l : List String} → Mem a (b ∷ l) → a ≢ b → ¬ Mem a l → ⊥
one_of h n m = Or.elim ⊥_prop (eq-or-mem_of_mem-cons h) n m

abbrev same_name : String → String → Bool
same_name a b = a == b

abbrev IsOther : String → String → Type 0
IsOther a b = a ≢ b

differ : (a b : String) → same_name a b ≡ false → a ≢ b
differ a b h = λ e. ground arith

different_ab : IsOther "demo-a" "demo-b"
unfolding string_eq
different_ab = differ "demo-a" "demo-b" refl

different_ac : IsOther "demo-a" "demo-c"
unfolding string_eq
different_ac = differ "demo-a" "demo-c" refl

different_bc : IsOther "demo-b" "demo-c"
unfolding string_eq
different_bc = differ "demo-b" "demo-c" refl

two_names : Nodup (names (pending_row "demo-b" ∷ pending_row "demo-c" ∷ []))
two_names = cons-Nodup (λ h. one_of h different_bc not-mem-nil) (cons-Nodup not-mem-nil Nodup-nil)

first_row :
    first_pending_member (pending_row "demo-b" ∷ pending_row "demo-c" ∷ [])
    ≡ some (pending_row "demo-b")
unfolding first_pending_member
first_row = refl

mark_member-counts_example :
    let rows = pending_row "demo-b" ∷ pending_row "demo-c" ∷ [] in
    let marked =
      mark_member rows "demo-b" DefragOutcome.defragmented ""
        (some (backend (member "demo-b" 20 []) 2))
        60 in
    (suc (waiting marked) ≡ waiting rows)
    × (done marked ≡ done rows + gain DefragOutcome.defragmented)
mark_member-counts_example =
    mark_member-counts (pending_row "demo-b" ∷ pending_row "demo-c" ∷ []) (pending_row "demo-b")
      DefragOutcome.defragmented "" (some (backend (member "demo-b" 20 []) 2)) 60 two_names
      first_row not_waiting

oldest_active-IsOldest_example :
    ((actives "demo" (run_of unmarked ∷ []) ≡ [])
      × (oldest_active (run_of unmarked ∷ []) "demo" ≡ ""))
    ⊎ ((r : EtcdDefrag) × IsOldest "demo" (run_of unmarked ∷ []) r
        × (oldest_active (run_of unmarked ∷ []) "demo" ≡ r.meta.name))
oldest_active-IsOldest_example = oldest_active-IsOldest (run_of unmarked ∷ []) "demo"

cluster_defrag_healthy-IsSafe_example :
    (cluster_defrag_healthy (demo 3) three backends ≡ none) ↔ IsSafe (demo 3) three backends
cluster_defrag_healthy-IsSafe_example = cluster_defrag_healthy-IsSafe (demo 3) three backends

first_call :
    (reconcile calls (start (run_of unmarked))).0.defragments
    ≡ "http://demo-b.demo.ns.svc:2379" ∷ []
unfolding connect probe dial_and_probe move_leadership_away hand_over defragment_member sweep
    start_running work defer_run gated headed queued serialized reconcile set_defrag_condition
    exceeded_deadline handle_ttl store_status fail disarm_no_space_alarms maybe_disarm fail_run
    any_failed finalize persist_and_requeue blocking_status_error desired_members
    cluster_defrag_healthy is_terminal before sort_by first_of_sorted oldest_active is_leader_status
    planned_members backend_by_name pick_transferee marked mark_member first_pending_member
    parse_percent effective_quota_bytes defrag_rule_triggered filter_active_members
    filter_running_members find_dormant_member member_url member_endpoints value_at peer_url
    client_url member_service_name client_tls peer_tls cluster_client_scheme cluster_peer_auto_tls
    cluster_peer_scheme server_secret_name operator_client_secret_name peer_secret_name
    derive_member_tls member_client_scheme member_peer_scheme restore_for_seed derive_cluster_token
    resolve_etcd_image build_initial_cluster cluster_labels set_condition same_condition is_current
    upsert string_eq nat_eq
first_call = refl

abbrev no_calls : List String
no_calls = []

reconcile-Cleared_example :
    Cleared calls (run_of unmarked) "http://demo-b.demo.ns.svc:2379" × (no_calls ≡ [])
reconcile-Cleared_example =
    reconcile-Cleared calls (run_of unmarked) "http://demo-b.demo.ns.svc:2379" [] first_call

-- A run whose last row is waiting.
abbrev nearly : DefragStatus
nearly = record {
  phase = Phase.running;
  started_at = some 55;
  completed_at = none;
  defragmented = 0;
  members = pending_row "demo-c" ∷ [];
  conditions = [];
}

reconcile-started_at_example :
    (reconcile calls (start (run_of nearly))).0.stored.started_at ≡ some 55
reconcile-started_at_example = reconcile-started_at calls (run_of nearly) 55 refl

nearly-IsCounted : IsCounted nearly
nearly-IsCounted = record { counted = refl; distinct = cons-Nodup not-mem-nil Nodup-nil }

three_names : Nodup (member_names three)
three_names =
    cons-Nodup (λ h. one_of h different_ab (λ k. one_of k different_ac not-mem-nil))
      (cons-Nodup (λ h. one_of h different_bc not-mem-nil) (cons-Nodup not-mem-nil Nodup-nil))

three_listed : (ms : List (EtcdMember Unit)) → calls.list_members ≡ ok ms → Nodup (member_names ms)
three_listed ms e =
    subst (λ a. elim a [ ok l ↦ Nodup (member_names l) | err x ↦ Unit ]) e three_names

reconcile-IsCounted_example : IsCounted (reconcile calls (start (run_of nearly))).0.stored
reconcile-IsCounted_example =
    reconcile-IsCounted calls (run_of nearly) three_listed nearly-IsCounted

abbrev probed_backends : List (MemberBackend Unit)
probed_backends = elim (dial_and_probe calls (demo 3) (filter_running_members three)) [
  | none ↦ []
  | some bs ↦ bs
]

ready :
    (s : DefragStatus)
    → is_terminal s.phase ≡ false
    → exceeded_deadline 60 (run_of s) ≡ false
    → IsReady calls (run_of s)
unfolding connect probe dial_and_probe move_leadership_away hand_over defragment_member sweep
    start_running work defer_run gated headed queued serialized reconcile set_defrag_condition
    exceeded_deadline handle_ttl store_status fail disarm_no_space_alarms maybe_disarm fail_run
    any_failed finalize persist_and_requeue blocking_status_error desired_members
    cluster_defrag_healthy is_terminal before sort_by first_of_sorted oldest_active is_leader_status
    planned_members backend_by_name pick_transferee marked mark_member first_pending_member
    parse_percent effective_quota_bytes defrag_rule_triggered filter_active_members
    filter_running_members find_dormant_member member_url member_endpoints value_at peer_url
    client_url member_service_name client_tls peer_tls cluster_client_scheme cluster_peer_auto_tls
    cluster_peer_scheme server_secret_name operator_client_secret_name peer_secret_name
    derive_member_tls member_client_scheme member_peer_scheme restore_for_seed derive_cluster_token
    resolve_etcd_image build_initial_cluster cluster_labels set_condition same_condition is_current
    upsert string_eq nat_eq
ready s live in_time = record {
  cluster = demo 3;
  is_head = record {
    live = live;
    found = refl;
    runs = run_of unmarked ∷ [];
    listed = refl;
    at_head = inr refl;
  };
  members = three;
  seen = refl;
  distinct = three_names;
  backends = probed_backends;
  probed = refl;
  in_time = in_time;
  healthy = refl;
  persists = refl;
  updates = refl;
}

nearly_live : is_terminal nearly.phase ≡ false
unfolding is_terminal
nearly_live = refl

nearly_in_time : exceeded_deadline 60 (run_of nearly) ≡ false
unfolding exceeded_deadline
nearly_in_time = refl

one_waiting : waiting (planned_of nearly.members probed_backends) ≤ 1
one_waiting = ground arith

-- The run after its one member is done.
abbrev swept : DefragStatus
swept = (reconcile calls (start (run_of nearly))).0.stored

swept_started : swept.started_at ≡ some 55
swept_started = reconcile-started_at calls (run_of nearly) 55 refl

swept_in_time : exceeded_deadline 60 (run_of swept) ≡ false
unfolding exceeded_deadline
swept_in_time = rw (swept_started, exceeded_deadline) refl

run_passes-finishes_example :
    is_terminal (run_passes (calls ∷ calls ∷ []) (run_of nearly)).status.phase ≡ true
run_passes-finishes_example =
    run_passes-finishes calls (calls ∷ []) (run_of nearly) (ready nearly nearly_live nearly_in_time)
      nearly-IsCounted (λ live. ready swept live swept_in_time, tt) one_waiting
