-- ===== src/Tests/Clusters.antt =====
-- The theorems about the cluster controller at the cluster `demo`.
use etcd_operator.Prelude.{
  ℕ, String, false, Bool, ◌<>◌, map, string_eq, nat_eq, bool_eq, true, List, [], ◌∷◌, none, some,
  ◌≡◌, refl, arith,
}
use etcd_operator.Prelude.Int.{ℤ}
use etcd_operator.Api.Meta.{ok, no_requeue}
use etcd_operator.Api.Member.{EtcdMember}
use etcd_operator.Cluster.Target.{
  DeepEqual, IsReflexive, set_cluster_condition, spec_equals_observed, storage_medium_eq,
}
use etcd_operator.Cluster.Pdb.{
  Pdb, IntOrString, Env as PdbEnv, IsGuarded, target_replicas, reconcile_pdb, pdb_min_available,
  protect, adjust, current_min, int_value, int_eq, reconcile_pdb-IsGuarded,
}
use etcd_operator.Cluster.Health.{Env as HealthEnv, update_status}
use etcd_operator.Cluster.Health.Report.{Reported, update_status-Reported}
use etcd_operator.Condition.{upsert, is_current, set_condition}
use etcd_operator.Naming.{
  peer_url, cluster_peer_scheme, cluster_peer_auto_tls, peer_tls, member_service_name, value_at,
}
use etcd_operator.Cluster.Voters.{
  Promotes, Peer, Env as VoterEnv, listed_as, url_of, want_voter, change_of, sync_is_voter, synced,
  sync_is_voter-synced, try_promote_learner, try_promote_learner-first,
}
use etcd_operator.Cluster.Latch.{Env as LatchEnv, latch, handle_deadline_exceeded, parked, park}
use etcd_operator.Cluster.Latch.Laws.{IsLocked, latch-IsLocked}
use etcd_operator.Cluster.ScaleDown.{Env as ScaleEnv, Shrinks, scale_down, scale_down-Shrinks}
use etcd_operator.Tests.Fixtures.{demo, observed, member, three}

abbrev pub pdb_calls : PdbEnv
pdb_calls = record {
  get_failure = none;
  delete = none;
  set_owner = none;
  create = none;
  patch = none;
  string_value = λ s. ℤ.pos 0;
}

-- A budget from before the migration to minAvailable.
abbrev old_pdb : Pdb
old_pdb = record {
  name = "demo";
  namespace = "ns";
  labels = [];
  annotations = [];
  owner = "uid-demo";
  min_available = none;
  max_unavailable = some (IntOrString.int_val (ℤ.pos 1));
  selector = [];
}

old_pdb_patched : (reconcile_pdb pdb_calls (demo 3) (some old_pdb) 2).1 ≡ none
unfolding reconcile_pdb pdb_min_available protect adjust current_min int_value int_eq
old_pdb_patched = ground arith

reconcile_pdb-IsGuarded_example :
    IsGuarded pdb_calls 2
      (target_replicas pdb_calls (demo 3))
      (reconcile_pdb pdb_calls (demo 3) (some old_pdb) 2).0
reconcile_pdb-IsGuarded_example =
    reconcile_pdb-IsGuarded pdb_calls (demo 3) (some old_pdb) 2 old_pdb_patched

abbrev pub health_calls : HealthEnv
health_calls = record { now = 1000; update_status = none; pdb = pdb_calls }

update_status-Reported_example :
    Reported
      (demo 3)
      3
      three
      true
      (update_status health_calls (demo 3) (observed 3) three none (some old_pdb)).stored.status
update_status-Reported_example =
    update_status-Reported health_calls (demo 3) (observed 3) three none (some old_pdb) refl

-- Deep equality, here of the types without content.
abbrev pub deep_equal : DeepEqual Unit
deep_equal = record { opaque = λ x y. true; metadata = λ x y. true; options = λ x y. true }

deep_equal-IsReflexive : IsReflexive deep_equal
deep_equal-IsReflexive = record {
  opaque_refl = λ x. refl;
  metadata_refl = λ m. refl;
  options_refl = λ o. refl;
}

abbrev pub latch_calls : LatchEnv Unit
latch_calls = record {
  now = 1000;
  equal = deep_equal;
  update_status = none;
  show_target = λ o. "target";
}

latch-IsLocked_example : IsLocked latch_calls (demo 2) three (latch latch_calls (demo 2) three)
latch-IsLocked_example = latch-IsLocked latch_calls (demo 2) three deep_equal-IsReflexive

abbrev pub scale_calls : ScaleEnv
scale_calls = record { patch = none; delete = none }

abbrev others : List (EtcdMember Unit)
others = member "demo-b" 20 [] ∷ member "demo-c" 30 [] ∷ []

scale_down-Shrinks_example :
    Shrinks
      (member "demo-a" 10 [] ∷ others)
      (scale_down scale_calls (demo 2) (member "demo-a" 10 []) others)
scale_down-Shrinks_example =
    scale_down-Shrinks scale_calls (demo 2) (observed 2) (member "demo-a" 10 []) others refl
      (ground arith)

parked_now : (handle_deadline_exceeded latch_calls (demo 3) (observed 3)).1 ≡ some (ok no_requeue)
unfolding handle_deadline_exceeded parked park set_cluster_condition upsert is_current set_condition
    spec_equals_observed string_eq nat_eq storage_medium_eq
parked_now = refl

abbrev peer : ℕ → String → Bool → Peer
peer id member learner = record {
  id = id;
  name = member;
  peer_urls = ("http://" <> (member <> ".demo.ns.svc:2380")) ∷ [];
  is_learner = learner;
}

-- demo-c joined as a learner.
abbrev peers : List Peer
peers = peer 1 "demo-a" false ∷ peer 2 "demo-b" false ∷ peer 3 "demo-c" true ∷ []

abbrev voter_calls : VoterEnv
voter_calls = record {
  patch_status = λ name. none;
  member_list = some peers;
  member_promote = λ id. some "not in sync";
}

synced_now : (sync_is_voter voter_calls (demo 3) peers three).1 ≡ none
unfolding sync_is_voter change_of want_voter listed_as url_of peer_url cluster_peer_scheme
    cluster_peer_auto_tls peer_tls member_service_name value_at string_eq bool_eq
synced_now = refl

sync_is_voter-synced_example :
    (sync_is_voter voter_calls (demo 3) peers three).0 ≡ map (synced (demo 3) peers) three
sync_is_voter-synced_example = sync_is_voter-synced voter_calls (demo 3) peers three synced_now

try_promote_learner-first_example :
    Promotes voter_calls peers (try_promote_learner voter_calls peers)
try_promote_learner-first_example = try_promote_learner-first voter_calls peers
