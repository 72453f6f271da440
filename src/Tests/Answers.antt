-- ===== src/Tests/Answers.antt =====
-- API servers and etcd clusters that answer every call, for the cluster `demo`.
use etcd_operator.Prelude.{String, true, false, List, [], ◌∷◌, none, some, string_eq}
use etcd_operator.Api.Meta.{Labels, ok}
use etcd_operator.Api.Cluster.{EtcdCluster}
use etcd_operator.Api.Member.{EtcdMember}
use etcd_operator.Client.{Env as ClientEnv, Factory}
use etcd_operator.Cluster.Voters.{Peer, Env as VoterEnv}
use etcd_operator.Cluster.Bootstrap.{Env as BootstrapEnv}
use etcd_operator.Cluster.Join.{Env as JoinEnv}
use etcd_operator.Cluster.ScaleUp.{Env as ScaleUpEnv}
use etcd_operator.Cluster.Discovery.{Env as DiscoveryEnv}
use etcd_operator.Cluster.Auth.{Env as AuthEnv}
use etcd_operator.Cluster.Reconcile.{Env as ReconcileEnv}
use etcd_operator.Tests.Fixtures.{demo, member, ready_condition}
use etcd_operator.Tests.Clusters.{latch_calls, scale_calls, health_calls}

-- One Secret serves as root's and as the server's.
abbrev pub secret : Labels
secret = ("password", "pw") ∷ ("ca.crt", "CA") ∷ []

abbrev pub client_calls : ClientEnv
client_calls = record {
  is_pem = λ s. true;
  is_keypair = λ s t. true;
  get_secret = λ namespace name. ok secret;
}

abbrev pub answering : Factory
answering = λ endpoints config user password. none

abbrev pub peer_a : Peer
peer_a = record {
  id = 10;
  name = "demo-a";
  peer_urls = "http://demo-a.demo.ns.svc:2380" ∷ [];
  is_learner = false;
}

-- A peer that etcd has no name for yet.
abbrev pub peer_b : Peer
peer_b = record {
  id = 11;
  name = "";
  peer_urls = "http://demo-b.demo.ns.svc:2380" ∷ [];
  is_learner = true;
}

abbrev pub voter_calls : VoterEnv
voter_calls = record {
  patch_status = λ name. none;
  member_list = some (peer_a ∷ []);
  member_promote = λ id. none;
}

abbrev pub stored_as : String → EtcdMember Unit → EtcdMember Unit
stored_as name m = record m { meta = record (m.meta) { name = name } }

abbrev pub bootstrap_calls : BootstrapEnv Unit
bootstrap_calls = record {
  set_owner = none;
  create = λ m. ok (stored_as "demo-a" m);
  stamp = none;
  patch = none;
}

abbrev pub join_calls : JoinEnv
join_calls = record { add_learner = λ url. some (peer_a ∷ peer_b ∷ []); patch = none }

abbrev pub grow_calls : ScaleUpEnv Unit
grow_calls = record {
  wake = none;
  set_owner = none;
  create = λ m. ok (stored_as "demo-b" m);
  client = client_calls;
  factory = answering;
  voters = voter_calls;
  join = join_calls;
}

abbrev pub discovery_calls : DiscoveryEnv
discovery_calls = record {
  now = 1000;
  update_status = none;
  show_error = λ e. "etcdserver: permission denied";
  client = client_calls;
  factory = answering;
  member_list = ok (14841639068965178418, peer_a ∷ []);
}

abbrev pub auth_calls : AuthEnv
auth_calls = record {
  client = client_calls;
  factory = answering;
  show_error = λ e. "timeout";
  auth_status = ok false;
  user_add = none;
  user_grant_role = none;
  auth_enable = none;
  patch = none;
}

abbrev pub pass_calls : EtcdCluster Unit → List (EtcdMember Unit) → ReconcileEnv Unit
pass_calls c ms = record {
  get = ok c;
  cert_manager_available = true;
  ensure_services = none;
  reconcile_certificates = none;
  list = ok ms;
  budget = none;
  latch = latch_calls;
  bootstrap = bootstrap_calls;
  discovery = discovery_calls;
  scale_up = grow_calls;
  scale_down = scale_calls;
  auth = auth_calls;
  health = health_calls;
}

-- `demo`, with authentication and client TLS asked for.
abbrev pub secured : EtcdCluster Unit
secured = record (demo 3) {
  spec = record ((demo 3).spec) {
    auth = some (record { enabled = true; root_credentials_secret_ref = some "root" });
    tls = some (record {
      client = some (record {
        server_secret_ref = some "server";
        operator_client_secret_ref = none;
        cert_manager = none;
      });
      peer = none;
    });
  };
  status = record ((demo 3).status) { auth_enabled = true };
}

abbrev pub ready_member : String → EtcdMember Unit
ready_member name = member name 10 (ready_condition ∷ [])
