-- ===== src/Member/Pods.antt =====
-- A member's Pod, as far as controllers/etcdmember_controller.go reads it, with podOwnedBy,
-- podInTerminalPhase, terminalPodMessage and etcdContainerStuck.
use etcd_operator.Prelude.{
  ℕ, String, ◌<>◌, Bool, false, ◌&&◌, ◌||◌, not, List, Option, none, some, ◌==◌, string_eq,
  option_eq, if◌then◌else◌, any, find?, is_some, ltb,
}
use etcd_operator.Api.Meta.{ConditionStatus, status_true, status_eq, Labels}
use etcd_operator.Api.Member.{EtcdMember}

pub record OwnerReference : Type 0 where
  pub kind : String
  pub uid : String

-- The reason of a termination, when the container is or was terminated.
pub record ContainerStatus : Type 0 where
  pub name : String
  pub ready : Bool
  pub restart_count : ℕ
  pub terminated : Option String
  pub last_terminated : Option String

pub record PodCondition : Type 0 where
  pub type : String
  pub status : ConditionStatus

pub record Pod : Type 0 where
  pub name : String
  pub uid : String
  pub labels : Labels
  pub owners : List OwnerReference
  pub deletion_timestamp : Option ℕ
  pub phase : String
  pub reason : String
  pub conditions : List PodCondition
  pub container_statuses : List ContainerStatus

abbrev pub data_loss_restart_threshold : ℕ
data_loss_restart_threshold = 5

-- An owner reference of the member's kind and UID.
unfoldable pub owned_by : {X : Type 0} → List OwnerReference → EtcdMember X → Bool
owned_by owners m = any (λ o. o.kind == "EtcdMember" && o.uid == m.meta.uid) owners

unfoldable pub pod_in_terminal_phase : Pod → Bool
pod_in_terminal_phase p = p.phase == "Succeeded" || p.phase == "Failed"

unfoldable pub terminal_pod_message : Pod → String
terminal_pod_message p =
    let msg = "pod reached terminal phase " <> p.phase in
    (if p.reason == "" then msg else msg <> (" (" <> (p.reason <> ")")))
    <> "; deleted for recreation"

-- The PodReady condition is true.
unfoldable pub pod_ready : Pod → Bool
pod_ready p = any (λ c. c.type == "Ready" && c.status == status_true) p.conditions

-- Running out of memory is not a lost data directory.
unfoldable pub is_stuck : ContainerStatus → Bool
is_stuck s =
    not (s.ready || ltb s.restart_count data_loss_restart_threshold)
    && not (s.terminated == some "OOMKilled")
    && not (s.last_terminated == some "OOMKilled")

-- The first status of the etcd container counts.
unfoldable pub etcd_container_stuck : Pod → Bool
unfolding is_stuck
etcd_container_stuck p =
    not (is_some p.deletion_timestamp)
    && (elim (find? (λ s. s.name == "etcd") p.container_statuses) [
      | none ↦ false
      | some s ↦ is_stuck s
    ])
