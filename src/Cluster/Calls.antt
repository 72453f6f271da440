-- ===== src/Cluster/Calls.antt =====
-- What the cluster controller asks of the API server and of etcd about its members
-- (controllers/etcdcluster_controller.go), and a pass over such calls.
use etcd_operator.Prelude.{ℕ, String, Bool, List, [], ◌∷◌, Option, none, some, ◌*◌}
use etcd_operator.Api.Meta.{Result, after, second, ApiError, Answer, ok, err}
use etcd_operator.Api.Member.{EtcdMember}

-- A request, whatever its answer. The members of a create and of a patch are the ones sent; the
-- others are named. A learner is added by its peer URL and promoted by its etcd ID.
pub data Call (X : Type 0) : Type 0 where
  create_member patch_member : EtcdMember X → Call X
  stamp_voter pause wake delete_member add_learner : String → Call X
  set_voter : String → Bool → Call X
  promote : ℕ → Call X

-- The requests of a pass, in order, and its answer.
abbrev pub Step : Type 0 → Type 0
Step X = List (Call X) × Answer Result

-- A request whose failure ends the pass.
unfoldable pub ask : {X : Type 0} → Call X → Option ApiError → Step X → Step X
ask c (some e) next = (c ∷ [], err e)
ask c none next = (c ∷ next.0, next.1)

unfoldable pub refuse : {X : Type 0} → ApiError → Step X
refuse e = ([], err e)

-- Nothing to ask but to come back after `n` seconds.
unfoldable pub wait : {X : Type 0} → ℕ → Step X
wait n = ([], ok (after (n * second)))
