-- ===== src/Condition.antt =====
-- setCondition of controllers/helpers.go, and the upsert that setMemberCondition of the same file,
-- setClusterCondition of controllers/etcdcluster_controller.go and setDefragCondition of
-- controllers/etcddefrag_controller.go share. `now` is the clock's reading.
pub mod Laws
use etcd_operator.Prelude.{
  ℕ, String, Bool, true, false, ◌&&◌, List, [], ◌∷◌, ◌==◌, string_eq, nat_eq, if◌then◌else◌,
}
use etcd_operator.Api.Meta.{Condition, ConditionStatus, status_eq}

-- The condition that replaces `existing`: the time of the last transition stays when the status does.
retime : Condition → ℕ → Condition → Condition
retime existing now c =
    if existing.status == c.status
    then record c { last_transition_time = existing.last_transition_time }
    else record c { last_transition_time = now }

unfoldable pub set_condition : List Condition → ℕ → Condition → List Condition
unfolding retime
set_condition [] now c = record c { last_transition_time = now } ∷ []
set_condition (existing ∷ rest) now c =
    if existing.type == c.type
    then retime existing now c ∷ rest
    else existing ∷ set_condition rest now c

unfoldable pub same_condition : Condition → Condition → Bool
same_condition existing want =
    existing.status == want.status
    && existing.reason == want.reason
    && existing.message == want.message
    && existing.observed_generation == want.observed_generation

-- Whether the first condition of the wanted type already is the wanted one.
unfoldable pub is_current : List Condition → Condition → Bool
unfolding same_condition
is_current [] want = false
is_current (existing ∷ rest) want =
    if existing.type == want.type then same_condition existing want else is_current rest want

-- The conditions afterwards, and whether anything changed.
unfoldable pub upsert : List Condition → ℕ → Condition → List Condition × Bool
unfolding is_current set_condition
upsert cs now want = if is_current cs want then (cs, false) else (set_condition cs now want, true)
