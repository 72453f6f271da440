-- ===== src/Policy/Runs.antt =====
-- The runs of a policy: ownedRuns, partitionDefragRuns, latestSuccessfulTime, defragFinishTime,
-- defragRunRefs and gcHistory of controllers/etcddefragpolicy_controller.go. sort.Slice, which may
-- leave equal elements in any order, is an insertion sort.
pub mod History
use etcd_operator.Prelude.{
  ℕ, zero, suc, ◌-◌, String, Bool, true, false, List, [], ◌∷◌, Option, none, some, ◌==◌, string_eq,
  if◌then◌else◌, ltb, leb, length, map, select,
}
use etcd_operator.Prelude.Sorted.{sort_by}
use etcd_operator.Prelude.Text.{str_ltb}
use etcd_operator.Api.Meta.{ApiError, ObjectMeta}
use etcd_operator.Api.Defrag.{EtcdDefrag, Phase}

-- IsControlledBy of the Kubernetes libraries.
unfoldable pub controlled_by : ObjectMeta → EtcdDefrag → Bool
controlled_by owner d = elim d.meta.controller [ none ↦ false | some uid ↦ uid == owner.uid ]

unfoldable pub owned_runs : ObjectMeta → List EtcdDefrag → List EtcdDefrag
unfolding controlled_by
owned_runs owner ds = select (controlled_by owner) ds

unfoldable pub is_finished : Phase → Bool
is_finished Phase.complete = true
is_finished Phase.failed = true
is_finished _ = false

-- The active runs and the finished ones.
unfoldable pub partition_defrag_runs : List EtcdDefrag → List EtcdDefrag × List EtcdDefrag
unfolding is_finished
partition_defrag_runs [] = ([], [])
partition_defrag_runs (d ∷ ds) =
    let rest = partition_defrag_runs ds in
    if is_finished d.status.phase then (rest.0, d ∷ rest.1) else (d ∷ rest.0, rest.1)

unfoldable pub defrag_run_refs : List EtcdDefrag → List String
defrag_run_refs ds = sort_by str_ltb (map (λ d. d.meta.name) ds)

later : ℕ → Option ℕ → ℕ
later t none = t
later t (some best) = if ltb best t then t else best

-- `best` is the latest so far.
latest_from : Option ℕ → List EtcdDefrag → Option ℕ
unfolding later
latest_from best [] = best
latest_from best (d ∷ ds) = elim d.status.phase [
  | Phase.complete ↦ elim d.status.completed_at [
    | none ↦ latest_from best ds
    | some t ↦ latest_from (some (later t best)) ds
  ]
  | _ ↦ latest_from best ds
]

unfoldable pub latest_successful_time : List EtcdDefrag → Option ℕ
unfolding latest_from
latest_successful_time ds = latest_from none ds

unfoldable pub defrag_finish_time : EtcdDefrag → ℕ
defrag_finish_time d = elim d.status.completed_at [ none ↦ d.meta.creation_timestamp | some t ↦ t ]

unfoldable pub finished_before : EtcdDefrag → EtcdDefrag → Bool
unfolding defrag_finish_time
finished_before a b = ltb (defrag_finish_time a) (defrag_finish_time b)

-- The runs that Delete is called on, and what it failed with. `delete` answers a call.
unfoldable pub delete_oldest :
    (EtcdDefrag → Option ApiError) → ℕ → List EtcdDefrag → List EtcdDefrag × Option ApiError
delete_oldest delete zero ds = ([], none)
delete_oldest delete (suc n) [] = ([], none)
delete_oldest delete (suc n) (d ∷ ds) =
    let rest = delete_oldest delete n ds in
    elim (delete d) [
      | none ↦ (d ∷ rest.0, rest.1)
      | some ApiError.not_found ↦ (d ∷ rest.0, rest.1)
      | some e ↦ (d ∷ [], some e)
    ]

unfoldable pub gc_history :
    (EtcdDefrag → Option ApiError)
    → List EtcdDefrag
    → (limit : ℕ) → List EtcdDefrag × Option ApiError
unfolding delete_oldest finished_before
gc_history delete finished limit =
    if leb (length finished) limit
    then ([], none)
    else delete_oldest delete (length finished - limit) (sort_by finished_before finished)
