-- ===== src/Cluster/ScaleDown.antt =====
-- scaleDown of controllers/etcdcluster_controller.go: the newest member goes, and the last one is
-- paused.
use etcd_operator.Prelude.{
  ◌<◌, ◌*◌, Bool, true, false, ◌&&◌, List, [], ◌∷◌, Option, none, some, ◌≡◌, ◌==◌, nat_eq,
  string_eq, ltb, if◌then◌else◌, length, Has, arith, ◌⊎◌, inl, inr, Bool-cases,
}
use etcd_operator.Prelude.Sorted.{least, IsStrictWeak, NoneBefore, least-least, least-Has}
use etcd_operator.Prelude.Text.{str_ltb, str_ltb_trans, str_ltb_irrefl, str_ltb_cotrans}
use etcd_operator.Api.Meta.{Result, after, second, ApiError, Answer, ok, err, not_found}
use etcd_operator.Api.Cluster.{EtcdCluster, ObservedClusterSpec}
use etcd_operator.Api.Member.{EtcdMember}
use etcd_operator.Cluster.Calls.{Step, pause, delete_member}

-- The API server's answers to the patch and to the delete.
pub record Env : Type 0 where
  pub patch : Option ApiError
  pub delete : Option ApiError

abbrev retry_later : Answer Result
retry_later = ok (after (10 * second))

-- errors.IsNotFound counts as deleted.
unfoldable pub deleted : Option ApiError → Answer Result
deleted none = retry_later
deleted (some not_found) = retry_later
deleted (some e) = err e

module _ {X : Type 0} where
  -- The comparison of the sort: the newest first, then the greater name.
  unfoldable pub newer : EtcdMember X → EtcdMember X → Bool
  newer a b =
      if a.meta.creation_timestamp == b.meta.creation_timestamp
      then str_ltb b.meta.name a.meta.name
      else ltb b.meta.creation_timestamp a.meta.creation_timestamp

  newer-IsStrictWeak : IsStrictWeak newer
  unfolding newer
  newer-IsStrictWeak = record {
    irrefl = λ a. ground (arith, str_ltb_irrefl a.meta.name);
    trans = λ a b c p q. ground (arith, str_ltb_trans c.meta.name b.meta.name a.meta.name);
    cotrans = λ a b c p. ground (arith, str_ltb_cotrans c.meta.name b.meta.name a.meta.name);
  }

  abbrev pub victim : EtcdMember X → List (EtcdMember X) → EtcdMember X
  victim m ms = least newer m ms

  -- The 1 to 0 step.
  unfoldable pub pauses : EtcdCluster X → List (EtcdMember X) → Bool
  pauses c members = elim c.status.observed [
    | none ↦ false
    | some o ↦ o.replicas == 0 && length members == 1
  ]

  unfoldable pub pause_step : Env → EtcdMember X → Step X
  pause_step env v =
      if v.spec.dormant
      then ([], retry_later)
      else (pause v.meta.name ∷ [], elim env.patch [ some e ↦ err e | none ↦ retry_later ])

  unfoldable pub delete_step : Env → EtcdMember X → Step X
  unfolding deleted
  delete_step env v = (delete_member v.meta.name ∷ [], deleted env.delete)

  -- scaleDown on the members `m ∷ ms`; on none the source's members[0] would panic.
  unfoldable pub scale_down : Env → EtcdCluster X → EtcdMember X → List (EtcdMember X) → Step X
  unfolding pauses pause_step delete_step
  scale_down env c m ms =
      if pauses c (m ∷ ms) then pause_step env (victim m ms) else delete_step env (victim m ms)

-- One step down on the members `members`: what it asks for is about a single member, one that no
-- member is newer than.
pub record Shrinks {X : Type 0} (members : List (EtcdMember X)) (s : Step X) : Type 0 where
  pub who : EtcdMember X
  pub listed : Has who members
  pub newest : NoneBefore newer who members
  pub asked :
      ((s.0 ≡ []) × (who.spec.dormant ≡ true))
      ⊎ ((s.0 ≡ pause who.meta.name ∷ []) × (length members ≡ 1))
      ⊎ ((s.0 ≡ delete_member who.meta.name ∷ []) × (1 < length members))

-- With more members than the target asks for, a step down deletes the newest member, by creation
-- and then by name, only when another one stays, and pauses the last member instead of deleting
-- it, asking nothing when it is paused already.
pub scale_down-Shrinks :
    {X : Type 0} (env : Env) (c : EtcdCluster X) (o : ObservedClusterSpec X) (m : EtcdMember X)
    (ms : List (EtcdMember X))
    → c.status.observed ≡ some o
    → o.replicas < length (m ∷ ms)
    → Shrinks (m ∷ ms) (scale_down env c m ms)
unfolding scale_down pauses pause_step delete_step
scale_down-Shrinks env c o m ms latched more =
    let v = victim m ms in
    record {
      who = v;
      listed = least-Has newer m ms;
      newest = least-least newer newer-IsStrictWeak m ms;
      asked = elim (Bool-cases (pauses c (m ∷ ms))) [
        | inl last ↦ elim (Bool-cases v.spec.dormant) [
          | inl paused ↦ inl (ground arith, paused)
          | inr awake ↦ inr (inl (ground arith, ground arith))
        ]
        | inr many ↦ inr (inr (ground arith, ground arith))
      ];
    }
