-- ===== src/Defrag/Queue.antt =====
-- oldestActive of controllers/etcddefrag_controller.go: the one run per cluster that may act.
use etcd_operator.Prelude.{
  String, Bool, true, false, ◌&&◌, not, List, [], ◌∷◌, ◌≡◌, refl, ◌⊎◌, inl, inr, ◌==◌, string_eq,
  nat_eq, ltb, if◌then◌else◌, select, All, Has, head, Has-All, All-of_Has, arith, ◌<◌, sym, subst,
  Bool-cases, Has-select, All-of_select,
}
use etcd_operator.Prelude.Sorted.{IsStrictWeak, NoneBefore, sort_by, Has-sort_by, Has-of_sort_by}
use etcd_operator.Prelude.Ordered.{Ordered, sort_by-Ordered}
use etcd_operator.Prelude.Text.{str_ltb, str_ltb_trans, str_ltb_irrefl, str_ltb_cotrans}
use etcd_operator.Api.Defrag.{EtcdDefrag, Phase}

unfoldable pub is_terminal : Phase → Bool
is_terminal Phase.complete = true
is_terminal Phase.failed = true
is_terminal _ = false

-- The comparison of the sort: by creation, then by name.
unfoldable pub before : EtcdDefrag → EtcdDefrag → Bool
before a b =
    if a.meta.creation_timestamp == b.meta.creation_timestamp
    then str_ltb a.meta.name b.meta.name
    else ltb a.meta.creation_timestamp b.meta.creation_timestamp

abbrev pub is_active_for : String → EtcdDefrag → Bool
is_active_for cluster d = d.spec.cluster_ref == cluster && not (is_terminal d.status.phase)

-- The runs of the cluster that are not finished.
abbrev pub actives : String → List EtcdDefrag → List EtcdDefrag
actives cluster ds = select (is_active_for cluster) ds

-- The name of the first one, after the sort; sort.Slice may leave equal elements in any order.
unfoldable pub first_of_sorted : List EtcdDefrag → String
unfolding before
first_of_sorted ds = elim (sort_by before ds) [ [] ↦ "" | d ∷ _ ↦ d.meta.name ]

unfoldable pub oldest_active : List EtcdDefrag → String → String
unfolding first_of_sorted is_terminal
oldest_active ds cluster = first_of_sorted (actives cluster ds)

before-IsStrictWeak : IsStrictWeak before
unfolding before
before-IsStrictWeak = record {
  irrefl = λ a. ground (arith, str_ltb_irrefl a.meta.name);
  trans = λ a b c p q. ground (arith, str_ltb_trans a.meta.name b.meta.name c.meta.name);
  cotrans = λ a b c p. ground (arith, str_ltb_cotrans a.meta.name b.meta.name c.meta.name);
}

-- `r` was created before `e`, or at the same time and `e`'s name is not the smaller one.
abbrev pub NotAfter : EtcdDefrag → EtcdDefrag → Type 0
NotAfter r e =
    (r.meta.creation_timestamp < e.meta.creation_timestamp)
    ⊎ ((r.meta.creation_timestamp ≡ e.meta.creation_timestamp)
        × (str_ltb e.meta.name r.meta.name ≡ false))

-- A run of the cluster that is not finished, and that is not after any other such run.
pub record IsOldest (cluster : String) (ds : List EtcdDefrag) (r : EtcdDefrag) : Type 0 where
  pub listed : Has r ds
  pub active : is_active_for cluster r ≡ true
  pub first : All (λ e. is_active_for cluster e ≡ true → NotAfter r e) ds

before-NotAfter : (r e : EtcdDefrag) → before e r ≡ false → NotAfter r e
unfolding before
before-NotAfter r e h = elim (Bool-cases (e.meta.creation_timestamp == r.meta.creation_timestamp)) [
  | inl same ↦ inr (ground arith, ground arith)
  | inr other ↦ inl (ground arith)
]

not-after_itself : (r : EtcdDefrag) → NotAfter r r
not-after_itself r = inr (refl, str_ltb_irrefl r.meta.name)

All-NotAfter :
    (r : EtcdDefrag) (ds : List EtcdDefrag) → NoneBefore before r ds → All (NotAfter r) ds
All-NotAfter r [] n = tt
All-NotAfter r (d ∷ ds) n = (before-NotAfter r d n.0, All-NotAfter r ds n.1)

sorted-IsOldest :
    (cluster : String) (ds sorted : List EtcdDefrag)
    → sort_by before (actives cluster ds) ≡ sorted
    → (actives cluster ds ≡ [])
      ⊎ ((r : EtcdDefrag) × IsOldest cluster ds r
          × ((elim sorted [ [] ↦ "" | d ∷ _ ↦ d.meta.name ]) ≡ r.meta.name))
sorted-IsOldest cluster ds [] q = inl (sort_by-empty (actives cluster ds) q)
  where
    sort_by-empty : (es : List EtcdDefrag) → sort_by before es ≡ [] → es ≡ []
    sort_by-empty [] q = refl
    sort_by-empty (e ∷ es) q =
        elim (subst (Has e) q (Has-sort_by before e (e ∷ es) (head refl))) [ ]
sorted-IsOldest cluster ds (r ∷ rest) q =
    let sel = actives cluster ds in
    let active =
      Has-select (is_active_for cluster) r ds
        (Has-of_sort_by before r sel (subst (Has r) (sym q) (head refl))) in
    let ordered = subst (Ordered before) q (sort_by-Ordered before before-IsStrictWeak sel) in
    inr (
      r,
      record {
        listed = active.0;
        active = active.1;
        first = All-of_select (is_active_for cluster) (NotAfter r) ds (
            All-of_Has (NotAfter r) sel (λ e h.
              Has-All (NotAfter r) e (r ∷ rest) (subst (Has e) q (Has-sort_by before e sel h))
                (not-after_itself r, All-NotAfter r rest ordered.0)));
      },
      refl,
    )

-- The run that may act is the oldest one of the cluster that is not finished, by creation and then
-- by name; there is none only when every run of the cluster is finished.
pub oldest_active-IsOldest :
    (ds : List EtcdDefrag) (cluster : String)
    → ((actives cluster ds ≡ []) × (oldest_active ds cluster ≡ ""))
      ⊎ ((r : EtcdDefrag) × IsOldest cluster ds r × (oldest_active ds cluster ≡ r.meta.name))
unfolding oldest_active first_of_sorted sort_by
oldest_active-IsOldest ds cluster =
    elim (sorted-IsOldest cluster ds (sort_by before (actives cluster ds)) refl) [
      | inl e ↦ inl (e, nobody e)
      | inr r ↦ inr r
    ]
  where
    empty : first_of_sorted [] ≡ ""
    empty = refl

    nobody : actives cluster ds ≡ [] → first_of_sorted (actives cluster ds) ≡ ""
    nobody e = subst (λ es. first_of_sorted es ≡ "") (sym e) empty
