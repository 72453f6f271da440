-- ===== src/Policy/Runs/History.antt =====
-- What the history limit deletes (gcHistory of controllers/etcddefragpolicy_controller.go).
use mathlib.Core.List.{Perm}
use mathlib.Core.List.Perm
use etcd_operator.Prelude.{
  ℕ, zero, suc, ◌-◌, ◌≤◌, min, false, List, [], ◌∷◌, ◌++◌, Option, none, some, ◌≡◌, refl, ap, inl,
  inr, arith, leb, length, Bool-cases, Option-cases, All, subst,
}
use etcd_operator.Prelude.Sorted.{IsStrictWeak, sort_by}
use etcd_operator.Prelude.Ordered.{Ordered, sort_by-Perm, sort_by-Ordered, length-sort_by}
use etcd_operator.Api.Meta.{ApiError}
use etcd_operator.Api.Defrag.{EtcdDefrag}
use etcd_operator.Policy.Runs.{delete_oldest, finished_before, gc_history}

-- `ds` is what was deleted and what is kept, and no kept run finished before a deleted one.
abbrev pub Older : EtcdDefrag → List EtcdDefrag → Type 0
Older d kept = All (λ k. finished_before k d ≡ false) kept

pub record IsTrimmed (finished : List EtcdDefrag) (limit : ℕ)
    (r : List EtcdDefrag × Option ApiError) : Type 0 where
  pub kept : List EtcdDefrag
  pub whole : Perm finished (r.0 ++ kept)
  pub older : All (λ d. Older d kept) r.0
  pub retained : min (length finished) limit ≤ length kept
  pub exact : r.1 ≡ none → length kept ≡ min (length finished) limit

pub finished_before-IsStrictWeak : IsStrictWeak finished_before
unfolding finished_before
finished_before-IsStrictWeak = record {
  irrefl = λ a. ground arith;
  trans = λ a b c p q. ground arith;
  cotrans = λ a b c p. elim (Bool-cases (finished_before a b)) [
    | inl q ↦ inl q
    | inr q ↦ inr (ground (arith, p, q))
  ];
}

-- The first `n` of an ordered list, or fewer after a failure.
record IsPrefix (ds : List EtcdDefrag) (n : ℕ) (r : List EtcdDefrag × Option ApiError)
    : Type 0 where
  kept : List EtcdDefrag
  whole : ds ≡ r.0 ++ kept
  older : All (λ d. Older d kept) r.0
  retained : length ds - n ≤ length kept
  exact : r.1 ≡ none → length kept ≡ length ds - n

All-suffix : (P : EtcdDefrag → Type 0) (xs ys : List EtcdDefrag) → All P (xs ++ ys) → All P ys
All-suffix P [] ys h = h
All-suffix P (x ∷ xs) ys h = All-suffix P xs ys h.1

module _ (delete : EtcdDefrag → Option ApiError) where
  delete_oldest-IsPrefix :
      (n : ℕ) (ds : List EtcdDefrag)
      → Ordered finished_before ds
      → IsPrefix ds n (delete_oldest delete n ds)
  unfolding delete_oldest
  delete_oldest-IsPrefix zero ds s = record {
    kept = ds;
    whole = refl;
    older = tt;
    retained = omega arith;
    exact = λ _. omega arith;
  }
  delete_oldest-IsPrefix (suc n) [] s = record {
    kept = [];
    whole = refl;
    older = tt;
    retained = omega arith;
    exact = λ _. omega arith;
  }
  delete_oldest-IsPrefix (suc n) (d ∷ ds) s =
      let rest = delete_oldest-IsPrefix n ds s.1 in
      elim (Option-cases (delete d)) [
        | inl p ↦ rw (p, delete_oldest) (go rest)
        | inr (ApiError.not_found, p) ↦ rw (p, delete_oldest) (go rest)
        | inr (ApiError.conflict, p) ↦ rw (p, delete_oldest) (stop ApiError.conflict)
        | inr (ApiError.other t, p) ↦ rw (p, delete_oldest) (stop (ApiError.other t))
      ]
    where
      go :
          IsPrefix ds n (delete_oldest delete n ds)
          → IsPrefix
              (d ∷ ds)
              (suc n)
              (d ∷ (delete_oldest delete n ds).0, (delete_oldest delete n ds).1)
      go rest = record {
        kept = rest.kept;
        whole = ap (λ l. d ∷ l) rest.whole;
        older = (
          All-suffix (λ k. finished_before k d ≡ false) (delete_oldest delete n ds).0 rest.kept
              (subst (All (λ k. finished_before k d ≡ false)) rest.whole s.0),
          rest.older,
        );
        retained = omega (arith, rest.retained);
        exact = λ h. omega (arith, rest.exact h);
      }

      stop : (e : ApiError) → IsPrefix (d ∷ ds) (suc n) (d ∷ [], some e)
      stop e = record {
        kept = ds;
        whole = refl;
        older = (s.0, tt);
        retained = omega arith;
        exact = λ h. ground arith;
      }

-- Whatever Delete answers, the runs that it is called on and those that are kept are together the
-- finished runs; no kept run finished before one that was given up; the limit, or all the runs when
-- there are fewer, is kept; and when no call failed, other than on a run already gone, no more is.
pub gc_history-IsTrimmed :
    (delete : EtcdDefrag → Option ApiError) (finished : List EtcdDefrag) (limit : ℕ)
    → IsTrimmed finished limit (gc_history delete finished limit)
unfolding gc_history
gc_history-IsTrimmed delete finished limit = elim (Bool-cases (leb (length finished) limit)) [
  | inl p ↦ rw (p) (record {
    kept = finished;
    whole = Perm.refl finished;
    older = tt;
    retained = omega arith;
    exact = λ _. ground (arith, p);
  })
  | inr p ↦ rw (p) (trimmed (ground (arith, p)))
]
  where
    sorted : List EtcdDefrag
    sorted = sort_by finished_before finished

    run : List EtcdDefrag × Option ApiError
    run = delete_oldest delete (length finished - limit) sorted

    prefix : IsPrefix sorted (length finished - limit) run
    prefix =
        delete_oldest-IsPrefix delete (length finished - limit) sorted
          (sort_by-Ordered finished_before finished_before-IsStrictWeak finished)

    size : length sorted ≡ length finished
    size = length-sort_by finished_before finished

    trimmed : limit ≤ length finished → IsTrimmed finished limit run
    trimmed fits = record {
      kept = prefix.kept;
      whole = subst (Perm finished) prefix.whole (sort_by-Perm finished_before finished);
      older = prefix.older;
      retained = omega (arith, prefix.retained, size);
      exact = λ h. omega (arith, prefix.exact h, size);
    }
