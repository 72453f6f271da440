-- ===== src/Prelude/Ordered.antt =====
-- The insertion sort: it permutes, and its result is ordered, for a strict weak order.
use mathlib.Core.Path.{◌≡◌, refl, ap, ◌∙◌}
use mathlib.Core.Logic.{inl, inr}
use mathlib.Core.Bool.{Bool, false}
use mathlib.Core.List.{List, [], ◌∷◌, Perm}
use mathlib.Core.List.Perm
use Prim.Native.Nat.{suc}
use native.Mathlib.Omega.{arith}
use etcd_operator.Prelude.Tests.{Bool-cases}
use etcd_operator.Prelude.Lists.{length}
use etcd_operator.Prelude.Sorted.{IsStrictWeak, NoneBefore, insert_by, sort_by}

module _ {A : Type 0} (before : A → A → Bool) where
  insert_by-Perm : (a : A) (bs : List A) → Perm (a ∷ bs) (insert_by before a bs)
  unfolding insert_by
  insert_by-Perm a [] = Perm.refl (a ∷ [])
  insert_by-Perm a (b ∷ bs) = elim (Bool-cases (before b a)) [
    | inl p ↦ rw (p) (Perm.trans (Perm.swap b a bs) (Perm.cons b (insert_by-Perm a bs)))
    | inr p ↦ rw (p) (Perm.refl (a ∷ b ∷ bs))
  ]

  pub sort_by-Perm : (bs : List A) → Perm bs (sort_by before bs)
  unfolding sort_by
  sort_by-Perm [] = Perm.refl []
  sort_by-Perm (a ∷ bs) =
      Perm.trans (Perm.cons a (sort_by-Perm bs)) (insert_by-Perm a (sort_by before bs))

  length-insert_by : (a : A) (bs : List A) → length (insert_by before a bs) ≡ suc (length bs)
  unfolding insert_by
  length-insert_by a [] = refl
  length-insert_by a (b ∷ bs) = ground (arith, length-insert_by a bs)

  pub length-sort_by : (bs : List A) → length (sort_by before bs) ≡ length bs
  unfolding sort_by
  length-sort_by [] = refl
  length-sort_by (a ∷ bs) = length-insert_by a (sort_by before bs) ∙ ap suc (length-sort_by bs)

  -- No element is before an earlier one.
  abbrev pub Ordered : List A → Type 0
  Ordered [] = Unit
  Ordered (a ∷ bs) = NoneBefore before a bs × Ordered bs

  module _ (o : IsStrictWeak before) where
    -- What is not before `b` is not before what `b` is not before.
    NoneBefore-trans :
        (a b : A) (cs : List A)
        → before b a ≡ false
        → NoneBefore before b cs
        → NoneBefore before a cs
    NoneBefore-trans a b [] h n = tt
    NoneBefore-trans a b (c ∷ cs) h n =
        (ground (arith, n.0, o.cotrans c b a), NoneBefore-trans a b cs h n.1)

    NoneBefore-insert_by :
        (r a : A) (bs : List A)
        → before a r ≡ false
        → NoneBefore before r bs
        → NoneBefore before r (insert_by before a bs)
    unfolding insert_by
    NoneBefore-insert_by r a [] h n = (h, tt)
    NoneBefore-insert_by r a (b ∷ bs) h n = elim (Bool-cases (before b a)) [
      | inl p ↦ rw (p) (n.0, NoneBefore-insert_by r a bs h n.1)
      | inr p ↦ rw (p) (h, n)
    ]

    insert_by-Ordered : (a : A) (bs : List A) → Ordered bs → Ordered (insert_by before a bs)
    unfolding insert_by
    insert_by-Ordered a [] s = (tt, tt)
    insert_by-Ordered a (b ∷ bs) s = elim (Bool-cases (before b a)) [
      | inl p ↦ rw (p) (
        NoneBefore-insert_by b a bs (ground (arith, o.trans b a b p, o.irrefl b)) s.0,
        insert_by-Ordered a bs s.1,
      )
      | inr p ↦ rw (p) ((p, NoneBefore-trans a b bs p s.0), s)
    ]

    pub sort_by-Ordered : (bs : List A) → Ordered (sort_by before bs)
    unfolding sort_by
    sort_by-Ordered [] = tt
    sort_by-Ordered (a ∷ bs) = insert_by-Ordered a (sort_by before bs) (sort_by-Ordered bs)
