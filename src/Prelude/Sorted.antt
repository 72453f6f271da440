-- ===== src/Prelude/Sorted.antt =====
-- The head of a sorted list, for a strict weak order that is given as a Boolean comparison.
use mathlib.Core.Path.{◌≡◌, refl, sym, ap, subst}
use mathlib.Core.Logic.{◌⊎◌, inl, inr}
use mathlib.Core.Bool.{Bool, true, false}
use mathlib.Core.List.{List, [], ◌∷◌}
use native.Mathlib.Omega.{arith}
use etcd_operator.Prelude.Tests.{if◌then◌else◌, Bool-cases}
use etcd_operator.Prelude.Lists.{All, Has, head, tail}

module _ {A : Type 0} (before : A → A → Bool) where
  -- The first of the least.
  unfoldable pub least : A → List A → A
  least d [] = d
  least d (e ∷ es) = least (if before e d then e else d) es

  pub record IsStrictWeak : Type 0 where
    pub irrefl : (a : A) → before a a ≡ false
    pub trans : (a b c : A) → before a b ≡ true → before b c ≡ true → before a c ≡ true
    pub cotrans : (a b c : A) → before a c ≡ true → (before a b ≡ true) ⊎ (before b c ≡ true)

  abbrev pub NoneBefore : A → List A → Type 0
  NoneBefore r ds = All (λ x. before x r ≡ false) ds

  -- Nothing in the list is before its least.
  pub least-least : IsStrictWeak → (d : A) (ds : List A) → NoneBefore (least d ds) (d ∷ ds)
  unfolding least
  least-least o d [] = (o.irrefl d, tt)
  least-least o d (e ∷ es) =
      let swap = least-least o e es in
      let keep = least-least o d es in
      let pick = λ (b : Bool). least (if b then e else d) es in
      elim (Bool-cases (before e d)) [
        | inl p ↦
            subst (λ r. NoneBefore r (d ∷ e ∷ es)) (sym (ap pick p))
              (ground (arith, swap.0, o.trans e d (least e es)), (swap.0, swap.1))
        | inr p ↦
            subst (λ r. NoneBefore r (d ∷ e ∷ es)) (sym (ap pick p))
              (keep.0, (ground (arith, keep.0, o.cotrans e d (least d es)), keep.1))
      ]

  pub least-Has : (d : A) (ds : List A) → Has (least d ds) (d ∷ ds)
  unfolding least
  least-Has d [] = head refl
  least-Has d (e ∷ es) = elim (Bool-cases (before e d)) [
    | inl p ↦ rw (p, least) (tail (least-Has e es))
    | inr p ↦ rw (p, least) (skip (least-Has d es))
  ]
    where
      skip : Has (least d es) (d ∷ es) → Has (least d es) (d ∷ e ∷ es)
      skip (head q) = head q
      skip (tail r) = tail (tail r)

-- An insertion sort.
module _ {A : Type 0} (before : A → A → Bool) where
  unfoldable pub insert_by : A → List A → List A
  insert_by a [] = a ∷ []
  insert_by a (b ∷ bs) = let rest = insert_by a bs in if before b a then b ∷ rest else a ∷ b ∷ bs

  unfoldable pub sort_by : List A → List A
  unfolding insert_by
  sort_by [] = []
  sort_by (a ∷ bs) = insert_by a (sort_by bs)

  insert_by-Has_new : (a : A) (bs : List A) → Has a (insert_by a bs)
  unfolding insert_by
  insert_by-Has_new a [] = head refl
  insert_by-Has_new a (b ∷ bs) = elim (Bool-cases (before b a)) [
    | inl p ↦ rw (p) (tail (insert_by-Has_new a bs))
    | inr p ↦ rw (p) (head refl)
  ]

  insert_by-Has_old : (a x : A) (bs : List A) → Has x bs → Has x (insert_by a bs)
  unfolding insert_by
  insert_by-Has_old a x [] h = elim h [ ]
  insert_by-Has_old a x (b ∷ bs) (head q) = elim (Bool-cases (before b a)) [
    | inl p ↦ rw (p) (head q)
    | inr p ↦ rw (p) (tail (head q))
  ]
  insert_by-Has_old a x (b ∷ bs) (tail r) = elim (Bool-cases (before b a)) [
    | inl p ↦ rw (p) (tail (insert_by-Has_old a x bs r))
    | inr p ↦ rw (p) (tail (tail r))
  ]

  -- What was in the list is in the sorted one.
  pub Has-sort_by : (x : A) (bs : List A) → Has x bs → Has x (sort_by bs)
  unfolding sort_by
  Has-sort_by x [] h = elim h [ ]
  Has-sort_by x (a ∷ bs) (head q) =
      subst (λ y. Has y (insert_by a (sort_by bs))) (sym q) (insert_by-Has_new a (sort_by bs))
  Has-sort_by x (a ∷ bs) (tail r) = insert_by-Has_old a x (sort_by bs) (Has-sort_by x bs r)

  Has-of_insert_by : (a x : A) (bs : List A) → Has x (insert_by a bs) → Has x (a ∷ bs)
  unfolding insert_by
  Has-of_insert_by a x [] h = h
  Has-of_insert_by a x (b ∷ bs) h = elim (Bool-cases (before b a)) [
    | inl p ↦ later (rw p at h) (Has-of_insert_by a x bs)
    | inr p ↦ rw p at h
  ]
    where
      under : Has x (a ∷ bs) → Has x (a ∷ b ∷ bs)
      under (head q) = head q
      under (tail r) = tail (tail r)

      later :
          Has x (b ∷ insert_by a bs)
          → (Has x (insert_by a bs) → Has x (a ∷ bs))
          → Has x (a ∷ b ∷ bs)
      later (head q) ih = tail (head q)
      later (tail r) ih = under (ih r)

  -- What is in the sorted list was in the list.
  pub Has-of_sort_by : (x : A) (bs : List A) → Has x (sort_by bs) → Has x bs
  unfolding sort_by
  Has-of_sort_by x [] h = h
  Has-of_sort_by x (a ∷ bs) h = below (Has-of_insert_by a x (sort_by bs) h) (Has-of_sort_by x bs)
    where
      below : Has x (a ∷ sort_by bs) → (Has x (sort_by bs) → Has x bs) → Has x (a ∷ bs)
      below (head q) ih = head q
      below (tail r) ih = tail (ih r)
