-- ===== src/Prelude/Lists.antt =====
-- Lists measured by native numbers, and searched and filtered by Boolean tests.
use Prim.Native.Nat.{ℕ, suc, ◌+◌, ◌≤◌}
use mathlib.Core.Path.{◌≡◌, refl, ap, sym, subst}
use mathlib.Core.Logic.{inl, inr}
use mathlib.Core.Bool.{Bool, true, false}
use mathlib.Core.List.{List, [], ◌∷◌, ◌++◌, map, Mem, mem-cons_self, mem-cons_of_mem}
use mathlib.Core.Option.{Option, none, some}
use native.Mathlib.Omega.{arith}
use etcd_operator.Prelude.Tests.{if◌then◌else◌, Bool-cases}

module _ {ℓ} {A : Type ℓ} where
  abbrev pub length : List A → ℕ
  length [] = 0
  length (x ∷ xs) = suc (length xs)

  pub length-append : (xs ys : List A) → length (xs ++ ys) ≡ length xs + length ys
  length-append [] ys = omega arith
  length-append (x ∷ xs) ys = omega (arith, length-append xs ys)

  -- The elements that pass a test, in order.
  abbrev pub select : (A → Bool) → List A → List A
  select p [] = []
  select p (x ∷ xs) = let rest = select p xs in if p x then x ∷ rest else rest

  abbrev pub count : (A → Bool) → List A → ℕ
  count p [] = 0
  count p (x ∷ xs) = let rest = count p xs in if p x then suc rest else rest

  -- The first element that passes a test.
  abbrev pub find? : (A → Bool) → List A → Option A
  find? p [] = none
  find? p (x ∷ xs) = let rest = find? p xs in if p x then some x else rest

  abbrev pub any : (A → Bool) → List A → Bool
  any p [] = false
  any p (x ∷ xs) = let rest = any p xs in if p x then true else rest

  abbrev pub all : (A → Bool) → List A → Bool
  all p [] = true
  all p (x ∷ xs) = let rest = all p xs in if p x then rest else false

  -- A predicate that holds of each element, as a tuple.
  abbrev pub All {κ} : (A → Type κ) → List A → Type κ
  All P [] = Unit
  All P (x ∷ xs) = P x × All P xs

  -- Membership, with the place kept.
  pub data Has (a : A) : List A → Type ℓ where
    head : {x : A} {xs : List A} → a ≡ x → Has a (x ∷ xs)
    tail : {x : A} {xs : List A} → Has a xs → Has a (x ∷ xs)

  pub All-append {κ} : (P : A → Type κ) (xs ys : List A) → All P xs → All P ys → All P (xs ++ ys)
  All-append P [] ys hx hy = hy
  All-append P (x ∷ xs) ys hx hy = (hx.0, All-append P xs ys hx.1 hy)

  pub count-le-length : (p : A → Bool) (xs : List A) → count p xs ≤ length xs
  count-le-length p [] = omega arith
  count-le-length p (x ∷ xs) = ground (arith, count-le-length p xs)

  pub count-append : (p : A → Bool) (xs ys : List A) → count p (xs ++ ys) ≡ count p xs + count p ys
  count-append p [] ys = omega arith
  count-append p (x ∷ xs) ys = ground (arith, count-append p xs ys)

pub length-map {ℓ κ} :
    {A : Type ℓ} {B : Type κ} (f : A → B) (xs : List A) → length (map f xs) ≡ length xs
length-map f [] = refl
length-map f (x ∷ xs) = ap suc (length-map f xs)

-- What holds of a selection, and of the whole list by it.
module _ {ℓ} {A : Type ℓ} (p : A → Bool) where
  pub Has-select : (a : A) (xs : List A) → Has a (select p xs) → Has a xs × (p a ≡ true)
  Has-select a [] h = elim h [ ]
  Has-select a (x ∷ xs) h = elim (Bool-cases (p x)) [
    | inl e ↦ first e (rw e at h) (Has-select a xs)
    | inr e ↦ let r = Has-select a xs (rw e at h) in (Has.tail r.0, r.1)
  ]
    where
      first :
          p x ≡ true
          → Has a (x ∷ select p xs)
          → (Has a (select p xs) → Has a xs × (p a ≡ true))
          → Has a (x ∷ xs) × (p a ≡ true)
      first e (Has.head q) ih = (Has.head q, rw q e)
      first e (Has.tail r) ih = let s = ih r in (Has.tail s.0, s.1)

  pub All-of_select {κ} :
      (P : A → Type κ) (xs : List A) → All P (select p xs) → All (λ x. p x ≡ true → P x) xs
  All-of_select P [] h = tt
  All-of_select P (x ∷ xs) h = elim (Bool-cases (p x)) [
    | inl e ↦ let k = rw e at h in (λ _. k.0, All-of_select P xs k.1)
    | inr e ↦ (λ q. cc, All-of_select P xs (rw e at h))
  ]

  pub length-select-le : (xs : List A) → length (select p xs) ≤ length xs
  length-select-le [] = omega arith
  length-select-le (x ∷ xs) = ground (arith, length-select-le xs)

pub find?-Mem {ℓ} :
    {A : Type ℓ} (p : A → Bool) (xs : List A) (a : A)
    → find? p xs ≡ some a
    → Mem a xs × (p a ≡ true)
find?-Mem p [] a h = cc
find?-Mem p (x ∷ xs) a h = elim (Bool-cases (p x)) [
  | inl e ↦ let same : x ≡ a = ground arith in (rw same mem-cons_self, rw same at e)
  | inr e ↦ let r = find?-Mem p xs a (rw e at h) in (mem-cons_of_mem x r.0, r.1)
]

-- A predicate at each place.
module _ {A : Type 0} where
  pub Has-All : (P : A → Type 0) (x : A) (xs : List A) → Has x xs → All P xs → P x
  Has-All P x [] h k = elim h [ ]
  Has-All P x (y ∷ ys) (head q) k = subst P (sym q) k.0
  Has-All P x (y ∷ ys) (tail h) k = Has-All P x ys h k.1

  pub All-of_Has : (P : A → Type 0) (xs : List A) → ((x : A) → Has x xs → P x) → All P xs
  All-of_Has P [] h = tt
  All-of_Has P (x ∷ xs) h = (h x (head refl), All-of_Has P xs (λ y k. h y (tail k)))

  pub any-Has : (p : A → Bool) (xs : List A) → any p xs ≡ true → (x : A) × Has x xs × (p x ≡ true)
  any-Has p [] h = ground arith
  any-Has p (x ∷ xs) h = elim (Bool-cases (p x)) [
    | inl passed ↦ (x, head refl, passed)
    | inr failed ↦ let r = any-Has p xs (ground arith) in (r.0, tail r.1, r.2)
  ]

  pub Has-any : (p : A → Bool) (x : A) (xs : List A) → Has x xs → p x ≡ true → any p xs ≡ true
  Has-any p x [] h k = elim h [ ]
  Has-any p x (y ∷ ys) (head q) k =
      let passed : p y ≡ true = subst (λ z. p z ≡ true) q k in ground arith
  Has-any p x (y ∷ ys) (tail h) k = ground (arith, Has-any p x ys h k)
