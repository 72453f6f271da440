-- ===== src/Condition/Laws.antt =====
-- What a condition list holds after setCondition and after the upserts built on it.
use etcd_operator.Prelude.{
  ℕ, String, Bool, true, false, List, [], ◌∷◌, Option, none, some, ◌≡◌, ◌==◌, string_eq,
  if◌then◌else◌, find?, arith,
}
use etcd_operator.Api.Meta.{Condition, status_true, status_eq}
use etcd_operator.Condition.{set_condition, is_current, same_condition, upsert}

-- The condition of a type: the first one, as the controllers search for it.
abbrev pub condition_of : String → List Condition → Option Condition
condition_of t = find? (λ c. c.type == t)

-- The time that a condition which sets `c` over `old` is given.
abbrev pub transition_time : Option Condition → ℕ → Condition → ℕ
transition_time none now c = now
transition_time (some old) now c = if old.status == c.status then old.last_transition_time else now

-- After setCondition the type of `c` reads as `c`, with the old time when the status is the same
-- and `now` otherwise, and every other type reads as before.
pub condition_of-set_condition :
    (t : String) (cs : List Condition) (now : ℕ) (c : Condition)
    → condition_of t (set_condition cs now c) ≡ (
        if c.type == t
        then some
            (record c { last_transition_time = transition_time (condition_of c.type cs) now c })
        else condition_of t cs)
unfolding set_condition
condition_of-set_condition t [] now c = ground arith
condition_of-set_condition t (e ∷ cs) now c = ground (arith, condition_of-set_condition t cs now c)

is_current-set_condition :
    (cs : List Condition) (now : ℕ) (c : Condition) → is_current (set_condition cs now c) c ≡ true
unfolding set_condition is_current
is_current-set_condition [] now c = ground arith
is_current-set_condition (e ∷ cs) now c = ground (arith, is_current-set_condition cs now c)

pub upsert_again :
    (cs : List Condition) (now later : ℕ) (c : Condition)
    → upsert (upsert cs now c).0 later c ≡ ((upsert cs now c).0, false)
unfolding upsert
upsert_again cs now later c = ground (arith, is_current-set_condition cs now c)

pub upsert-current :
    (cs : List Condition) (now : ℕ) (c : Condition)
    → is_current cs c ≡ true
    → upsert cs now c ≡ (cs, false)
unfolding upsert
upsert-current cs now c h = ground arith

-- Whether the condition of a type is true.
abbrev pub is_true : String → List Condition → Bool
is_true t cs = elim (condition_of t cs) [ none ↦ false | some k ↦ k.status == status_true ]

is_current-is_true :
    (cs : List Condition) (w : Condition)
    → is_current cs w ≡ true
    → is_true w.type cs ≡ (w.status == status_true)
unfolding is_current same_condition
is_current-is_true [] w h = ground arith
is_current-is_true (e ∷ cs) w h = ground (arith, is_current-is_true cs w)

pub is_true-upsert :
    (t : String) (cs : List Condition) (now : ℕ) (w : Condition)
    → is_true t (upsert cs now w).0
      ≡ (if w.type == t then w.status == status_true else is_true t cs)
unfolding upsert
is_true-upsert t cs now w =
    ground (arith, is_current-is_true cs w, condition_of-set_condition t cs now w)

pub upsert-unchanged :
    (cs : List Condition) (now : ℕ) (w : Condition)
    → (upsert cs now w).1 ≡ false
    → (upsert cs now w).0 ≡ cs
unfolding upsert
upsert-unchanged cs now w h = ground arith
