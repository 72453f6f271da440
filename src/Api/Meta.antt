-- ===== src/Api/Meta.antt =====
-- The fields of the Kubernetes object metadata and conditions that the controllers read or write,
-- and the reconcile result. A time is a number of nanoseconds; 0 is Go's zero time.
use etcd_operator.Prelude.{ℕ, String, Bool, true, false, List, Option, Eq, ◌≡◌, refl, ◌⊎◌, inl, inr}

pub data ConditionStatus : Type 0 where
  status_true status_false status_unknown : ConditionStatus

status_dec : Discrete ConditionStatus
status_dec = hlevel

instance unfoldable pub status_eq : Eq ConditionStatus
unfolding status_dec
status_eq = record { dec = status_dec }

pub record Condition : Type 0 where
  pub type : String
  pub status : ConditionStatus
  pub reason : String
  pub message : String
  pub observed_generation : ℕ
  pub last_transition_time : ℕ

-- A `map[string]string`; the keys of a real map are distinct.
abbrev pub Labels : Type 0
Labels = List (String × String)

-- `controller` is the UID of the controlling owner reference.
pub record ObjectMeta : Type 0 where
  pub name : String
  pub generate_name : String
  pub namespace : String
  pub uid : String
  pub generation : ℕ
  pub creation_timestamp : ℕ
  pub deletion_timestamp : Option ℕ
  pub labels : Labels
  pub annotations : Labels
  pub controller : Option String
  pub finalizers : List String

-- `ctrl.Result`: `requeue` and `requeue_after` in nanoseconds.
pub record Result : Type 0 where
  pub requeue : Bool
  pub requeue_after : ℕ

abbrev pub no_requeue : Result
no_requeue = record { requeue = false; requeue_after = 0 }

abbrev pub requeue_now : Result
requeue_now = record { requeue = true; requeue_after = 0 }

abbrev pub after : ℕ → Result
after d = record { requeue = false; requeue_after = d }

-- time.Second and time.Minute.
abbrev pub second : ℕ
second = 1000000000

abbrev pub minute : ℕ
minute = 60000000000

-- What an API call fails with, as far as the controllers tell failures apart.
pub data ApiError : Type 0 where
  not_found conflict : ApiError
  other : String → ApiError

pub data Answer {ℓ} (A : Type ℓ) : Type ℓ where
  ok : A → Answer A
  err : ApiError → Answer A

pub Answer-cases {ℓ} :
    {A : Type ℓ} (a : Answer A) → ((x : A) × (a ≡ ok x)) ⊎ ((e : ApiError) × (a ≡ err e))
Answer-cases (ok x) = inl (x, refl)
Answer-cases (err e) = inr (e, refl)
