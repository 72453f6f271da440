-- ===== src/Naming/DataDir.antt =====
-- validDataDirSubPath and memberDataDir of controllers/helpers.go: the annotation that relocates a
-- member's data directory.
use Prim.Native.Char.{code}
use etcd_operator.Prelude.{
  ℕ, String, ◌<>◌, Bool, true, false, ◌&&◌, ◌||◌, ◌==◌, string_eq, nat_eq, if◌then◌else◌, leb, not,
  ◌≡◌, refl, ap, ◌⊎◌, inl, inr, arith, ◌≢◌, Bool-cases,
}
use etcd_operator.Prelude.Text.{contains}
use etcd_operator.Api.Member.{EtcdMember}
use etcd_operator.Naming.{value_at, ann_data_dir_sub_path, etcd_data_dir_root}

abbrev is_alnum : ℕ → Bool
is_alnum c = (leb 97 c && leb c 122) || (leb 65 c && leb c 90) || (leb 48 c && leb c 57)

-- [a-zA-Z0-9._-]: a full stop is 46, a low line 95, a hyphen 45.
abbrev is_path_char : ℕ → Bool
is_path_char c = is_alnum c || c == 46 || c == 95 || c == 45

pub all_path_chars : String → Bool
all_path_chars String.[] = true
all_path_chars (String.◌∷◌ c s) =
    let rest = all_path_chars s in if is_path_char (code c) then rest else false

-- ^[a-zA-Z0-9][a-zA-Z0-9._-]*$
pub matches_sub_path : String → Bool
unfolding all_path_chars
matches_sub_path String.[] = false
matches_sub_path (String.◌∷◌ c s) = is_alnum (code c) && all_path_chars s

pub valid_data_dir_sub_path : String → Bool
unfolding matches_sub_path
valid_data_dir_sub_path s = if contains s "/" || contains s ".." then false else matches_sub_path s

-- path.Join puts one slash before a component that needs no cleaning, which a valid one does not.
pub member_data_dir : {X : Type 0} → EtcdMember X → String
unfolding valid_data_dir_sub_path value_at
member_data_dir m =
    let sub = value_at ann_data_dir_sub_path m.meta.annotations in
    if sub == "" || not (valid_data_dir_sub_path sub)
    then etcd_data_dir_root
    else etcd_data_dir_root <> ("/" <> sub)

-- Every character of a text has a code other than `k`.
abbrev pub Avoids : ℕ → String → Type 0
Avoids k String.[] = Unit
Avoids k (String.◌∷◌ c s) = (code c ≢ k) × Avoids k s

all_path_chars-Avoids : (s : String) → all_path_chars s ≡ true → Avoids 47 s
unfolding all_path_chars
all_path_chars-Avoids String.[] h = tt
all_path_chars-Avoids (String.◌∷◌ c s) h =
    (λ e. ground arith, all_path_chars-Avoids s (ground arith))

-- A valid sub-path is one component that names a place below the root.
abbrev pub IsComponent : String → Type 0
IsComponent s = Avoids 47 s × (s ≢ "") × (s ≢ ".") × (s ≢ "..")

dots_refused :
    (matches_sub_path "" ≡ false) × (matches_sub_path "." ≡ false) × (matches_sub_path ".." ≡ false)
unfolding matches_sub_path
dots_refused = (refl, refl, refl)

matches_sub_path-Avoids : (s : String) → matches_sub_path s ≡ true → Avoids 47 s
unfolding matches_sub_path
matches_sub_path-Avoids String.[] h = tt
matches_sub_path-Avoids (String.◌∷◌ c s) h =
    (λ e. ground arith, all_path_chars-Avoids s (ground arith))

matches_sub_path-IsComponent : (s : String) → matches_sub_path s ≡ true → IsComponent s
matches_sub_path-IsComponent s h = (
  matches_sub_path-Avoids s h,
  λ e. cc (ap matches_sub_path e, dots_refused.0),
  λ e. cc (ap matches_sub_path e, dots_refused.1),
  λ e. cc (ap matches_sub_path e, dots_refused.2),
)

-- Whatever the annotation holds, the data directory of a member is the root of its volume or one
-- named component directly below it.
pub member_data_dir_contained :
    {X : Type 0} (m : EtcdMember X)
    → (member_data_dir m ≡ etcd_data_dir_root)
      ⊎ ((s : String) × IsComponent s × (member_data_dir m ≡ etcd_data_dir_root <> ("/" <> s)))
unfolding member_data_dir
member_data_dir_contained m =
    let sub = value_at ann_data_dir_sub_path m.meta.annotations in
    elim (Bool-cases (sub == "" || not (valid_data_dir_sub_path sub))) [
      | inl e ↦ inl (rw e)
      | inr e ↦ inr (sub, matches_sub_path-IsComponent sub (ground arith), rw e)
    ]
