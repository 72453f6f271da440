-- ===== src/Metadata.antt =====
-- applyAdditionalMetadata of controllers/helpers.go. A nil map is an empty one.
use etcd_operator.Prelude.{
  String, not, [], ◌∷◌, ◌++◌, ◌&&◌, Option, none, some, ◌≡◌, refl, ◌==◌, string_eq, if◌then◌else◌,
  find?, is_some, arith, inl, inr, Bool-cases,
}
use etcd_operator.Prelude.Text.{has_prefix}
use etcd_operator.Api.Meta.{Labels}
use etcd_operator.Api.Cluster.{AdditionalMetadata}
use etcd_operator.Naming.{reserved_prefix}

abbrev pub lookup : String → Labels → Option (String × String)
lookup k = find? (λ e. e.0 == k)

-- One round of the two loops: a reserved key is skipped, a key that is taken keeps its value.
add_entry : Labels → String × String → Labels
add_entry m (k, v) =
    if has_prefix k reserved_prefix
    then m
    else (if is_some (lookup k m) then m else m ++ ((k, v) ∷ []))

unfoldable pub merge : Labels → Labels → Labels
unfolding add_entry
merge m [] = m
merge m (e ∷ es) = merge (add_entry m e) es

unfoldable pub apply_additional_metadata :
    Labels → Labels → Option AdditionalMetadata → Labels × Labels
unfolding merge
apply_additional_metadata labels annotations none = (labels, annotations)
apply_additional_metadata labels annotations (some md) =
    (merge labels md.labels, merge annotations md.annotations)

lookup-append :
    (k : String) (m n : Labels)
    → lookup k (m ++ n) ≡ elim (lookup k m) [ some e ↦ some e | none ↦ lookup k n ]
lookup-append k [] n = refl
lookup-append k (e ∷ m) n = ground (arith, lookup-append k m n)

-- What a merged map answers: the operator's own entry first, nothing for a reserved key, and
-- otherwise the user's entry.
abbrev pub merged : String → Labels → Labels → Option (String × String)
merged k own extra = elim (lookup k own) [
  | some e ↦ some e
  | none ↦ if has_prefix k reserved_prefix then none else lookup k extra
]

lookup-add_entry :
    (k : String) (m : Labels) (e : String × String)
    → lookup k (add_entry m e) ≡ (
        if e.0 == k && not (has_prefix k reserved_prefix) && not (is_some (lookup k m))
        then some e
        else lookup k m)
unfolding add_entry
lookup-add_entry k m (j, v) = elim (Bool-cases (j == k)) [
  | inl same ↦ let same : j ≡ k = ground arith in ground (arith, lookup-append k m ((j, v) ∷ []))
  | inr differ ↦ ground (arith, lookup-append k m ((j, v) ∷ []))
]

lookup-merge : (k : String) (own extra : Labels) → lookup k (merge own extra) ≡ merged k own extra
unfolding merge
lookup-merge k own [] = ground arith
lookup-merge k own (e ∷ extra) =
    ground (arith, lookup-merge k (add_entry own e) extra, lookup-add_entry k own e)

-- For the labels and for the annotations alike, the user's metadata never changes a key that the
-- operator set, never adds a reserved key and adds every other key with its first value.
pub apply_additional_metadata-IsMerged :
    (k : String) (labels annotations : Labels) (md : AdditionalMetadata)
    → (lookup k (apply_additional_metadata labels annotations (some md)).0
        ≡ merged k labels md.labels)
      × (lookup k (apply_additional_metadata labels annotations (some md)).1
          ≡ merged k annotations md.annotations)
unfolding apply_additional_metadata
apply_additional_metadata-IsMerged k labels annotations md =
    (lookup-merge k labels md.labels, lookup-merge k annotations md.annotations)
