-- ===== src/Members.antt =====
-- The selections of members in controllers/helpers.go.
use etcd_operator.Prelude.{
  String, Bool, ◌&&◌, not, List, [], ◌∷◌, Option, map, select, find?, is_some,
}
use etcd_operator.Api.Member.{EtcdMember}
use etcd_operator.Naming.{client_url, member_service_name}

module _ {X : Type 0} where
  abbrev pub is_deleting : EtcdMember X → Bool
  is_deleting m = is_some m.meta.deletion_timestamp

  unfoldable pub filter_active_members : List (EtcdMember X) → List (EtcdMember X)
  filter_active_members ms = select (λ m. not (is_deleting m)) ms

  unfoldable pub filter_running_members : List (EtcdMember X) → List (EtcdMember X)
  filter_running_members ms = select (λ m. not (is_deleting m) && not m.spec.dormant) ms

  unfoldable pub find_dormant_member : List (EtcdMember X) → Option (EtcdMember X)
  find_dormant_member ms = find? (λ m. not (is_deleting m) && m.spec.dormant) ms

  -- The client URL of a member, under its own Service name.
  unfoldable pub member_url : String → String → EtcdMember X → String
  unfolding client_url member_service_name
  member_url scheme namespace m = client_url scheme m.meta.name (member_service_name m) namespace

  unfoldable pub member_endpoints : String → List (EtcdMember X) → String → List String
  unfolding member_url
  member_endpoints scheme ms namespace =
      let voters = map (member_url scheme namespace) (select (λ m. m.status.is_voter) ms) in
      elim voters [ [] ↦ map (member_url scheme namespace) ms | v ∷ vs ↦ v ∷ vs ]
