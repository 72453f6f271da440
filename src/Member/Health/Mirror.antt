-- ===== src/Member/Health/Mirror.antt =====
-- What the mirrored fields of updateStatus of controllers/etcdmember_controller.go leave alone.
use etcd_operator.Prelude.{String, Bool, true, false, List, ◌≡◌, refl, ◌∙◌}
use etcd_operator.Api.Meta.{Condition}
use etcd_operator.Api.Member.{EtcdMember, MemberStatus}
use etcd_operator.Member.Pods.{Pod}
use etcd_operator.Member.Health.{
  Draft, assign, mirror_name, mirror_uid, mirror_claim, mirror_scale, mirror,
}

-- The conditions and the etcd ID.
abbrev pub kept : {X : Type 0} → EtcdMember X → List Condition × String
kept m = (m.status.conditions, m.status.member_id)

module _ {X : Type 0} where
  kept-assign :
      (same : Bool) (s : MemberStatus) (d : Draft X)
      → (s.conditions, s.member_id) ≡ kept d.0
      → kept (assign same s d).0 ≡ kept d.0
  kept-assign true s d e = refl
  kept-assign false s d e = e

  kept-name : (p : Pod) (d : Draft X) → kept (mirror_name p d).0 ≡ kept d.0
  unfolding mirror_name
  kept-name p d = kept-assign _ _ d refl

  kept-uid : (p : Pod) (d : Draft X) → kept (mirror_uid p d).0 ≡ kept d.0
  unfolding mirror_uid
  kept-uid p d = kept-assign _ _ d refl

  kept-claim : (d : Draft X) → kept (mirror_claim d).0 ≡ kept d.0
  unfolding mirror_claim
  kept-claim d = kept-assign _ _ d refl

  kept-scale : (d : Draft X) → kept (mirror_scale d).0 ≡ kept d.0
  unfolding mirror_scale
  kept-scale d = kept-assign _ _ _ refl ∙ kept-assign _ _ d refl

  pub kept-mirror : (p : Pod) (m : EtcdMember X) → kept (mirror p m).0 ≡ kept m
  unfolding mirror
  kept-mirror p m =
      let a = mirror_name p (m, false) in
      let b = mirror_uid p a in
      let c = mirror_claim b in
      kept-scale c ∙ (kept-claim b ∙ (kept-uid p a ∙ kept-name p (m, false)))
