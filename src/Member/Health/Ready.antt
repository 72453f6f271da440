-- ===== src/Member/Health/Ready.antt =====
-- The Ready condition that updateStatus of controllers/etcdmember_controller.go reports.
use etcd_operator.Prelude.{
  ℕ, ◌<>◌, String, Bool, true, false, ◌&&◌, ◌||◌, not, ◌≡◌, refl, ◌⊎◌, inl, inr, ◌==◌, string_eq,
  arith, Bool-cases, Option-cases, ◌∙◌, ap, sym, subst,
}
use etcd_operator.Prelude.Text.{quote}
use etcd_operator.Prelude.Hex.{hex16, hex16-full}
use etcd_operator.Api.Meta.{
  Condition, ConditionStatus, status_true, status_false, status_eq, ApiError, ok, Answer-cases,
}
use etcd_operator.Api.Member.{EtcdMember}
use etcd_operator.Condition.Laws.{is_true, is_true-upsert}
use etcd_operator.Member.Pods.{Pod, pod_ready}
use etcd_operator.Member.Dial.{discover_member_id, observe_version}
use etcd_operator.Member.Health.Mirror.{kept-mirror}
use etcd_operator.Member.Health.{
  Env, Draft, with_status, assign, set_member_condition, mirror, report_ready, report_drift,
  report_version, report, publish, observe_pod, gives_up, update_status,
}

abbrev same_type : String → String → Bool
same_type s t = s == t

drift_not_ready : same_type "VersionDrifted" "Ready" ≡ false
unfolding string_eq
drift_not_ready = refl

ready_itself : same_type "Ready" "Ready" ≡ true
unfolding string_eq
ready_itself = refl

-- What is read of a draft: whether it says Ready, and the etcd ID.
abbrev reads : {X : Type 0} → EtcdMember X → Bool × String
reads m = (is_true "Ready" m.status.conditions, m.status.member_id)

module _ {X : Type 0} (now : ℕ) where
  reads-ready :
      (s : ConditionStatus) (reason message : String) (d : Draft X)
      → reads (set_member_condition now "Ready" s reason message d).0
        ≡ (s == status_true, d.0.status.member_id)
  unfolding set_member_condition
  reads-ready s reason message d =
      let w : Condition = record {
        type = "Ready";
        status = s;
        reason = reason;
        message = message;
        observed_generation = d.0.meta.generation;
        last_transition_time = 0;
      } in
      ap (λ b. (b, d.0.status.member_id))
        (is_true-upsert "Ready" d.0.status.conditions now w ∙ ground (arith, ready_itself))

  reads-drift :
      (s : ConditionStatus) (reason message : String) (d : Draft X)
      → reads (set_member_condition now "VersionDrifted" s reason message d).0 ≡ reads d.0
  unfolding set_member_condition
  reads-drift s reason message d =
      let w : Condition = record {
        type = "VersionDrifted";
        status = s;
        reason = reason;
        message = message;
        observed_generation = d.0.meta.generation;
        last_transition_time = 0;
      } in
      ap (λ b. (b, d.0.status.member_id))
        (is_true-upsert "Ready" d.0.status.conditions now w ∙ ground (arith, drift_not_ready))

module _ {X : Type 0} (env : Env X) where
  reads-report_drift : (d : Draft X) → reads (report_drift env d).0 ≡ reads d.0
  unfolding report_drift
  reads-report_drift d = elim (Bool-cases (d.0.status.version == "" || d.0.spec.version == "")) [
    | inl unknown ↦ ground arith
    | inr known ↦ elim (Bool-cases (d.0.status.version == d.0.spec.version)) [
      | inl same ↦
          let msg =
            "running etcd version "
            <> (quote d.0.status.version <> " matches intended spec.version") in
          let q : report_drift env d
              ≡ set_member_condition env.now "VersionDrifted" status_false "VersionMatched" msg d =
            ground arith in
          ap (λ e. reads e.0) q ∙ reads-drift env.now status_false "VersionMatched" msg d
      | inr other ↦
          let msg =
            "running etcd version "
            <> (quote d.0.status.version
                <> (" does not match intended spec.version " <> quote d.0.spec.version)) in
          let q : report_drift env d
              ≡ set_member_condition env.now "VersionDrifted" status_true "VersionMismatch" msg d =
            ground arith in
          ap (λ e. reads e.0) q ∙ reads-drift env.now status_true "VersionMismatch" msg d
    ]
  ]

  reads-report_version : (d : Draft X) → reads (report_version env d).0 ≡ reads d.0
  unfolding report_version
  reads-report_version d =
      let v = observe_version env.dial d.0 in
      let e = assign (v == d.0.status.version) (record (d.0.status) { version = v }) d in
      reads-report_drift e ∙ versioned (v == d.0.status.version)
    where
      versioned :
          (same : Bool)
          → reads (assign same (record (d.0.status) { version = observe_version env.dial d.0 }) d).0
            ≡ reads d.0
      versioned true = refl
      versioned false = refl

  -- What a report says of the Pod `p`, over a member with the etcd ID `id`.
  abbrev pub IsTrue : Pod → String → EtcdMember X → EtcdMember X → Type 0
  IsTrue p id seen m =
      (is_true "Ready" m.status.conditions ≡ (pod_ready p && not (m.status.member_id == "")))
      × ((m.status.member_id ≡ id)
          ⊎ ((n : ℕ) × (id ≡ "")
              × (discover_member_id env.dial seen ≡ ok n)
              × (m.status.member_id ≡ hex16 n)))

  report_ready-IsTrue :
      (p : Pod) (d : Draft X) → IsTrue p d.0.status.member_id d.0 (report_ready env p d).0.0
  unfolding report_ready
  report_ready-IsTrue p d = elim (Bool-cases (pod_ready p)) [
    | inr down ↦
        let q = reads-ready env.now status_false "PodNotReady" ("pod phase: " <> p.phase) d in
        (ground (arith, q), inl (ground (arith, q)))
    | inl up ↦ elim (Bool-cases (d.0.status.member_id == "")) [
      | inr known ↦
          let q = reads-ready env.now status_true "PodReady" "etcd member is ready" d in
          (ground (arith, q), inl (ground (arith, q)))
      | inl unknown ↦ elim (Answer-cases (discover_member_id env.dial d.0)) [
        | inr (e, failed) ↦
            let q =
              reads-ready env.now status_false "DiscoveringMemberID"
                ("waiting for memberID: " <> env.show_error e) d in
            (ground (arith, q), inl (ground (arith, q)))
        | inl (n, found) ↦
            let with_id : Draft X =
              (with_status d.0 (record (d.0.status) { member_id = hex16 n }), true) in
            let q = reads-ready env.now status_true "PodReady" "etcd member is ready" with_id in
            (ground (arith, q, hex16-full n), inr (n, ground arith, found, ground (arith, q)))
      ]
    ]
  ]

  report-IsTrue :
      (p : Pod) (m : EtcdMember X) → IsTrue p m.status.member_id (mirror p m).0 (report env p m).0
  unfolding report
  report-IsTrue p m =
      let seen = mirror p m in
      let r = report_ready env p seen in
      let id : seen.0.status.member_id ≡ m.status.member_id = ap (λ k. k.1) (kept-mirror p m) in
      let first : IsTrue p m.status.member_id seen.0 r.0.0 =
        subst (λ i. IsTrue p i seen.0 r.0.0) id (report_ready-IsTrue p seen) in
      elim (Bool-cases r.1) [
        | inr early ↦
            let q : (report env p m).0 ≡ r.0.0 = ground arith in
            subst (IsTrue p m.status.member_id seen.0) (sym q) first
        | inl up ↦
            let q : (report env p m).0 ≡ (report_version env r.0).0 = ground arith in
            let same = reads-report_version r.0 in
            subst (IsTrue p m.status.member_id seen.0) (sym q)
              (moved r.0.0 (report_version env r.0).0 same first)
      ]
    where
      moved :
          (a b : EtcdMember X)
          → reads b ≡ reads a
          → IsTrue p m.status.member_id (mirror p m).0 a
          → IsTrue p m.status.member_id (mirror p m).0 b
      moved a b same t =
          let said = ap (λ k. k.0) same in
          let named = ap (λ k. k.1) same in
          (
            said ∙ (t.0 ∙ ap (λ i. pod_ready p && not (i == "")) (sym named)),
            elim t.1 [
              | inl kept_id ↦ inl (named ∙ kept_id)
              | inr (n, blank, found, set) ↦ inr (n, blank, found, named ∙ set)
            ],
          )

pub update_status-IsTrue :
    {X : Type 0} (env : Env X) (held m : EtcdMember X)
    → ((update_status env held m).stored ≡ held)
      ⊎ ((p : Pod) × (env.get_pod ≡ ok p)
          × IsTrue env p m.status.member_id (mirror p m).0 (update_status env held m).stored)
unfolding update_status observe_pod publish
update_status-IsTrue env held m = elim (Answer-cases env.get_pod) [
  | inr (ApiError.not_found, e) ↦ inl (ground arith)
  | inr (ApiError.conflict, e) ↦ inl (ground arith)
  | inr (ApiError.other t, e) ↦ inl (ground arith)
  | inl (p, got) ↦
      let d = report env p m in
      elim (Bool-cases (gives_up env p m)) [
        | inl up ↦ inl (ground arith)
        | inr stays ↦ elim (Bool-cases d.1) [
          | inr same ↦ inl (ground arith)
          | inl changed ↦ elim (Option-cases env.update_status) [
            | inr (e, failed) ↦ inl (ground arith)
            | inl fine ↦
                let q : (update_status env held m).stored ≡ d.0 = ground arith in
                inr (
                  p,
                  got,
                  subst (IsTrue env p m.status.member_id (mirror p m).0) (sym q)
                      (report-IsTrue env p m),
                )
          ]
        ]
      ]
]
