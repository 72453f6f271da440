-- ===== src/Defrag/Plan/Laws.antt =====
-- The work list of a run: what it is made of, and what marking one member does to it.
use mathlib.Core.List.{Mem, Perm, Nodup, Nodup-cons, mem-map_of_mem, perm_middle, map-append}
use mathlib.Core.List.Perm
use etcd_operator.Prelude.{
  ℕ, suc, ◌+◌, String, Bool, true, false, not, List, [], ◌∷◌, ◌++◌, Option, some, ◌≡◌, refl, sym,
  ap, subst, ◌∙◌, ◌≢◌, inl, inr, string_eq, map, select, find?-Mem, count, All, All-append, arith,
  Bool-cases, if◌then◌else◌,
}
use etcd_operator.Api.Defrag.{DefragOutcome, MemberRole, leader, follower, MemberDefragStatus}
use etcd_operator.Defrag.World.{MemberBackend}
use etcd_operator.Defrag.Plan.{
  is_pending, row, leads, planned_members, mark_member, marked, first_pending_member,
}

abbrev pub names : List MemberDefragStatus → List String
names = map (λ m. m.name)

abbrev pub backend_names : {X : Type 0} → List (MemberBackend X) → List String
backend_names = map (λ b. b.member.meta.name)

abbrev pub role_of : MemberDefragStatus → String × MemberRole
role_of m = (m.name, m.role)

-- The leaders' rows stand behind all others.
abbrev pub LeadersLast : List MemberDefragStatus → Type 0
LeadersLast [] = Unit
LeadersLast (m ∷ ms) = ((m.role ≡ leader) → All (λ n. n.role ≡ leader) ms) × LeadersLast ms

abbrev pub is_done : MemberDefragStatus → Bool
is_done m = elim m.outcome [ DefragOutcome.defragmented ↦ true | _ ↦ false ]

-- What an outcome adds to the count of the defragmented.
abbrev pub gain : DefragOutcome → ℕ
gain DefragOutcome.defragmented = 1
gain _ = 0

-- The rows marked as defragmented, and the rows still pending.
abbrev pub done : List MemberDefragStatus → ℕ
done ms = count is_done ms

abbrev pub waiting : List MemberDefragStatus → ℕ
waiting ms = count is_pending ms

other_name :
    (m next : MemberDefragStatus) (ms : List MemberDefragStatus)
    → Nodup (names (m ∷ ms))
    → first_pending_member ms ≡ some next
    → m.name ≢ next.name
unfolding first_pending_member
other_name m next ms d e same = (Nodup-cons.0 d).0 (
    subst (λ n. Mem n (names ms)) (sym same)
      (mem-map_of_mem (λ (x : MemberDefragStatus). x.name) (find?-Mem is_pending ms next e).0))

module _ {X : Type 0} where
  leaders-LeadersLast :
      (bs : List (MemberBackend X))
      → LeadersLast (map (row leader) bs) × All (λ n. n.role ≡ leader) (map (row leader) bs)
  leaders-LeadersLast [] = (tt, tt)
  leaders-LeadersLast (b ∷ bs) = let r = leaders-LeadersLast bs in ((λ _. r.1, r.0), (refl, r.1))

  followers-LeadersLast :
      (fs : List (MemberBackend X)) (ls : List MemberDefragStatus)
      → LeadersLast ls
      → LeadersLast (map (row follower) fs ++ ls)
  followers-LeadersLast [] ls h = h
  followers-LeadersLast (f ∷ fs) ls h = (λ e. cc, followers-LeadersLast fs ls h)

  split-perm :
      {B : Type 0} (f : MemberBackend X → B) (bs : List (MemberBackend X))
      → Perm (map f (select (λ b. not (leads b)) bs) ++ map f (select leads bs)) (map f bs)
  split-perm f [] = Perm.refl []
  split-perm f (b ∷ bs) = elim (Bool-cases (leads b)) [
    | inl e ↦ rw e (Perm.trans (perm_middle _ _) (Perm.cons (f b) (split-perm f bs)))
    | inr e ↦ rw e (Perm.cons (f b) (split-perm f bs))
  ]

  -- The row that a backend is due: its name, and the role that its status gives it.
  abbrev pub due : MemberBackend X → String × MemberRole
  due b = (b.member.meta.name, if leads b then leader else follower)

  roles-followers :
      (bs : List (MemberBackend X))
      → map role_of (map (row follower) (select (λ b. not (leads b)) bs))
        ≡ map due (select (λ b. not (leads b)) bs)
  roles-followers [] = refl
  roles-followers (b ∷ bs) = elim (Bool-cases (leads b)) [
    | inl e ↦ rw e (roles-followers bs)
    | inr e ↦
        rw (e, roles-followers bs)
          (ap
            (λ v.
              (b.member.meta.name, if v then leader else follower)
              ∷ map due (select (λ b. not (leads b)) bs))
            (sym e))
  ]

  roles-leaders :
      (bs : List (MemberBackend X))
      → map role_of (map (row leader) (select leads bs)) ≡ map due (select leads bs)
  roles-leaders [] = refl
  roles-leaders (b ∷ bs) = elim (Bool-cases (leads b)) [
    | inl e ↦
        rw (e, roles-leaders bs)
          (ap
            (λ v. (b.member.meta.name, if v then leader else follower) ∷ map due (select leads bs))
            (sym e))
    | inr e ↦ rw e (roles-leaders bs)
  ]

  roles-planned :
      (bs : List (MemberBackend X)) → Perm (map role_of (planned_members bs)) (map due bs)
  unfolding planned_members
  roles-planned bs =
      let fs = select (λ b. not (leads b)) bs in
      let ls = select leads bs in
      subst (λ n. Perm n (map due bs))
        (sym (
          map-append _ (map (row follower) fs) (map (row leader) ls)
          ∙ ap (λ (x : List (String × MemberRole)). x ++ map role_of (map (row leader) ls))
              (roles-followers bs)
          ∙ ap (λ (x : List (String × MemberRole)). map due fs ++ x) (roles-leaders bs)))
        (split-perm due bs)

  names-row :
      (role : MemberRole) (bs : List (MemberBackend X))
      → names (map (row role) bs) ≡ backend_names bs
  names-row role [] = refl
  names-row role (b ∷ bs) = ap (◌∷◌ b.member.meta.name) (names-row role bs)

  names-planned :
      (bs : List (MemberBackend X))
      → names (planned_members bs)
        ≡ backend_names (select (λ b. not (leads b)) bs) ++ backend_names (select leads bs)
  unfolding planned_members
  names-planned bs =
      let fs = select (λ b. not (leads b)) bs in
      let ls = select leads bs in
      map-append _ (map (row follower) fs) (map (row leader) ls)
      ∙ ap (λ (x : List String). x ++ names (map (row leader) ls)) (names-row follower fs)
      ∙ ap (λ (x : List String). backend_names fs ++ x) (names-row leader ls)

  rows-pending :
      (role : MemberRole) (bs : List (MemberBackend X))
      → All (λ m. is_pending m ≡ true) (map (row role) bs)
  rows-pending role [] = tt
  rows-pending role (b ∷ bs) = (refl, rows-pending role bs)

  -- A work list over the backends: each member has one row, with the role of a leader exactly when
  -- its status says that it leads, all rows are still pending, and the leaders' rows are the last.
  pub record IsPlan (bs : List (MemberBackend X)) (ms : List MemberDefragStatus) : Type 0 where
    pub complete : Perm (names ms) (backend_names bs)
    pub roles : Perm (map role_of ms) (map due bs)
    pub leaders_last : LeadersLast ms
    pub pending : All (λ m. is_pending m ≡ true) ms

  -- The planned work list has one pending row for each probed member, a leader's row for one that
  -- reports itself as etcd's leader and a follower's for any other, the leaders' behind all others.
  pub planned_members-IsPlan : (bs : List (MemberBackend X)) → IsPlan bs (planned_members bs)
  unfolding planned_members
  planned_members-IsPlan bs =
      let fs = select (λ b. not (leads b)) bs in
      let ls = select leads bs in
      record {
        complete =
            subst (λ n. Perm n (backend_names bs)) (sym (names-planned bs))
              (split-perm (λ b. b.member.meta.name) bs);
        roles = roles-planned bs;
        leaders_last = followers-LeadersLast fs (map (row leader) ls) (leaders-LeadersLast ls).0;
        pending =
            All-append (λ m. is_pending m ≡ true) (map (row follower) fs) (map (row leader) ls)
              (rows-pending follower fs) (rows-pending leader ls);
      }

  -- Marking changes no name.
  pub names-mark_member :
      (ms : List MemberDefragStatus) (name : String) (o : DefragOutcome) (reason : String)
      (b : Option (MemberBackend X)) (now : ℕ)
      → names (mark_member ms name o reason b now) ≡ names ms
  unfolding mark_member
  names-mark_member [] name o reason b now = refl
  names-mark_member (m ∷ ms) name o reason b now =
      ground (arith, names-mark_member ms name o reason b now)

  marked-outcome :
      (o : DefragOutcome) (reason : String) (b : Option (MemberBackend X)) (now : ℕ)
      (m : MemberDefragStatus)
      → (marked o reason b now m).outcome ≡ o
  unfolding marked
  marked-outcome o reason b now m = ground arith

  -- Marking the first pending row of distinct names takes it off the pending ones, and counts it
  -- when it was defragmented.
  pub mark_member-counts :
      (ms : List MemberDefragStatus) (next : MemberDefragStatus) (o : DefragOutcome)
      (reason : String) (b : Option (MemberBackend X)) (now : ℕ)
      → Nodup (names ms)
      → first_pending_member ms ≡ some next
      → o ≢ DefragOutcome.pending
      → (suc (waiting (mark_member ms next.name o reason b now)) ≡ waiting ms)
        × (done (mark_member ms next.name o reason b now) ≡ done ms + gain o)
  unfolding mark_member first_pending_member
  mark_member-counts [] next o reason b now d e n = cc
  mark_member-counts (m ∷ ms) next o reason b now d e n = elim (Bool-cases (is_pending m)) [
    | inl p ↦ ground (arith, marked-outcome o reason b now m)
    | inr p ↦ ground (
      arith,
      other_name m next ms d,
      mark_member-counts ms next o reason b now (Nodup-cons.0 d).1,
    )
  ]
