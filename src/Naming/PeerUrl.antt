-- ===== src/Naming/PeerUrl.antt =====
-- memberNameFromPeerURL of controllers/helpers.go, which reads a member's name back from peerURL.
use Prim.Native.Char.{Char, code}
use etcd_operator.Prelude.{
  String, ◌<>◌, Bool, true, false, Option, none, some, ◌≡◌, refl, ◌≢◌, ◌⊎◌, inl, inr, ◌==◌, nat_eq,
  string_eq, if◌then◌else◌, arith, ap, sym, ◌∙◌, subst,
}
use text.Mathlib.TextLemmas.{nil-append, cons-append, append-nil, append_assoc}
use etcd_operator.Prelude.Text.{has_prefix}
use etcd_operator.Api.Cluster.{EtcdCluster}
use etcd_operator.Naming.{peer_url, cluster_peer_scheme}

-- strings.TrimPrefix.
unfoldable pub cut : String → String → String
cut s String.[] = s
cut String.[] (String.◌∷◌ d p) = String.[]
cut (String.◌∷◌ c s) (String.◌∷◌ d p) = cut s p

unfoldable pub trim_prefix : String → String → String
unfolding cut has_prefix
trim_prefix s p = if has_prefix s p then cut s p else s

abbrev pub same_char : Char → Char → Bool
same_char c d = code c == code d

-- The text before the last, or the first, place of a character.
unfoldable pub before_last : Char → String → Option String
before_last d String.[] = none
before_last d (String.◌∷◌ c s) =
    let rest = before_last d s in
    elim rest [
      | some r ↦ some (String.◌∷◌ c r)
      | none ↦ if same_char c d then some String.[] else none
    ]

unfoldable pub before_first : Char → String → Option String
before_first d String.[] = none
before_first d (String.◌∷◌ c s) =
    let rest = before_first d s in
    if same_char c d
    then some String.[]
    else (elim rest [ some r ↦ some (String.◌∷◌ c r) | none ↦ none ])

-- `i > 0`: the text before is not empty.
unfoldable pub without_port : String → String
unfolding before_last
without_port s = elim (before_last ":" s) [ none ↦ s | some r ↦ if r == "" then s else r ]

unfoldable pub member_name_from_peer_url : String → String
unfolding trim_prefix without_port before_first
member_name_from_peer_url u =
    let s = without_port (trim_prefix (trim_prefix u "http://") "https://") in
    elim (before_first "." s) [ none ↦ "" | some r ↦ r ]

-- No character of the text is the given one.
abbrev pub lacks : Char → String → Bool
lacks d String.[] = true
lacks d (String.◌∷◌ c s) = let rest = lacks d s in if same_char c d then false else rest

before_last-port : (s : String) → before_last ":" (s <> ":2380") ≡ some s
unfolding before_last nat_eq
before_last-port String.[] = ap (before_last ":") (nil-append ":2380") ∙ refl
before_last-port (String.◌∷◌ c s) =
    subst (λ u. before_last ":" u ≡ some (String.◌∷◌ c s)) (sym (cons-append c s ":2380"))
      (ground (arith, before_last-port s))

before_first-dot :
    (n t : String) → lacks "." n ≡ true → before_first "." (n <> (String.◌∷◌ "." t)) ≡ some n
unfolding before_first
before_first-dot String.[] t clean =
    subst (λ u. before_first "." u ≡ some "") (sym (nil-append (String.◌∷◌ "." t))) (ground arith)
before_first-dot (String.◌∷◌ c n) t clean =
    subst (λ u. before_first "." u ≡ some (String.◌∷◌ c n)) (sym (cons-append c n _))
      (ground (arith, before_first-dot n t))

has_prefix-dot :
    (n t p r : String)
    → lacks ":" n ≡ true
    → lacks "." p ≡ true
    → has_prefix (n <> (String.◌∷◌ "." t)) (p <> (String.◌∷◌ ":" r)) ≡ false
unfolding has_prefix
has_prefix-dot String.[] t String.[] r clean plain =
    simp (nil-append (String.◌∷◌ "." t), nil-append (String.◌∷◌ ":" r)) refl
has_prefix-dot String.[] t (String.◌∷◌ c p) r clean plain =
    simp (nil-append (String.◌∷◌ "." t), cons-append c p (String.◌∷◌ ":" r)) (ground arith)
has_prefix-dot (String.◌∷◌ d n) t String.[] r clean plain =
    simp (cons-append d n (String.◌∷◌ "." t), nil-append (String.◌∷◌ ":" r)) (ground arith)
has_prefix-dot (String.◌∷◌ d n) t (String.◌∷◌ c p) r clean plain =
    simp (cons-append d n (String.◌∷◌ "." t), cons-append c p (String.◌∷◌ ":" r))
      (ground (arith, has_prefix-dot n t p r))

has_prefix-append_append : (p s t : String) → has_prefix (p <> s) (p <> t) ≡ has_prefix s t
unfolding has_prefix
has_prefix-append_append String.[] s t = simp (nil-append s, nil-append t) refl
has_prefix-append_append (String.◌∷◌ c p) s t =
    simp (cons-append c p s, cons-append c p t) (ground (arith, has_prefix-append_append p s t))

cut-append : (p s : String) → cut (p <> s) p ≡ s
unfolding cut
cut-append String.[] s = simp (nil-append s) (ground arith)
cut-append (String.◌∷◌ c p) s = simp (cons-append c p s) (cut-append p s)

trim_prefix-append : (p s : String) → trim_prefix (p <> s) p ≡ s
unfolding trim_prefix has_prefix
trim_prefix-append p s =
    let q : has_prefix (p <> s) p ≡ true =
      ap (has_prefix (p <> s)) (sym (append-nil p)) ∙ has_prefix-append_append p s "" in
    ground (arith, q, cut-append p s)

trim_prefix-other : (s p : String) → has_prefix s p ≡ false → trim_prefix s p ≡ s
unfolding trim_prefix
trim_prefix-other s p e = ground arith

-- What peerURL writes after the scheme.
abbrev host : String → String → String → String
host n service namespace = n <> (String.◌∷◌ "." (service <> ("." <> (namespace <> ".svc"))))

abbrev host_port : String → String → String → String
host_port n service namespace = n <> ("." <> (service <> ("." <> (namespace <> ".svc:2380"))))

host_port_lem :
    (n service namespace : String)
    → host_port n service namespace ≡ host n service namespace <> ":2380"
host_port_lem n service namespace =
    let inner : namespace <> ".svc:2380" ≡ (namespace <> ".svc") <> ":2380" =
      sym (append_assoc namespace ".svc" ":2380") in
    let dotted : "." <> (namespace <> ".svc:2380") ≡ ("." <> (namespace <> ".svc")) <> ":2380" =
      ap (λ u. "." <> u) inner ∙ sym (append_assoc "." (namespace <> ".svc") ":2380") in
    let rest : service <> ("." <> (namespace <> ".svc:2380"))
        ≡ (service <> ("." <> (namespace <> ".svc"))) <> ":2380" =
      ap (λ u. service <> u) dotted ∙ sym (append_assoc service _ ":2380") in
    let tail : "." <> (service <> ("." <> (namespace <> ".svc:2380")))
        ≡ ("." <> (service <> ("." <> (namespace <> ".svc")))) <> ":2380" =
      ap (λ u. "." <> u) rest ∙ sym (append_assoc "." _ ":2380") in
    let front : "." <> (service <> ("." <> (namespace <> ".svc")))
        ≡ String.◌∷◌ "." (service <> ("." <> (namespace <> ".svc"))) =
      cons-append "." "" _ ∙ ap (String.◌∷◌ ".") (nil-append _) in
    ap (λ u. n <> u) (tail ∙ ap (λ u. u <> ":2380") front) ∙ sym (append_assoc n _ ":2380")

abbrev pub full : String → Bool
full String.[] = false
full (String.◌∷◌ c s) = true

full-append_cons : (n t : String) → full (n <> (String.◌∷◌ "." t)) ≡ true
full-append_cons String.[] t = ap full (nil-append (String.◌∷◌ "." t)) ∙ refl
full-append_cons (String.◌∷◌ c n) t = ap full (cons-append c n (String.◌∷◌ "." t)) ∙ refl

append-cons_full : (n t : String) → (n <> (String.◌∷◌ "." t)) ≢ ""
append-cons_full n t e =
    let q : true ≡ false = sym (full-append_cons n t) ∙ ap full e in ground arith

without_port-host_port :
    (n service namespace : String)
    → without_port (host_port n service namespace) ≡ host n service namespace
unfolding without_port
without_port-host_port n service namespace =
    let cutting : before_last ":" (host_port n service namespace)
        ≡ some (host n service namespace) =
      ap (before_last ":") (host_port_lem n service namespace)
      ∙ before_last-port (host n service namespace) in
    let apart : (host n service namespace == "") ≡ false =
      ground (arith, append-cons_full n (service <> ("." <> (namespace <> ".svc")))) in
    ground (arith, cutting, apart)

first_label-host :
    (n service namespace : String)
    → lacks "." n ≡ true
    → before_first "." (host n service namespace) ≡ some n
first_label-host n service namespace plain =
    before_first-dot n (service <> ("." <> (namespace <> ".svc"))) plain

after_scheme :
    (n service namespace : String)
    → lacks ":" n ≡ true
    → has_prefix (host_port n service namespace) "https://" ≡ false
unfolding nat_eq
after_scheme n service namespace clean =
    subst (λ u. has_prefix (n <> u) "https://" ≡ false)
      (sym (
        cons-append "." "" (service <> ("." <> (namespace <> ".svc:2380")))
        ∙ ap (String.◌∷◌ ".") (nil-append _)))
      (has_prefix-dot n (service <> ("." <> (namespace <> ".svc:2380"))) "https" "//" clean refl)

-- The URL without its scheme, for both schemes that an etcd peer has.
trimmed :
    (scheme n service namespace : String)
    → (scheme ≡ "http") ⊎ (scheme ≡ "https")
    → lacks ":" n ≡ true
    → trim_prefix (trim_prefix (peer_url scheme n service namespace) "http://") "https://"
      ≡ host_port n service namespace
unfolding peer_url has_prefix
trimmed scheme n service namespace (inl plain) clean =
    let first : trim_prefix (peer_url scheme n service namespace) "http://"
        ≡ host_port n service namespace =
      ap (λ u. trim_prefix (u <> ("://" <> host_port n service namespace)) "http://") plain
      ∙ ap (λ u. trim_prefix u "http://")
          (sym (append_assoc "http" "://" (host_port n service namespace)))
      ∙ trim_prefix-append "http://" (host_port n service namespace) in
    ap (λ u. trim_prefix u "https://") first
    ∙ trim_prefix-other (host_port n service namespace) "https://"
        (after_scheme n service namespace clean)
trimmed scheme n service namespace (inr secure) clean =
    let x = host_port n service namespace in
    let whole : peer_url scheme n service namespace ≡ "https://" <> x =
      ap (λ u. u <> ("://" <> x)) secure ∙ sym (append_assoc "https" "://" x) in
    let other : has_prefix ("http" <> ("s://" <> x)) "http://" ≡ false =
      has_prefix-append_append "http" ("s://" <> x) "://"
      ∙ ap (λ u. has_prefix u "://") (cons-append "s" "://" x)
      ∙ refl in
    let kept : trim_prefix ("https://" <> x) "http://" ≡ "https://" <> x =
      trim_prefix-other ("https://" <> x) "http://"
        (ap (λ u. has_prefix u "http://") (append_assoc "http" "s://" x) ∙ other) in
    ap (λ u. trim_prefix (trim_prefix u "http://") "https://") whole
    ∙ ap (λ u. trim_prefix u "https://") kept
    ∙ trim_prefix-append "https://" x

-- The scheme that a cluster's peers have is one of the two.
peer_scheme_cases :
    {X : Type 0} (c : EtcdCluster X)
    → (cluster_peer_scheme c ≡ "http") ⊎ (cluster_peer_scheme c ≡ "https")
unfolding cluster_peer_scheme
peer_scheme_cases c = ground arith

-- A member's name is read back from the peer URL that the operator registers for it, for every
-- cluster, service and namespace, when the name has neither a dot nor a colon.
pub member_name_from_peer_url-peer_url :
    {X : Type 0} (c : EtcdCluster X) (n service namespace : String)
    → lacks ":" n ≡ true
    → lacks "." n ≡ true
    → member_name_from_peer_url (peer_url (cluster_peer_scheme c) n service namespace) ≡ n
unfolding member_name_from_peer_url
member_name_from_peer_url-peer_url c n service namespace clean plain =
    let bare = trimmed (cluster_peer_scheme c) n service namespace (peer_scheme_cases c) clean in
    ground (
      arith,
      bare,
      without_port-host_port n service namespace,
      first_label-host n service namespace,
    )
