-- ===== src/Client/Sound.antt =====
-- The operator's dials to etcd never fall back: no anonymous dial once authentication is on, and
-- no unverified dial to a cluster with client TLS (controllers/etcd_client.go).
use etcd_operator.Prelude.{
  String, Bool, true, false, Option, some, ◌≡◌, ◌≢◌, inl, inr, ◌==◌, string_eq, arith, Bool-cases,
  is_some, refl, sym, subst,
}
use etcd_operator.Api.Meta.{Labels, Answer, ok, err, ApiError, Answer-cases}
use etcd_operator.Api.Cluster.{EtcdCluster}
use etcd_operator.Naming.{value_at, client_tls, server_secret_name}
use etcd_operator.Client.{
  Env, TlsConfig, tls_config, basic_auth_credentials, root_secret_name, read_root_password,
  auth_configured, resolve_etcd_credentials, operator_keypair, build_operator_tls_config,
}

-- What an answer says, when it is not a failure.
abbrev pub Whenever : {A : Type 0} → (A → Type 0) → Answer A → Type 0
Whenever P (ok a) = P a
Whenever P (err e) = Unit

-- Root with the password that the named Secret holds.
pub record IsRoot {X : Type 0} (env : Env) (c : EtcdCluster X) (who : String × String × Bool)
    : Type 0 where
  pub content : Labels
  pub read : env.get_secret c.meta.namespace (root_secret_name env c) ≡ ok content
  pub user : who.0 ≡ "root"
  pub password : who.1 ≡ value_at "password" content
  pub present : who.1 ≢ ""

-- Once the cluster asks for authentication and it is on, an answer that is not a failure is root
-- with a password that is not empty, read from the Secret that the cluster names.
pub resolve_etcd_credentials-IsRoot :
    {X : Type 0} (env : Env) (c : EtcdCluster X)
    → auth_configured env c ≡ true
    → c.status.auth_enabled ≡ true
    → Whenever (IsRoot env c) (resolve_etcd_credentials env c)
unfolding resolve_etcd_credentials read_root_password basic_auth_credentials
resolve_etcd_credentials-IsRoot env c asked on =
    let name = root_secret_name env c in
    elim (Bool-cases (name == "")) [
      | inl unnamed ↦
          let q : resolve_etcd_credentials env c
              ≡ err (
                  ApiError.other
                    "spec.auth.rootCredentialsSecretRef is required when auth is enabled") =
            ground arith in
          subst (Whenever (IsRoot env c)) (sym q) tt
      | inr known ↦ elim (Answer-cases (env.get_secret c.meta.namespace name)) [
        | inr (e, gone) ↦
            let q : resolve_etcd_credentials env c ≡ err e = ground arith in
            subst (Whenever (IsRoot env c)) (sym q) tt
        | inl (content, read) ↦ elim (Bool-cases (value_at "password" content == "")) [
          | inl empty ↦
              let q : resolve_etcd_credentials env c
                  ≡ err (ApiError.other "missing a non-empty \"password\" key") =
                ground arith in
              subst (Whenever (IsRoot env c)) (sym q) tt
          | inr full ↦
              let q : resolve_etcd_credentials env c
                  ≡ ok ("root", value_at "password" content, true) =
                ground arith in
              subst (Whenever (IsRoot env c)) (sym q) (record {
                content = content;
                read = read;
                user = refl;
                password = refl;
                present = λ e. ground arith;
              })
        ]
      ]
    ]

-- A verified connection: the roots are the server Secret's, and they are PEM.
pub record IsVerified {X : Type 0} (env : Env) (c : EtcdCluster X) (config : Option TlsConfig)
    : Type 0 where
  pub out : TlsConfig
  pub made : config ≡ some out
  pub content : Labels
  pub read : env.get_secret c.meta.namespace (server_secret_name c) ≡ ok content
  pub roots : out.root_cas ≡ value_at "ca.crt" content
  pub pem : env.is_pem out.root_cas ≡ true

tls_config-roots :
    (env : Env) (ca cert key : String)
    → Whenever (λ t. (t.root_cas ≡ ca) × (env.is_pem ca ≡ true)) (tls_config env ca cert key)
unfolding tls_config
tls_config-roots env ca cert key = elim (Answer-cases (tls_config env ca cert key)) [
  | inr (e, q) ↦ subst (Whenever _) (sym q) tt
  | inl (t, q) ↦
      subst (Whenever (λ t. (t.root_cas ≡ ca) × (env.is_pem ca ≡ true))) (sym q)
        (ground arith, ground arith)
]

pub build_operator_tls_config-IsVerified :
    {X : Type 0} (env : Env) (c : EtcdCluster X)
    → is_some (client_tls c) ≡ true
    → server_secret_name c ≢ ""
    → Whenever (IsVerified env c) (build_operator_tls_config env c)
unfolding build_operator_tls_config
build_operator_tls_config-IsVerified env c secured named =
    let other : (server_secret_name c == "") ≡ false = ground (arith, named) in
    elim (Answer-cases (build_operator_tls_config env c)) [
      | inr (e, q) ↦ subst (Whenever (IsVerified env c)) (sym q) tt
      | inl (config, q) ↦ subst (Whenever (IsVerified env c)) (sym q) (verified config q other)
    ]
  where
    verified :
        (config : Option TlsConfig)
        → build_operator_tls_config env c ≡ ok config
        → (server_secret_name c == "") ≡ false
        → IsVerified env c config
    verified config q other =
        elim (Answer-cases (env.get_secret c.meta.namespace (server_secret_name c))) [
          | inr (e, gone) ↦ ground arith
          | inl (content, read) ↦
              let ca = value_at "ca.crt" content in
              elim (Bool-cases (ca == "")) [
                | inl empty ↦ ground arith
                | inr full ↦ elim (Answer-cases (operator_keypair env c)) [
                  | inr (e, gone) ↦ ground arith
                  | inl (pair, held) ↦ elim (Answer-cases (tls_config env ca pair.0 pair.1)) [
                    | inr (e, bad) ↦ ground arith
                    | inl (out, good) ↦
                        let facts : (out.root_cas ≡ ca) × (env.is_pem ca ≡ true) =
                          subst (Whenever (λ t. (t.root_cas ≡ ca) × (env.is_pem ca ≡ true))) good
                            (tls_config-roots env ca pair.0 pair.1) in
                        record {
                          out = out;
                          made = ground arith;
                          content = content;
                          read = read;
                          roots = facts.0;
                          pem = ground (arith, facts.0, facts.1);
                        }
                  ]
                ]
              ]
        ]
