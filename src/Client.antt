-- ===== src/Client.antt =====
-- The operator's way to etcd: internal/etcdclient/etcdclient.go and controllers/etcd_client.go.
pub mod Sound
use etcd_operator.Prelude.{
  String, List, ◌<>◌, Bool, true, false, ◌&&◌, ◌||◌, not, Option, none, some, ◌==◌, string_eq,
  if◌then◌else◌,
}
use etcd_operator.Api.Meta.{Labels, Answer, ok, err, ApiError}
use etcd_operator.Api.Cluster.{EtcdCluster}
use etcd_operator.Naming.{value_at, client_tls, server_secret_name, operator_client_secret_name}

-- What crypto/tls and crypto/x509 make of PEM texts, and the API server's answer for a Secret.
pub record Env : Type 0 where
  pub is_pem : String → Bool
  pub is_keypair : String → String → Bool
  pub get_secret : String → String → Answer Labels

-- tls.Config: the roots, and the client certificate with its key.
pub record TlsConfig : Type 0 where
  pub root_cas : String
  pub certificate : Option (String × String)

module _ (env : Env) where
  unfoldable pub tls_config : String → String → String → Answer TlsConfig
  tls_config ca cert key =
      if ca == ""
      then err (ApiError.other "CA bundle is empty")
      else (if not (env.is_pem ca)
          then err (ApiError.other "CA bundle is not valid PEM")
          else (if not (cert == "") || not (key == "")
              then (if env.is_keypair cert key
                  then ok (record { root_cas = ca; certificate = some (cert, key) })
                  else err (ApiError.other "load client keypair"))
              else ok (record { root_cas = ca; certificate = none })))

-- The user name and the password in a Secret's data.
unfoldable pub basic_auth_credentials : Labels → Answer (String × String)
basic_auth_credentials content =
    let user = value_at "username" content in
    if value_at "password" content == ""
    then err (ApiError.other "missing a non-empty \"password\" key")
    else ok (if user == "" then "root" else user, value_at "password" content)

module _ {X : Type 0} (env : Env) (c : EtcdCluster X) where
  -- The Secret's name; "" when there is none.
  unfoldable pub root_secret_name : String
  root_secret_name = elim c.spec.auth [
    | none ↦ ""
    | some a ↦ elim a.root_credentials_secret_ref [ none ↦ "" | some name ↦ name ]
  ]

  unfoldable pub read_root_password : Answer String
  unfolding root_secret_name basic_auth_credentials
  read_root_password =
      let name = root_secret_name in
      if name == ""
      then err
          (ApiError.other "spec.auth.rootCredentialsSecretRef is required when auth is enabled")
      else (elim (env.get_secret c.meta.namespace name) [
        | err e ↦ err e
        | ok content ↦ elim (basic_auth_credentials content) [ err e ↦ err e | ok pair ↦ ok pair.1 ]
      ])

  unfoldable pub auth_configured : Bool
  auth_configured = elim c.spec.auth [ none ↦ false | some a ↦ a.enabled ]

  -- The user, the password, and whether auth is in effect.
  unfoldable pub resolve_etcd_credentials : Answer (String × String × Bool)
  unfolding read_root_password auth_configured
  resolve_etcd_credentials =
      if not (auth_configured && c.status.auth_enabled)
      then ok ("", "", false)
      else (elim read_root_password [ err e ↦ err e | ok pw ↦ ok ("root", pw, true) ])

  -- The certificate and the key that the operator presents; a Secret may lack either.
  unfoldable pub operator_keypair : Answer (String × String)
  unfolding operator_client_secret_name
  operator_keypair =
      let name = operator_client_secret_name c in
      if name == "" then ok ("", "") else (elim (env.get_secret c.meta.namespace name) [
        | err e ↦ err e
        | ok content ↦ ok (value_at "tls.crt" content, value_at "tls.key" content)
      ])

  unfoldable pub build_operator_tls_config : Answer (Option TlsConfig)
  unfolding client_tls server_secret_name operator_keypair tls_config
  build_operator_tls_config = elim (client_tls c) [
    | none ↦ ok none
    | some _ ↦
        if server_secret_name c == ""
        then ok none
        else (elim (env.get_secret c.meta.namespace (server_secret_name c)) [
          | err e ↦ err e
          | ok content ↦
              let ca = value_at "ca.crt" content in
              if ca == ""
              then err (ApiError.other "server TLS secret missing ca.crt")
              else (elim operator_keypair [
                | err e ↦ err e
                | ok pair ↦ elim (tls_config env ca pair.0 pair.1) [
                  | err e ↦ err e
                  | ok config ↦ ok (some config)
                ]
              ])
        ])
  ]

-- EtcdClientFactory: what fails the dial to the endpoints, if anything.
abbrev pub Factory : Type 0
Factory = List String → Option TlsConfig → String → String → Option ApiError

-- The TLS configuration, then the credentials, then the dial; the first failure counts.
unfoldable pub dial : {X : Type 0} → Env → Factory → EtcdCluster X → List String → Option ApiError
unfolding build_operator_tls_config resolve_etcd_credentials
dial env factory c endpoints = elim (build_operator_tls_config env c) [
  | err e ↦ some e
  | ok config ↦ elim (resolve_etcd_credentials env c) [
    | err e ↦ some e
    | ok (user, password, _) ↦ factory endpoints config user password
  ]
]
