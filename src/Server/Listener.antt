-- ===== src/Server/Listener.antt =====
-- server/server_listen.go: the listener of the server, with or without TLS.
-- A certificate pool is the list of the certificates added to it. The files, the packages tls and
-- x509, the listening socket, the environment and filepath.Join are parameters.
pub mod Serves
mod Examples
use chisel_uds.Prelude.{
  Text, codes, Bool, true, false, not, ◌&&◌, ◌||◌, Option, none, some, List, [], ◌∷◌, ◌++◌, text_eq,
  if◌then◌else◌, ◌≡◌,
}
use chisel_uds.Settings.Environment.{Environment, env}
use chisel_uds.Prelude.Result.{Result, err, ok, ◌>>=◌, fail_if}

-- TLSConfig
pub record TlsConfig : Type 0 where
  pub key : Text
  pub cert : Text
  pub domains : List Text
  pub ca : Text

-- The parts of autocert.Manager that the server sets
pub record Manager : Type 0 where
  pub email : Text
  pub hosts : List Text
  pub cache : Option Text

-- tls.ClientAuthType, of which the server uses the zero value and one other
pub data ClientAuth : Type 0 where
  no_client_cert require_and_verify_client_cert : ClientAuth

-- The parts of tls.Config that the server sets for a key pair; no pool is nil.
pub record PairConf : Type 0 where
  pub certificate : Text
  pub client_cas : Option (List Text)
  pub client_auth : ClientAuth

-- tls.Config: what autocert makes, or one with a key pair
pub data TlsConf : Type 0 where
  lets_encrypt : Manager → TlsConf
  key_pair : PairConf → TlsConf

-- A TCP listener at an address, plain or wrapped in TLS
pub record NetListener : Type 0 where
  pub address : Text
  pub tls : Option TlsConf

pub record System : Type 0 where
  -- tls.LoadX509KeyPair of a certificate's file and a key's file
  pub load_key_pair : Text → Text → Result Text Text
  -- os.Stat: whether the path is a directory
  pub stat : Text → Result Text Bool
  -- os.ReadDir: the names
  pub read_dir : Text → Result Text (List Text)
  pub read_file : Text → Result Text Text
  -- the certificates that AppendCertsFromPEM finds in a file's bytes
  pub certificates : Text → List Text
  -- the error of net.Listen
  pub listen_error : Text → Option Text
  pub join : Text → Text → Text
  -- os.Getenv, and the home of user.Current
  pub getenv : Environment
  pub user_home : Option Text

unfoldable pub is_empty {ℓ} : {A : Type ℓ} → List A → Bool
is_empty [] = true
is_empty (x ∷ xs) = false

module _ (sys : System) where
  unfoldable pub add_pem_file : Text → List Text → Result Text (List Text)
  unfolding is_empty
  add_pem_file path pool = sys.read_file path >>= (λ content.
      fail_if (is_empty (sys.certificates content))
        (codes "Fail to load certificates from : " ++ path)
      >>= (λ _. ok (pool ++ sys.certificates content)))

  -- the loop over the files of a directory
  unfoldable pub add_pem_files : Text → List Text → List Text → Result Text (List Text)
  unfolding add_pem_file
  add_pem_files ca [] pool = ok pool
  add_pem_files ca (f ∷ files) pool =
      add_pem_file (sys.join ca f) pool >>= (λ pool'. add_pem_files ca files pool')

  -- the pool that `addCA` makes of a file or of the files of a directory
  unfoldable pub ca_pool : Text → Result Text (List Text)
  unfolding add_pem_file add_pem_files
  ca_pool ca = sys.stat ca >>= (λ is_dir. elim is_dir [
    | true ↦ sys.read_dir ca >>= (λ files. add_pem_files ca files [])
    | false ↦ add_pem_file ca []
  ])

  -- `addCA`
  unfoldable pub add_ca : Text → PairConf → Result Text PairConf
  unfolding ca_pool
  add_ca ca c = ca_pool ca >>= (λ pool.
      ok (record c { client_cas = some pool; client_auth = require_and_verify_client_cert }))

  -- `tlsKeyCert` behind the load of the key pair
  unfoldable pub with_ca : Text → Text → Result Text PairConf
  unfolding add_ca
  with_ca ca pair =
      let c : PairConf = record {
        certificate = pair;
        client_cas = none;
        client_auth = no_client_cert;
      } in
      if text_eq ca [] then ok c else add_ca ca c

  unfoldable pub tls_key_cert : Text → Text → Text → Result Text PairConf
  unfolding with_ca
  tls_key_cert key cert ca = sys.load_key_pair cert key >>= with_ca ca

  -- the directory that `tlsLetsEncrypt` caches in, unless it is "-"
  unfoldable pub cache_dir : Text
  cache_dir =
      if text_eq (env sys.getenv (codes "LE_CACHE")) []
      then (let h =
            if text_eq (sys.getenv (codes "HOME")) []
            then (elim sys.user_home [ none ↦ (sys.getenv (codes "HOME")) | some u ↦ u ])
            else (sys.getenv (codes "HOME")) in
          sys.join (sys.join h (codes ".cache")) (codes "chisel"))
      else env sys.getenv (codes "LE_CACHE")

  unfoldable pub tls_lets_encrypt : List Text → TlsConf
  unfolding cache_dir
  tls_lets_encrypt domains = lets_encrypt (record {
    email = env sys.getenv (codes "LE_EMAIL");
    hosts = domains;
    cache = if text_eq cache_dir (codes "-") then none else some cache_dir;
  })

  unfoldable pub has_key_cert : TlsConfig → Bool
  has_key_cert c = not (text_eq c.key []) && not (text_eq c.cert [])

  -- the configuration for domains, if any are set
  unfoldable pub domains_conf : List Text → Option TlsConf
  unfolding tls_lets_encrypt
  domains_conf [] = none
  domains_conf (d ∷ rest) = some (tls_lets_encrypt (d ∷ rest))

  -- the TLS configuration of `listener`
  unfoldable pub tls_conf : TlsConfig → Result Text (Option TlsConf)
  unfolding domains_conf tls_key_cert has_key_cert
  tls_conf c =
      if has_key_cert c
      then tls_key_cert c.key c.cert c.ca >>= (λ t. ok (some (key_pair t)))
      else ok (domains_conf c.domains)

  -- `listener` behind its TLS configuration
  unfoldable pub listen_on : Text → Option TlsConf → Result Text NetListener
  listen_on address t = elim (sys.listen_error address) [
    | some e ↦ err e
    | none ↦ ok (record { address = address; tls = t })
  ]

  unfoldable pub listener : TlsConfig → Text → Text → Result Text NetListener
  unfolding tls_conf listen_on
  listener c host port =
      fail_if (not (is_empty c.domains) && has_key_cert c) (codes "cannot use key/cert and domains")
      >>= (λ _. tls_conf c >>= listen_on (host ++ codes ":" ++ port))
