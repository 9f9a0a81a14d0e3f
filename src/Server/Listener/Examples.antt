-- ===== src/Server/Listener/Examples.antt =====
-- The theorem about the listener at one set of flags and one system.
use chisel_uds.Prelude.{codes, false, none, some, [], ◌∷◌, ◌++◌, ◌≡◌, refl, text_eq}
use chisel_uds.Prelude.Result.{err, ok}
use chisel_uds.Server.Listener.{
  TlsConfig, require_and_verify_client_cert, ca_pool, key_pair, NetListener, System, is_empty,
  add_pem_file, add_ca, with_ca, tls_key_cert, has_key_cert, tls_conf, listen_on, listener,
}
use chisel_uds.Server.Listener.Serves.{Serves, listener-Serves}

abbrev sys : System
sys = record {
  load_key_pair = λ cert key. ok (cert ++ key);
  stat = λ path. ok false;
  read_dir = λ path. err (codes "not a directory");
  read_file = λ path. ok path;
  certificates = λ content. content ∷ [];
  listen_error = λ address. none;
  join = λ a b. a ++ codes "/" ++ b;
  getenv = λ name. [];
  user_home = none;
}

abbrev both : TlsConfig
both = record { key = codes "k"; cert = codes "c"; domains = []; ca = codes "ca" }

abbrev served : NetListener
served = record {
  address = codes "host:443";
  tls = some (
      key_pair (record {
        certificate = codes "ck";
        client_cas = some (codes "ca" ∷ []);
        client_auth = require_and_verify_client_cert;
      }));
}

opens_with_ca : listener sys both (codes "host") (codes "443") ≡ ok served
unfolding listener tls_conf has_key_cert is_empty tls_key_cert with_ca add_ca ca_pool add_pem_file
    listen_on text_eq
opens_with_ca = refl

listener-Serves_example :
    (served.address ≡ codes "host" ++ codes ":" ++ codes "443") × Serves sys both served.tls
listener-Serves_example = listener-Serves sys both (codes "host") (codes "443") served opens_with_ca

-- A key without a certificate is not an error, and leaves the server without TLS.
key_alone :
    listener sys (record both { cert = [] }) (codes "host") (codes "80")
    ≡ ok (record { address = codes "host:80"; tls = none })
unfolding listener tls_conf has_key_cert is_empty listen_on text_eq
key_alone = refl
