-- ===== src/Client/Setup.antt =====
-- client/client.go: NewClient, the check of the server's key, and the choice of the proxy's dialer.
-- Parameters: url.Parse and its String, the files and the packages tls and x509, base64 and the hashes,
-- what the remotes are listened on with, and the timeout that the environment sets.
pub mod Remotes
pub mod Fingerprint
mod Examples
use chisel_uds.Prelude.{
  ℕ, ◌+◌, ◌-◌, ◌*◌, ◌/◌, ◌%◌, ◌^◌, Text, codes, Bool, true, false, not, ◌&&◌, ◌||◌, Option, none,
  some, List, [], ◌∷◌, ◌++◌, ltb, text_eq, has_prefix, trim_prefix, cut_last, if◌then◌else◌, map,
  any,
}
use chisel_uds.Prelude.Int.{ℤ, pos, negsuc}
use chisel_uds.Prelude.Result.{Result, err, ok, ◌>>=◌, fail_if}
use chisel_uds.Settings.Environment.{Environment, env_duration}
use chisel_uds.Settings.Number.{is_digit}
use chisel_uds.Settings.Remote.{decode_remote}
use chisel_uds.Settings.Remote.Types.{Remote, DecodeError}
use chisel_uds.Settings.Remote.Types
use chisel_uds.Settings.Remote.Print.{Host, can_listen, to_string}
use chisel_uds.Keys.{fingerprint_key}
use chisel_uds.Settings.Users.{parse_auth}

-- TLSConfig
pub record TlsConfig : Type 0 where
  pub skip_verify : Bool
  pub ca : Text
  pub cert : Text
  pub key : Text
  pub server_name : Text

-- The fields of Config that NewClient reads
pub record Config : Type 0 where
  pub auth : Text
  pub keep_alive : ℤ
  pub max_retry_interval : ℤ
  pub server : Text
  pub proxy : Text
  pub remotes : List Text
  pub tls : TlsConfig

-- The parts of url.URL that the client reads, and the others
pub record Url : Type 0 where
  pub scheme : Text
  pub host : Text
  pub user : Option (Text × Text)
  pub others : Text

pub data SetupError : Type 0 where
  invalid_server : Text → SetupError
  unreadable_ca : Text → SetupError
  undecodable_ca : Text → SetupError
  invalid_key_pair : Text → SetupError
  cert_without_key : SetupError
  invalid_remote : Text → DecodeError → SetupError
  two_stdio : SetupError
  cannot_listen : Text → SetupError
  invalid_proxy : Text → SetupError

-- tls.Config as the client sets it
pub record TlsConf : Type 0 where
  pub name : Text
  pub insecure : Bool
  pub root_cas : Option (List Text)
  pub certificate : Option Text

-- What NewClient makes: the fields of Client, of its sshConfig and of its tunnel's Config
pub record Client : Type 0 where
  pub server_url : Text
  pub retry_interval : ℤ
  pub tls_conf : Option TlsConf
  pub computed : List Remote
  pub proxy_url : Option Url
  pub user : Text
  pub pass : Text
  pub timeout : ℤ
  pub inbound : Bool
  pub outbound : Bool
  pub socks_enabled : Bool
  pub alive : ℤ

pub record System : Type 0 where
  pub url_parse : Text → Result Text Url
  pub url_string : Url → Text
  pub read_file : Text → Option Text
  -- the certificates that AppendCertsFromPEM finds
  pub certificates : Text → List Text
  pub load_key_pair : Text → Text → Result Text Text
  pub host : Host
  pub getenv : Environment
  -- time.ParseDuration, in nanoseconds
  pub parse_duration : Text → Option ℤ

-- c.Server with the default scheme
unfoldable pub with_scheme : Text → Text
with_scheme s = if has_prefix s (codes "http") then s else codes "http://" ++ s

-- time.Second and 5*time.Minute, in nanoseconds
unfoldable pub retry_interval_of : ℤ → ℤ
retry_interval_of (pos n) = if ltb n (10 ^ 9) then pos (300 * 10 ^ 9) else pos n
retry_interval_of (negsuc n) = pos (300 * 10 ^ 9)

-- strings.Replace(s, "http", "ws", 1)
unfoldable pub to_websocket : Text → Text
to_websocket [] = []
to_websocket (c ∷ rest) =
    let later = to_websocket rest in
    if has_prefix (c ∷ rest) (codes "http")
    then codes "ws" ++ trim_prefix (c ∷ rest) (codes "http")
    else c ∷ later

unfoldable pub all_digits : Text → Bool
all_digits [] = true
all_digits (c ∷ rest) = is_digit c && all_digits rest

-- the expression `:\d+$`
unfoldable pub has_port : Text → Bool
unfolding all_digits
has_port host = elim (cut_last host b':') [
  | none ↦ false
  | some (name, port) ↦ not (text_eq port []) && all_digits port
]

-- the websocket scheme and the default port
unfoldable pub server_url_of : Url → Url
unfolding to_websocket has_port
server_url_of u =
    let scheme = to_websocket u.scheme in
    record u {
      scheme = scheme;
      host =
          if has_port u.host
          then u.host
          else if text_eq scheme (codes "wss")
          then u.host ++ codes ":443"
          else u.host ++ codes ":80";
    }

module _ (sys : System) where
  -- the roots to verify the server with, if they are set
  unfoldable pub root_cas_of : TlsConfig → Result SetupError (Option (List Text))
  root_cas_of c = if c.skip_verify || text_eq c.ca [] then ok none else (elim (sys.read_file c.ca) [
    | none ↦ err (unreadable_ca c.ca)
    | some b ↦ (elim (sys.certificates b) [
      | [] ↦ err (undecodable_ca c.ca)
      | cert ∷ certs ↦ ok (some (cert ∷ certs))
    ])
  ])

  -- the client's own certificate
  unfoldable pub certificate_of : TlsConfig → Result SetupError (Option Text)
  certificate_of c =
      if not (text_eq c.cert []) && not (text_eq c.key [])
      then (elim (sys.load_key_pair c.cert c.key) [
        | err e ↦ err (invalid_key_pair e)
        | ok pair ↦ ok (some pair)
      ])
      else if not (text_eq c.cert []) || not (text_eq c.key [])
      then err cert_without_key
      else ok none

  unfoldable pub tls_conf_of : Text → TlsConfig → Result SetupError (Option TlsConf)
  unfolding root_cas_of certificate_of
  tls_conf_of scheme c =
      if text_eq scheme (codes "wss")
      then root_cas_of c >>= (λ roots. certificate_of c >>= (λ pair. ok (
          some (record {
            name = c.server_name;
            insecure = c.skip_verify;
            root_cas = roots;
            certificate = pair;
          }))))
      else ok none

  -- url.Parse succeeds
  unfoldable pub parses : Text → Bool
  parses s = elim (sys.url_parse s) [ err e ↦ false | ok u ↦ true ]

  unfoldable pub decoded : Text → Result SetupError Remote
  unfolding parses
  decoded s = elim (decode_remote parses s) [
    | Types.err e ↦ err (invalid_remote s e)
    | Types.ok r ↦ ok r
  ]

  -- the checks of one remote behind its decoding
  unfoldable pub check_remote : Bool → Remote → Result SetupError (Unit {0})
  check_remote has_stdio r = fail_if (r.stdio && has_stdio) two_stdio >>= (λ _.
      fail_if (not r.reverse && (not r.stdio && not (can_listen sys.host r)))
        (cannot_listen (to_string r)))

  -- the loop over the remotes
  unfoldable pub check_remotes : Bool → List Text → Result SetupError (List Remote)
  unfolding decoded check_remote
  check_remotes has_stdio [] = ok []
  check_remotes has_stdio (s ∷ rest) = decoded s >>= (λ r.
      check_remote has_stdio r
      >>= (λ _. check_remotes (has_stdio || r.stdio) rest >>= (λ rs. ok (r ∷ rs))))

  unfoldable pub proxy_url_of : Text → Result SetupError (Option Url)
  proxy_url_of p =
      if text_eq p []
      then ok none
      else (elim (sys.url_parse p) [ err e ↦ err (invalid_proxy e) | ok u ↦ ok (some u) ])

  -- NewClient behind its checks
  unfoldable pub make_client : Config → Text → Option TlsConf → List Remote → Option Url → Client
  unfolding retry_interval_of env_duration
  make_client c url tls rs proxy =
      let has_reverse = any (λ r. r.reverse) rs in
      let has_socks = any (λ r. r.socks) rs in
      record {
        server_url = url;
        retry_interval = retry_interval_of c.max_retry_interval;
        tls_conf = tls;
        computed = rs;
        proxy_url = proxy;
        user = (parse_auth c.auth).0;
        pass = (parse_auth c.auth).1;
        timeout =
            env_duration sys.parse_duration sys.getenv (codes "SSH_TIMEOUT") (pos (30 * 10 ^ 9));
        inbound = true;
        outbound = has_reverse;
        socks_enabled = has_reverse && has_socks;
        alive = c.keep_alive;
      }

  unfoldable pub server_of : Text → Result SetupError Url
  unfolding with_scheme server_url_of
  server_of s = elim (sys.url_parse (with_scheme s)) [
    | err e ↦ err (invalid_server e)
    | ok u ↦ ok (server_url_of u)
  ]

  -- NewClient from its outbound proxy on, from its remotes on, and from its TLS configuration on
  unfoldable pub from_proxy : Config → Url → Option TlsConf → List Remote → Result SetupError Client
  unfolding proxy_url_of make_client
  from_proxy c u tls rs =
      proxy_url_of c.proxy >>= (λ proxy. ok (make_client c (sys.url_string u) tls rs proxy))

  unfoldable pub from_remotes : Config → Url → Option TlsConf → Result SetupError Client
  unfolding check_remotes from_proxy
  from_remotes c u tls = check_remotes false c.remotes >>= from_proxy c u tls

  unfoldable pub from_tls : Config → Url → Result SetupError Client
  unfolding tls_conf_of from_remotes
  from_tls c u = tls_conf_of u.scheme c.tls >>= from_remotes c u

  unfoldable pub new_client : Config → Result SetupError Client
  unfolding server_of from_tls
  new_client c = server_of c.server >>= from_tls c

-- base64.StdEncoding.DecodeString: no error, a CorruptInputError, or another error
pub data Base64 : Type 0 where
  decodes : Base64
  corrupt : Base64
  undecoded : Text → Base64

-- base64, and the hashes of the server's key in the wire format of SSH
pub record Hashes : Type 0 where
  pub base64 : Text → Base64
  pub base64_encode : Text → Text
  pub sha256 : Text → Text
  pub md5 : Text → Text

pub data Mismatch : Type 0 where
  undecodable : Text → Mismatch
  invalid_fingerprint : Text → Mismatch

-- "%02x" of a byte
unfoldable pub hex_digit : ℕ → ℕ
hex_digit n = if ltb n 10 then b'0' + n else b'a' + (n - 10)

unfoldable pub hex_byte : ℕ → Text
unfolding hex_digit
hex_byte n = hex_digit (n / 16) ∷ hex_digit (n % 16) ∷ []

-- strings.Join(parts, ":")
unfoldable pub join_colon : List Text → Text
join_colon [] = []
join_colon (p ∷ rest) =
    let later = join_colon rest in elim rest [ [] ↦ p | _ ∷ _ ↦ p ++ b':' ∷ later ]

module _ (h : Hashes) where
  unfoldable pub verify_legacy_fingerprint : Text → Text → Result Mismatch (Unit {0})
  unfolding hex_byte join_colon
  verify_legacy_fingerprint expect key =
      let got = join_colon (map hex_byte (h.md5 key)) in
      fail_if (not (has_prefix got expect)) (invalid_fingerprint got)

  -- the rest of `verifyServer`, by what base64 made of the fingerprint
  unfoldable pub verify_decoded : Base64 → Text → Text → Result Mismatch (Unit {0})
  unfolding verify_legacy_fingerprint
  verify_decoded corrupt expect key = verify_legacy_fingerprint expect key
  verify_decoded (undecoded e) expect key = err (undecodable e)
  verify_decoded decodes expect key =
      fail_if (not (text_eq (fingerprint_key h.base64_encode h.sha256 key) expect))
        (invalid_fingerprint (fingerprint_key h.base64_encode h.sha256 key))

  unfoldable pub verify_server : Text → Text → Result Mismatch (Unit {0})
  unfolding verify_decoded
  verify_server expect key =
      if text_eq expect [] then ok tt else verify_decoded (h.base64 expect) expect key

-- The dialer of setProxy: the URL goes to the HTTP proxy, or a SOCKS5 dialer is made of its host and user.
pub data ProxyDialer : Type 0 where
  connect_proxy : Url → ProxyDialer
  socks_proxy : Text → Option (Text × Text) → ProxyDialer

-- with the error of proxy.SOCKS5
unfoldable pub set_proxy : Option Text → Url → Result Text ProxyDialer
set_proxy socks_error u =
    if not (has_prefix u.scheme (codes "socks"))
    then ok (connect_proxy u)
    else if not (text_eq u.scheme (codes "socks")) && not (text_eq u.scheme (codes "socks5h"))
    then err (
        codes "unsupported socks proxy type: "
        ++ u.scheme
        ++ codes ":// (only socks5h:// or socks:// is supported)")
    else (elim socks_error [ some e ↦ err e | none ↦ ok (socks_proxy u.host u.user) ])
