-- ===== src/Server/Setup.antt =====
-- server/server.go: NewServer and Close, and the routing of a request in server/server_handler.go.
-- Parameters: the files, SSH's parser of keys, the hash and base64, url.Parse, the exporters of OpenTelemetry,
-- the watcher of the user file, and the text of the build.
pub mod Admits
pub mod Examples
use chisel_uds.Prelude.{
  ℕ, Text, codes, Bool, true, false, not, ◌&&◌, Option, none, some, List, [], ◌∷◌, ◌++◌, text_eq,
  to_lower, trim_prefix, trim_space, if◌then◌else◌,
}
use chisel_uds.Prelude.Result.{Result, err, ok, ◌>>=◌}
use chisel_uds.Keys.{Crypto, seed_pem, chisel_key_pem, is_chisel_key, fingerprint_key}
use chisel_uds.Settings.Users.{
  Regexp, User, Users, AuthFile, LoadError, load_user_index, add_user, user_allow_all, parse_auth,
}

-- The fields of Config that NewServer reads
pub record Config : Type 0 where
  pub key_seed : Text
  pub key_file : Text
  pub auth_file : Text
  pub auth : Text
  pub proxy : Text
  pub otel_enabled : Bool
  pub otel_endpoint : Text

-- The parts of url.URL that the reverse proxy reads
pub record ProxyUrl : Type 0 where
  pub scheme : Text
  pub host : Text

-- What a run of the command finds
pub record System : Type 0 where
  -- what rand.Reader gives to this run, which draws at most one key
  pub draw : ℕ
  -- the error of the exporters that newOTELPublisher makes for an endpoint
  pub otel_error : Text → Option Text
  pub auth_entries : Text → AuthFile
  pub watch_error : Text → Option Text
  pub read_file : Text → Option Text
  -- ssh.ParsePrivateKey: the public key in the wire format of SSH
  pub parse_private_key : Text → Result Text Text
  pub base64_encode : Text → Text
  pub sha256 : Text → Text
  pub url_parse : Text → Result Text ProxyUrl

-- An error that NewServer returns, or the message of a call of log.Fatal
pub data SetupError : Type 0 where
  otel_failed : Text → SetupError
  load_failed : LoadError → SetupError
  watch_failed : Text → SetupError
  exits : Text → SetupError
  invalid_proxy : Text → SetupError
  missing_protocol : ProxyUrl → SetupError

-- the pair that Director sets: the URL's scheme and host, and the request's host
pub record Directed : Type 0 where
  pub url_scheme : Text
  pub url_host : Text
  pub request_host : Text

unfoldable pub director : ProxyUrl → Directed → Directed
director u r = record { url_scheme = u.scheme; url_host = u.host; request_host = u.host }

module _ (regexp : Regexp) (crypto : Crypto) (sys : System) where
  -- What NewServer makes: the fields of Server
  pub record Server : Type 0 where
    pub users : Users regexp
    pub fingerprint : Text
    pub reverse_proxy : Option ProxyUrl
    pub publishes : Bool

  -- `newOTELPublisher` up to its exporters
  unfoldable pub new_otel_publisher : Text → Result SetupError Bool
  new_otel_publisher endpoint =
      let e =
        trim_prefix (trim_prefix (trim_space endpoint) (codes "http://")) (codes "https://") in
      if text_eq e []
      then err (otel_failed (codes "otel endpoint is empty"))
      else (elim (sys.otel_error e) [ some x ↦ err (otel_failed x) | none ↦ ok true ])

  unfoldable pub otel_of : Config → Result SetupError Bool
  unfolding new_otel_publisher
  otel_of c = if c.otel_enabled then new_otel_publisher c.otel_endpoint else ok false

  -- LoadUsers
  unfoldable pub load_users : Text → Result SetupError (Users regexp)
  load_users file =
      let (users, load_error) = load_user_index regexp (sys.auth_entries file) [] in
      elim load_error [
        | some e ↦ err (load_failed e)
        | none ↦ (elim (sys.watch_error file) [ some e ↦ err (watch_failed e) | none ↦ ok users ])
      ]

  unfoldable pub file_users : Text → Result SetupError (Users regexp)
  unfolding load_users
  file_users file = if text_eq file [] then ok [] else load_users file

  -- the user of the flag `auth`, if it names one
  unfoldable pub with_pair : Text → Text × Text → Users regexp → Users regexp
  unfolding add_user
  with_pair auth (name, pass) users =
      if text_eq auth []
      then users
      else if text_eq name []
      then users
      else add_user regexp (record { name = name; pass = pass; addrs = user_allow_all regexp ∷ [] })
          users

  unfoldable pub with_auth : Text → Users regexp → Users regexp
  unfolding with_pair parse_auth
  with_auth auth users = with_pair auth (parse_auth auth) users

  -- the bytes of the key, behind the look for a key that is given in place of its file
  unfoldable pub key_bytes : Text → Result SetupError Text
  key_bytes file = if is_chisel_key file then ok file else (elim (sys.read_file file) [
    | none ↦ err (exits (codes "Failed to read key file " ++ file))
    | some b ↦ ok b
  ])

  unfoldable pub pem_of_key : Text → Result SetupError Text
  pem_of_key key =
      if is_chisel_key key
      then (elim (chisel_key_pem crypto key) [
        | err e ↦ err (exits (codes "Invalid key " ++ key))
        | ok pem ↦ ok pem
      ])
      else ok key

  unfoldable pub pem_of_seed : Text → Result SetupError Text
  pem_of_seed seed = elim (seed_pem crypto sys.draw seed) [
    | err e ↦ err (exits (codes "Failed to generate key"))
    | ok pem ↦ ok pem
  ]

  -- the private key of the server
  unfoldable pub server_pem : Text → Text → Result SetupError Text
  unfolding key_bytes pem_of_key pem_of_seed
  server_pem key_file key_seed =
      if text_eq key_file [] then pem_of_seed key_seed else key_bytes key_file >>= pem_of_key

  unfoldable pub fingerprint_of : Text → Result SetupError Text
  unfolding fingerprint_key
  fingerprint_of pem = elim (sys.parse_private_key pem) [
    | err e ↦ err (exits (codes "Failed to parse key"))
    | ok wire ↦ ok (fingerprint_key sys.base64_encode sys.sha256 wire)
  ]

  unfoldable pub proxy_of : Text → Result SetupError (Option ProxyUrl)
  proxy_of proxy = if text_eq proxy [] then ok none else (elim (sys.url_parse proxy) [
    | err e ↦ err (invalid_proxy e)
    | ok u ↦ (if text_eq u.host [] then err (missing_protocol u) else ok (some u))
  ])

  -- NewServer behind its private key, and behind its users
  unfoldable pub from_pem : Config → Bool → Users regexp → Text → Result SetupError Server
  unfolding fingerprint_of proxy_of
  from_pem c publishes users pem = fingerprint_of pem >>= (λ f. proxy_of c.proxy >>= (λ p.
      ok (record { users = users; fingerprint = f; reverse_proxy = p; publishes = publishes })))

  unfoldable pub from_key : Config → Bool → Users regexp → Result SetupError Server
  unfolding server_pem from_pem
  from_key c publishes users = server_pem c.key_file c.key_seed >>= from_pem c publishes users

  unfoldable pub new_server : Config → Result SetupError Server
  unfolding otel_of file_users with_auth from_key
  new_server c = otel_of c >>= (λ publishes.
      file_users c.auth_file >>= (λ users. from_key c publishes (with_auth c.auth users)))

-- ProtocolVersion of share/version.go
abbrev pub protocol_version : Text
protocol_version = codes "chisel-v3"

-- The answer to a request: it goes to handleWebsocket, to the reverse proxy, or has a status and a body.
pub data Routed : Type 0 where
  websocket : Routed
  proxied : Routed
  answered : Bool → Text → Routed

-- handleClientHandler, by the request's headers and path; a status is 404 or not
unfoldable pub route : Text → Bool → Text → Text → Text → Routed
route build_version has_proxy upgrade protocol path =
    if text_eq (to_lower upgrade) (codes "websocket") && text_eq protocol protocol_version
    then websocket
    else if has_proxy
    then proxied
    else if text_eq path (codes "/health")
    then answered true (codes "OK" ++ 10 ∷ [])
    else if text_eq path (codes "/version")
    then answered true build_version
    else answered false (codes "Not found")

-- Close: only the first call closes, with the error of the HTTP server, or else that of OpenTelemetry's
-- shutdown if it was set up. The first part is whether a call has been made.
unfoldable pub close : Bool → Option Text → Option (Option Text) → Bool × Option Text
close true http_error otel = (true, none)
close false (some e) otel = (true, some e)
close false none none = (true, none)
close false none (some otel_error) = (true, otel_error)
