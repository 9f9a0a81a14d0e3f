-- ===== src/Commands.antt =====
-- main.go: the commands `server` and `client`, from their flags to the server or the client that they make.
-- The package flag is a parameter: a command gets the settings that it made of its arguments, in their
-- order, and the arguments that are left. So are the environment, the writing of files and the canonical
-- form of a header's key. The process id, the signals and the statistics are left out.
pub mod Keygen
mod Examples
use chisel_uds.Prelude.{
  ℕ, ◌+◌, ◌*◌, ◌^◌, Text, codes, Bool, true, false, Option, none, some, List, [], ◌∷◌, ◌++◌,
  text_eq, cut, trim_space, if◌then◌else◌,
}
use chisel_uds.Prelude.Int.{ℤ, pos, negsuc}
use chisel_uds.Prelude.Dict.{Dict, insert}
use chisel_uds.Prelude.Result.{Result, err, ok, ◌>>=◌}
use chisel_uds.Keys.{Crypto, generate_key_file}
use chisel_uds.Settings.Environment.{Environment, env}
use chisel_uds.Settings.Users.{Regexp}
use chisel_uds.Server.Listener.{
  NetListener, listener, TlsConfig as ServerTls, System as ListenSystem,
}
use chisel_uds.Server.Setup.{
  Server, new_server, Config as ServerConfig, System as ServerSystem, SetupError as ServerError,
}
use chisel_uds.Client.Setup.{
  Client, new_client, Config as ClientConfig, TlsConfig as ClientTls, System as ClientSystem,
  SetupError as ClientError,
}

-- if text == "" { text = fallback }
unfoldable pub or_else : Text → Text → Text
or_else text fallback = if text_eq text [] then fallback else text

-- The variables of `server` behind its flags
pub record ServerOptions : Type 0 where
  pub config : ServerConfig
  pub tls : ServerTls
  pub keep_alive : ℤ
  pub socks5 : Bool
  pub reverse : Bool
  pub host : Text
  pub p : Text
  pub port : Text
  pub keygen : Text

abbrev pub server_defaults : ServerOptions
server_defaults = record {
  config = record {
    key_seed = [];
    key_file = [];
    auth_file = [];
    auth = [];
    proxy = [];
    otel_enabled = false;
    otel_endpoint = [];
  };
  tls = record { key = []; cert = []; domains = []; ca = [] };
  keep_alive = pos (25 * 10 ^ 9);
  socks5 = false;
  reverse = false;
  host = [];
  p = [];
  port = [];
  keygen = [];
}

pub data ServerFlag : Type 0 where
  key keyfile authfile auth proxy backend tls_key tls_cert tls_domain tls_ca host p port keygen :
      Text → ServerFlag
  keepalive : ℤ → ServerFlag
  socks5 reverse : Bool → ServerFlag

-- What the package flag does at a flag: `proxy` and `backend` set one variable, and `tls-domain` is a multiFlag.
unfoldable pub set_server_flag : ServerFlag → ServerOptions → ServerOptions
set_server_flag (key t) o = record o { config = record o.config { key_seed = t } }
set_server_flag (keyfile t) o = record o { config = record o.config { key_file = t } }
set_server_flag (authfile t) o = record o { config = record o.config { auth_file = t } }
set_server_flag (auth t) o = record o { config = record o.config { auth = t } }
set_server_flag (proxy t) o = record o { config = record o.config { proxy = t } }
set_server_flag (backend t) o = record o { config = record o.config { proxy = t } }
set_server_flag (tls_key t) o = record o { tls = record o.tls { key = t } }
set_server_flag (tls_cert t) o = record o { tls = record o.tls { cert = t } }
set_server_flag (tls_domain t) o = record o {
  tls = record o.tls { domains = o.tls.domains ++ t ∷ [] };
}
set_server_flag (tls_ca t) o = record o { tls = record o.tls { ca = t } }
set_server_flag (host t) o = record o { host = t }
set_server_flag (p t) o = record o { p = t }
set_server_flag (port t) o = record o { port = t }
set_server_flag (keygen t) o = record o { keygen = t }
set_server_flag (keepalive d) o = record o { keep_alive = d }
set_server_flag (socks5 b) o = record o { socks5 = b }
set_server_flag (reverse b) o = record o { reverse = b }

unfoldable pub set_server_flags : List ServerFlag → ServerOptions → ServerOptions
unfolding set_server_flag
set_server_flags [] o = o
set_server_flags (f ∷ rest) o = set_server_flags rest (set_server_flag f o)

-- the fallbacks of the host, the port, and the key and user of the configuration
unfoldable pub with_environment : Environment → ServerOptions → ServerOptions
unfolding or_else env
with_environment getenv o = record o {
  host = or_else (or_else o.host (getenv (codes "HOST"))) (codes "0.0.0.0");
  port = or_else (or_else (or_else o.port o.p) (getenv (codes "PORT"))) (codes "8080");
  config = record o.config {
    key_file = or_else o.config.key_file (env getenv (codes "KEY_FILE"));
    key_seed = or_else o.config.key_seed (env getenv (codes "KEY"));
    auth = or_else o.config.auth (getenv (codes "AUTH"));
  };
}

module _ (regexp : Regexp) (crypto : Crypto) (sys : ServerSystem) (listens : ListenSystem) where
  -- How the command ends, or with what it serves. A key that is not written to a file is printed.
  pub data ServerRun : Type 0 where
    generates : Option Text → ServerRun
    not_generated : Text → ServerRun
    not_set_up : ServerError → ServerRun
    not_listening : Text → ServerRun
    serves : Server regexp crypto sys → NetListener → ServerRun

  -- StartContext
  unfoldable pub start_server : Server regexp crypto sys → ServerOptions → ServerRun
  start_server s o = elim (listener listens o.tls o.host o.port) [
    | err e ↦ not_listening e
    | ok l ↦ serves s l
  ]

  -- by what NewServer returned
  unfoldable pub run_with :
      ServerOptions → Result ServerError (Server regexp crypto sys) → ServerRun
  unfolding start_server
  run_with o (err e) = not_set_up e
  run_with o (ok s) = start_server s o

  -- the command behind the flag `keygen`
  unfoldable pub run_server : ServerOptions → ServerRun
  unfolding run_with
  run_server o = run_with o (new_server regexp crypto sys o.config)

  unfoldable pub keygen_end : Result Text (Option Text) → ServerRun
  keygen_end (err e) = not_generated e
  keygen_end (ok printed) = generates printed

  unfoldable pub run_keygen : (Text → Text → Option Text) → ServerOptions → ServerRun
  unfolding keygen_end
  run_keygen write o =
      keygen_end (generate_key_file crypto write o.keygen sys.draw o.config.key_seed)

  unfoldable pub server : Environment → (Text → Text → Option Text) → List ServerFlag → ServerRun
  unfolding set_server_flags run_keygen with_environment run_server
  server getenv write flags =
      let o = set_server_flags flags server_defaults in
      if text_eq o.keygen [] then run_server (with_environment getenv o) else run_keygen write o

-- headerFlags.Set: the last value of a header counts. `canonical` is the form of a key of net/textproto.
unfoldable pub set_header : (Text → Text) → Text → Dict Text → Result Text (Dict Text)
set_header canonical arg headers = elim (cut arg b':') [
  | none ↦ err (
      codes "Invalid header ("
      ++ arg
      ++ codes "). Should be in the format \"HeaderName: HeaderContent\"")
  | some (name, value) ↦ ok (insert (canonical name) (trim_space value) headers)
]

-- The variables of `client` behind its flags
pub record ClientOptions : Type 0 where
  pub settings : ClientConfig
  pub fingerprint : Text
  pub max_retry_count : ℤ
  pub headers : Dict Text
  pub hostname : Text
  pub sni : Text

-- the server's name for TLS, by the flags `sni` and `hostname`
unfoldable pub server_name : ClientOptions → Text
unfolding or_else
server_name o = or_else o.sni (or_else o.hostname o.settings.tls.server_name)

pub data ClientRun : Type 0 where
  lacks_arguments : ClientRun
  not_made : ClientError → ClientRun
  -- the client, with its headers
  starts : Client → Dict Text → ClientRun

module _ (sys : ClientSystem) (getenv : Environment) where
  -- The headers with the flag `hostname`
  unfoldable pub with_hostname : ClientOptions → Dict Text
  with_hostname o =
      if text_eq o.hostname [] then o.headers else insert (codes "Host") o.hostname o.headers

  unfoldable pub client_config : Text → List Text → ClientOptions → ClientConfig
  unfolding server_name or_else
  client_config address remotes o = record o.settings {
    server = address;
    remotes = remotes;
    auth = or_else o.settings.auth (getenv (codes "AUTH"));
    tls = record o.settings.tls { server_name = server_name o };
  }

  -- with the arguments that the flags left
  unfoldable pub client : List Text → ClientOptions → ClientRun
  unfolding client_config with_hostname
  client [] o = lacks_arguments
  client (address ∷ []) o = lacks_arguments
  client (address ∷ remote ∷ rest) o =
      elim (new_client sys (client_config address (remote ∷ rest) o)) [
        | err e ↦ not_made e
        | ok c ↦ starts c (with_hostname o)
      ]
