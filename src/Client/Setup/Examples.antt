-- ===== src/Client/Setup/Examples.antt =====
-- The theorems about the set-up of a client, at one configuration and at two fingerprints.
use chisel_uds.Prelude.{
  Text, codes, true, false, none, List, [], ◌∷◌, ◌++◌, ◌≡◌, ◌↔◌, refl, arith, has_prefix,
  has_suffix, text_eq, trim_prefix, trim_space, cut, cut_last, has_byte,
}
use chisel_uds.Prelude.Int.{pos}
use chisel_uds.Prelude.Result.{err, ok}
use chisel_uds.Settings.Number.{is_port}
use chisel_uds.Settings.HostPort.{split_host_port}
use chisel_uds.Settings.Remote.{decode_remote, set_proto}
use chisel_uds.Settings.Remote.Tokens.{find_parts, l4_proto}
use chisel_uds.Settings.Remote.Uds.{decode_uds_remote}
use chisel_uds.Settings.Remote.Types.{Remote, is_uds, empty_remote}
use chisel_uds.Settings.Remote.Print.{can_listen}
use chisel_uds.Client.Setup.{
  Config, Url, two_stdio, Client, System, with_scheme, to_websocket, has_port, make_client,
  new_client, check_remotes, Hashes, corrupt, verify_server,
}
use chisel_uds.Client.Setup.Remotes.{IsSetUp, new_client-IsSetUp}
use chisel_uds.Client.Setup.Fingerprint.{IsFingerprintOf, verify_server_iff}

abbrev parsed : Url
parsed = record { scheme = codes "http"; host = codes "h"; user = none; others = [] }

abbrev sys : System
sys = record {
  url_parse = λ s. ok parsed;
  url_string = λ u. u.scheme ++ codes "://" ++ u.host;
  read_file = λ path. none;
  certificates = λ content. [];
  load_key_pair = λ cert key. ok cert;
  host = record { listens_tcp = λ a. true; listens_udp = λ a. true; has_directory = λ a. true };
  getenv = λ name. [];
  parse_duration = λ t. none;
}

abbrev config : Config
config = record {
  auth = codes "me:secret";
  keep_alive = pos 25;
  max_retry_interval = pos 0;
  server = codes "h";
  proxy = [];
  remotes = codes "3000" ∷ codes "R:80" ∷ [];
  tls = record { skip_verify = false; ca = []; cert = []; key = []; server_name = [] };
}

abbrev here : Text → Remote
here port = record empty_remote {
  local_host = codes "0.0.0.0";
  local_port = port;
  local_proto = codes "tcp";
  remote_host = codes "127.0.0.1";
  remote_port = port;
  remote_proto = codes "tcp";
}

abbrev remotes : List Remote
remotes = here (codes "3000") ∷ record (here (codes "80")) { reverse = true } ∷ []

abbrev client : Client
client = make_client sys config (codes "ws://h:80") none remotes none

config_remotes : check_remotes sys false config.remotes ≡ ok remotes
unfolding check_remotes can_listen decode_remote set_proto find_parts l4_proto decode_uds_remote
    is_port split_host_port has_prefix has_suffix text_eq trim_prefix trim_space cut cut_last
    has_byte is_uds
config_remotes = refl

config_client : new_client sys config ≡ ok client
unfolding new_client can_listen with_scheme to_websocket has_port make_client decode_remote
    set_proto find_parts l4_proto decode_uds_remote is_port split_host_port has_prefix has_suffix
    text_eq trim_prefix trim_space cut cut_last has_byte is_uds
config_client = refl

new_client-IsSetUp_example : IsSetUp sys config client
new_client-IsSetUp_example = new_client-IsSetUp sys config client config_client

-- Two remotes on the standard streams are an error.
two_stdio_example :
    check_remotes sys false (codes "stdio:a:1" ∷ codes "stdio:b:2" ∷ []) ≡ err two_stdio
unfolding check_remotes can_listen decode_remote set_proto find_parts l4_proto decode_uds_remote
    is_port split_host_port has_prefix has_suffix text_eq trim_prefix trim_space cut cut_last
    has_byte is_uds
two_stdio_example = refl

-- A server whose name begins with "http" gets no scheme.
scheme_of_host : with_scheme (codes "httpd.example:80") ≡ codes "httpd.example:80"
unfolding with_scheme has_prefix
scheme_of_host = refl

abbrev hashes : Hashes
hashes = record {
  base64 = λ t. corrupt;
  base64_encode = λ b. b;
  sha256 = λ key. codes "h=";
  md5 = λ key. 171 ∷ 1 ∷ [];
}

verify_server_iff_example :
    (verify_server hashes (codes "a") [] ≡ ok tt) ↔ IsFingerprintOf hashes (codes "a") []
verify_server_iff_example = verify_server_iff hashes (codes "a") [] (λ e. absurd (ground arith))

-- One digit is enough of a fingerprint by MD5.
one_digit : verify_server hashes (codes "a") [] ≡ ok tt
unfolding verify_server text_eq has_prefix
one_digit = refl
