-- ===== src/Settings/Remote/Examples.antt =====
-- The theorems about remotes at concrete remotes.
use chisel_uds.Prelude.{
  Text, codes, Bool, true, false, [], ◌≡◌, refl, inl, inr, text_eq, text_ne, has_byte, has_prefix,
  trim_space,
}
use chisel_uds.Settings.Number.{is_port}
use chisel_uds.Settings.Remote.{decode_remote, is_host}
use chisel_uds.Settings.Remote.Types.{Remote, ok}
use chisel_uds.Settings.Remote.RoundTrip.{IsHostName, IsHostPort, decode-encode}
use chisel_uds.Settings.Remote.Uds.RoundTrip.{IsUdsRemote, decode-encode_uds}
use chisel_uds.Settings.Remote.Print.{encode}

abbrev any_host : Text → Bool
any_host s = true

abbrev dns : Remote
dns = record {
  local_host = codes "[::1]";
  local_port = codes "5353";
  local_proto = codes "udp";
  remote_host = codes "dns.example";
  remote_port = codes "53";
  remote_proto = codes "udp";
  socks = false;
  reverse = true;
  stdio = false;
  uds_mode = [];
  uds_socket_path = [];
}

dns_local : IsHostName any_host dns.local_host
unfolding is_host is_port has_byte
dns_local = record {
  token = inr (b':', codes ":1", refl, refl);
  accepted = refl;
  not_port = refl;
  no_slash = refl;
}

dns_remote : IsHostName any_host dns.remote_host
unfolding is_host is_port has_byte
dns_remote = record {
  token = inl ((λ e. cc), refl);
  accepted = refl;
  not_port = refl;
  no_slash = refl;
}

dns-IsHostPort : IsHostPort any_host dns
unfolding is_port has_prefix text_eq
dns-IsHostPort = record {
  local_host = dns_local;
  not_stdio = text_ne (codes "[::1]") (codes "stdio") refl;
  not_prefix = text_ne (codes "[::1]") (codes "R") refl;
  not_mode = refl;
  local_port = refl;
  remote_host = dns_remote;
  remote_port = refl;
  proto = inr refl;
  same_proto = refl;
  no_socks = refl;
  no_stdio = refl;
  no_mode = refl;
  no_path = refl;
}

decode-encode_example : decode_remote any_host (encode dns) ≡ ok dns
decode-encode_example = decode-encode any_host dns dns-IsHostPort

abbrev paired : Remote
paired = record {
  local_host = [];
  local_port = [];
  local_proto = codes "unix";
  remote_host = codes "[::1]";
  remote_port = codes "9000";
  remote_proto = codes "tcp";
  socks = false;
  reverse = true;
  stdio = false;
  uds_mode = codes "uds-pair";
  uds_socket_path = codes "/tmp/p.sock";
}

paired-IsUdsRemote : IsUdsRemote any_host paired
unfolding is_host is_port has_byte trim_space
paired-IsUdsRemote = record {
  mode = inr refl;
  path_ne_nil = λ e. cc;
  path_no_colon = refl;
  path_trimmed = refl;
  target_trimmed = refl;
  host = inr (codes "::1", refl, refl, refl, refl);
  accepted = refl;
  port = refl;
  is_reverse = refl;
  no_socks = refl;
  no_stdio = refl;
  no_local_host = refl;
  no_local_port = refl;
  local_unix = refl;
  remote_tcp = refl;
}

decode-encode_uds_example : decode_remote any_host (encode paired) ≡ ok paired
decode-encode_uds_example = decode-encode_uds any_host paired paired-IsUdsRemote
