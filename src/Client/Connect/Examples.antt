-- ===== src/Client/Connect/Examples.antt =====
-- The theorem about one connection at a server that refuses the configuration.
use chisel_uds.Prelude.{codes, none, false, true, []}
use chisel_uds.Prelude.Int.{pos}
use chisel_uds.Prelude.Result.{ok}
use chisel_uds.Client.Setup.{Client}
use chisel_uds.Client.Connect.{Attempt, connection_once}
use chisel_uds.Client.Connect.Handshake.{IsOrderly, connection_once-IsOrderly}

abbrev client : Client
client = record {
  server_url = codes "ws://h:80";
  retry_interval = pos 0;
  tls_conf = none;
  computed = [];
  proxy_url = none;
  user = [];
  pass = [];
  timeout = pos 30;
  inbound = true;
  outbound = false;
  socks_enabled = false;
  alive = pos 0;
}

abbrev refused : Attempt
refused = record {
  cancelled = false;
  socks_error = none;
  dial_error = none;
  handshake_error = none;
  reply = ok (codes "server: access denied");
  bind_error = codes "EOF";
  lasted = 0;
}

connection_once-IsOrderly_example : IsOrderly client refused (connection_once client refused)
connection_once-IsOrderly_example = connection_once-IsOrderly client refused
