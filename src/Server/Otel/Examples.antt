-- ===== src/Server/Otel/Examples.antt =====
-- The theorems about reports at one proxy and one stream.
use chisel_uds.Prelude.{ℕ, true, codes, [], ◌≢◌, refl, none, text_ne, text_eq}
use chisel_uds.Monitor.{zero_counters}
use chisel_uds.Settings.Remote.Types.{Remote, empty_remote}
use chisel_uds.Tunnel.Proxy.{System, missing}
use chisel_uds.Tunnel.Streams.{StreamState, StreamEvent}
use chisel_uds.Server.{itoa}
use chisel_uds.Server.Otel.{OtelPublisher, stream_key}

abbrev reversed_web : Remote
reversed_web = record empty_remote {
  reverse = true;
  local_host = codes "0.0.0.0";
  local_port = codes "80";
  local_proto = codes "tcp";
}

abbrev willing : System
willing = record { answer = λ c. none; file_info = λ path. missing }

abbrev publisher : OtelPublisher
publisher = record {
  session_started_at = [];
  endpoint_pending_at = [];
  stream_open_at = [];
  last_snapshot = record { sessions = []; endpoints = []; counters = zero_counters };
  measured = [];
}

abbrev event : StreamState → ℕ → ℕ → StreamEvent
event state cid time = record {
  session_id = codes "1";
  descriptor = codes "R:80=>web:80";
  protocol = codes "tcp";
  conn_id = cid;
  state = state;
  error = [];
  time = time;
}

other_key : stream_key (event StreamState.opened 2 4) ≢ stream_key (event StreamState.opened 1 3)
unfolding stream_key text_eq itoa
other_key =
    text_ne (stream_key (event StreamState.opened 2 4)) (stream_key (event StreamState.opened 1 3))
      refl
