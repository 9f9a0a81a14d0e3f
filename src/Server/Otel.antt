-- ===== src/Server/Otel.antt =====
-- server/otel.go and the calls of it in server/monitor_state.go: what the publisher keeps and measures.
-- The packages of OpenTelemetry are not modelled: spans are left out, and a measurement is the value that
-- is handed over, where a duration is its two ends. All instruments are set, as `initMetrics` leaves them.
pub mod Streams
mod Examples
use chisel_uds.Prelude.{
  ℕ, Text, codes, Bool, true, false, Option, none, some, List, [], ◌∷◌, ◌++◌, ◌==◌, text_eq,
  contains, has_suffix, if◌then◌else◌,
}
use chisel_uds.Prelude.Dict.{Dict, lookup, insert, remove}
use chisel_uds.Monitor.{
  MonitorState, MonitorSnapshot, SessionSnapshot, SessionStatus, EndpointStatus, snapshot,
  mark_session_pending, mark_session_connected, mark_session_failed, mark_session_disconnected,
  update_endpoint, endpoint_key,
}
use chisel_uds.Tunnel.Streams.{StreamState, StreamEvent}
use chisel_uds.Tunnel.Proxy.{EndpointStateChange}
use chisel_uds.Server.{itoa}
use chisel_uds.Server.Endpoints.{status_of}

pub data Measurement : Type 0 where
  handshake_duration : ℕ → ℕ → SessionStatus → Measurement
  session_failure : Measurement
  session_duration : ℕ → ℕ → Measurement
  endpoint_setup_duration : ℕ → ℕ → EndpointStatus → Text → Measurement
  endpoint_failure : Text → Measurement
  stream_accepted : Text → Text → Measurement
  stream_error : Text → Text → Measurement
  stream_duration : ℕ → ℕ → Text → Text → Measurement

-- The maps of the publisher and, the newest first, what it measured.
pub record OtelPublisher : Type 0 where
  pub session_started_at : Dict ℕ
  pub endpoint_pending_at : Dict ℕ
  pub stream_open_at : Dict ℕ
  pub last_snapshot : MonitorSnapshot
  pub measured : List Measurement

unfoldable pub update_snapshot : MonitorSnapshot → OtelPublisher → OtelPublisher
update_snapshot snap p = record p { last_snapshot = snap }

unfoldable pub endpoint_mode : Text → Text
endpoint_mode descriptor =
    if contains descriptor (codes "uds-listen")
    then codes "uds-listen"
    else if contains descriptor (codes "uds-pair")
    then codes "uds-pair"
    else if has_suffix descriptor (codes "/udp")
    then codes "udp"
    else codes "tcp"

abbrev measure : Measurement → OtelPublisher → OtelPublisher
measure m p = record p { measured = m ∷ p.measured }

-- ok && !t0.IsZero()
abbrev started : Text → OtelPublisher → Option ℕ
started id p = elim (lookup id p.session_started_at) [
  | none ↦ none
  | some t0 ↦ if t0 == 0 then none else some t0
]

abbrev measure_handshake : ℕ → Text → SessionStatus → OtelPublisher → OtelPublisher
measure_handshake now id status p = elim (started id p) [
  | none ↦ p
  | some t0 ↦ measure (handshake_duration t0 now status) p
]

unfoldable pub on_session_status : ℕ → Text → SessionStatus → ℕ → OtelPublisher → OtelPublisher
on_session_status now id SessionStatus.pending started_at p = record p {
  session_started_at = insert id started_at p.session_started_at;
}
on_session_status now id SessionStatus.connected started_at p =
    measure_handshake now id SessionStatus.connected p
on_session_status now id SessionStatus.failed started_at p =
    measure session_failure (measure_handshake now id SessionStatus.failed p)
on_session_status now id SessionStatus.disconnected started_at p = elim (started id p) [
  | none ↦ p
  | some t0 ↦ record (measure (session_duration t0 now) p) {
    session_started_at = remove id p.session_started_at;
  }
]

abbrev measure_setup : ℕ → Text → EndpointStatus → Text → OtelPublisher → OtelPublisher
measure_setup now key status mode p = elim (lookup key p.endpoint_pending_at) [
  | none ↦ p
  | some t0 ↦ measure (endpoint_setup_duration t0 now status mode) p
]

unfoldable pub on_endpoint_status : ℕ → Text → Text → EndpointStatus → OtelPublisher → OtelPublisher
unfolding endpoint_mode
on_endpoint_status now id descriptor EndpointStatus.pending p = record p {
  endpoint_pending_at = insert (endpoint_key id descriptor) now p.endpoint_pending_at;
}
on_endpoint_status now id descriptor EndpointStatus.active p =
    measure_setup now (endpoint_key id descriptor) EndpointStatus.active (endpoint_mode descriptor)
      p
on_endpoint_status now id descriptor EndpointStatus.failed p =
    let mode = endpoint_mode descriptor in
    measure (endpoint_failure mode)
      (measure_setup now (endpoint_key id descriptor) EndpointStatus.failed mode p)
on_endpoint_status now id descriptor EndpointStatus.closed p = record p {
  endpoint_pending_at = remove (endpoint_key id descriptor) p.endpoint_pending_at;
}

-- fmt.Sprintf("%s|%s|%d", ...), for a number below 2^31
unfoldable pub stream_key : StreamEvent → Text
unfolding itoa
stream_key ev = ev.session_id ++ b'|' ∷ (ev.descriptor ++ b'|' ∷ itoa ev.conn_id)

-- the switch of `onStreamEvent`, for the event's state and key
unfoldable pub record_stream : StreamState → Text → StreamEvent → OtelPublisher → OtelPublisher
unfolding endpoint_mode
record_stream StreamState.accepted key ev p =
    measure (stream_accepted (endpoint_mode ev.descriptor) ev.protocol) p
record_stream StreamState.opened key ev p = record p {
  stream_open_at = insert key ev.time p.stream_open_at;
}
record_stream StreamState.error key ev p =
    measure (stream_error (endpoint_mode ev.descriptor) ev.protocol) p
record_stream StreamState.closed key ev p = elim (lookup key p.stream_open_at) [
  | none ↦ p
  | some t0 ↦
      record (measure (stream_duration t0 ev.time (endpoint_mode ev.descriptor) ev.protocol) p) {
        stream_open_at = remove key p.stream_open_at;
      }
]

unfoldable pub on_stream_event : StreamEvent → OtelPublisher → OtelPublisher
unfolding record_stream
on_stream_event ev p = record_stream ev.state (stream_key ev) ev p

-- The server's monitor and its publisher, which is set.
pub record Telemetry : Type 0 where
  pub monitor : MonitorState
  pub otel : OtelPublisher

-- The time at which the session of the snapshot started, `now` if it is not in it.
unfoldable pub started_in : Text → ℕ → List SessionSnapshot → ℕ
started_in id now [] = now
started_in id now (s ∷ rest) =
    let more = started_in id now rest in if text_eq s.session_id id then s.started_at else more

abbrev publish : MonitorState → OtelPublisher → Telemetry
publish m p = record { monitor = m; otel = update_snapshot (snapshot m) p }

-- the methods of `Server` of these names
unfoldable pub publish_session_pending : ℕ → Text → Text → Telemetry → Telemetry
unfolding on_session_status update_snapshot
publish_session_pending now id remote_addr t =
    let m = mark_session_pending now id remote_addr t.monitor in
    publish m (on_session_status now id SessionStatus.pending now t.otel)

unfoldable pub publish_session_connected : ℕ → Text → Telemetry → Telemetry
unfolding on_session_status update_snapshot started_in
publish_session_connected now id t =
    let m = mark_session_connected now id t.monitor in
    let started_at = started_in id now (snapshot m).sessions in
    publish m (on_session_status now id SessionStatus.connected started_at t.otel)

unfoldable pub publish_session_failed : ℕ → Text → Text → Telemetry → Telemetry
unfolding on_session_status update_snapshot started_in
publish_session_failed now id message t =
    let m = mark_session_failed now id message t.monitor in
    let started_at = started_in id now (snapshot m).sessions in
    publish m (on_session_status now id SessionStatus.failed started_at t.otel)

unfoldable pub publish_session_disconnected : ℕ → Text → Telemetry → Telemetry
unfolding on_session_status update_snapshot
publish_session_disconnected now id t =
    let m = mark_session_disconnected now id t.monitor in
    publish m (on_session_status now id SessionStatus.disconnected now t.otel)

unfoldable pub publish_endpoint : ℕ → EndpointStateChange → Telemetry → Telemetry
unfolding on_endpoint_status update_snapshot status_of
publish_endpoint now c t =
    let status = status_of c.state in
    let m = update_endpoint now c.session_id c.descriptor status c.error t.monitor in
    publish m (on_endpoint_status now c.session_id c.descriptor status t.otel)
