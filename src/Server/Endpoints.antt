-- ===== src/Server/Endpoints.antt =====
-- `onEndpointStateChange` of server/monitor_state.go, and what the monitor holds after the life of a
-- proxy. The publisher of the metrics is not set.
use chisel_uds.Prelude.{ℕ, Text, some, List, [], ◌∷◌, ◌≡◌, refl, arith, text_eq_refl}
use chisel_uds.Prelude.Dict.{lookup, lookup-insert}
use chisel_uds.Monitor.{
  MonitorState, EndpointSnapshot, EndpointStatus, update_endpoint, endpoint_key, endpoint_or_new,
}
use chisel_uds.Settings.Remote.Types.{Remote}
use chisel_uds.Settings.Remote.Print.{to_string}
use chisel_uds.Tunnel.Proxy.{
  EndpointState, EndpointStateChange, System, Tried, refused, done, Listener, listen, life,
  state_change,
}

-- the switch of `onEndpointStateChange`
unfoldable pub status_of : EndpointState → EndpointStatus
status_of EndpointState.pending = EndpointStatus.pending
status_of EndpointState.active = EndpointStatus.active
status_of EndpointState.failed = EndpointStatus.failed
status_of EndpointState.closed = EndpointStatus.closed

unfoldable pub on_endpoint_state_change : ℕ → EndpointStateChange → MonitorState → MonitorState
unfolding status_of
on_endpoint_state_change now c m =
    update_endpoint now c.session_id c.descriptor (status_of c.state) c.error m

-- The changes in order, each at its time.
unfoldable pub report : (EndpointState → ℕ) → List EndpointStateChange → MonitorState → MonitorState
unfolding on_endpoint_state_change
report clock [] m = m
report clock (c ∷ rest) m = report clock rest (on_endpoint_state_change (clock c.state) c m)

-- What the monitor holds of the endpoint of a proxy whose life is over: it failed with the error of
-- `listen`, or it is closed.
pub record HasEndpoint (session_id descriptor : Text) (status : EndpointStatus) (message : Text)
    (m : MonitorState) : Type 0 where
  pub endpoint : EndpointSnapshot
  pub found : lookup (endpoint_key session_id descriptor) m.endpoints ≡ some endpoint
  pub status_eq : endpoint.status ≡ status
  pub error_eq : endpoint.last_error ≡ message

update_endpoint-HasEndpoint :
    (now : ℕ) (id descriptor : Text) (status : EndpointStatus) (message : Text) (m : MonitorState)
    → HasEndpoint id descriptor status message (update_endpoint now id descriptor status message m)
unfolding update_endpoint
update_endpoint-HasEndpoint now id descriptor status message m = record {
  endpoint = record (endpoint_or_new id descriptor m) {
    status = status;
    last_error = message;
    updated_at = now;
  };
  found = rw (lookup-insert, text_eq_refl (endpoint_key id descriptor)) refl;
  status_eq = refl;
  error_eq = refl;
}

pub Ended : Text → Remote → Tried Listener → MonitorState → Type 0
Ended id r (refused e) m = HasEndpoint id (to_string r) EndpointStatus.failed e m
Ended id r (done l) m = HasEndpoint id (to_string r) EndpointStatus.closed [] m

life-refused :
    (sys : System) (log id e : Text) (r : Remote)
    → (listen sys log r).1 ≡ refused e
    → life sys log id r
      ≡ state_change id r EndpointState.pending [] ∷ state_change id r EndpointState.failed e ∷ []
unfolding life
life-refused sys log id e r q = ground arith

life-done :
    (sys : System) (log id : Text) (l : Listener) (r : Remote)
    → (listen sys log r).1 ≡ done l
    → life sys log id r
      ≡ state_change id r EndpointState.pending []
        ∷ state_change id r EndpointState.active []
        ∷ state_change id r EndpointState.closed []
        ∷ []
unfolding life
life-done sys log id l r q = ground arith

life-made :
    (sys : System) (log id : Text) (r : Remote) (clock : EndpointState → ℕ) (m : MonitorState)
    (made : Tried Listener)
    → (listen sys log r).1 ≡ made
    → Ended id r (listen sys log r).1 (report clock (life sys log id r) m)
unfolding report Ended
life-made sys log id r clock m (refused e) q =
    rw (life-refused sys log id e r q, q)
      (update_endpoint-HasEndpoint _ id (to_string r) EndpointStatus.failed e _)
life-made sys log id r clock m (done l) q =
    rw (life-done sys log id l r q, q)
      (update_endpoint-HasEndpoint _ id (to_string r) EndpointStatus.closed [] _)

-- When the changes of a proxy's whole life were reported, at whatever times and to whatever monitor, its
-- endpoint has failed with the error of `listen` if the proxy did not come to listen, and is closed
-- without an error if it did.
pub report-life :
    (sys : System) (log id : Text) (r : Remote) (clock : EndpointState → ℕ) (m : MonitorState)
    → Ended id r (listen sys log r).1 (report clock (life sys log id r) m)
report-life sys log id r clock m = life-made sys log id r clock m _ refl
