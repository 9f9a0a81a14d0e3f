-- ===== src/Monitor/Examples.antt =====
-- The theorems about the monitor at concrete histories.
use mathlib.Core.List.{Perm}
use mathlib.Core.List.Perm
use chisel_uds.Prelude.{ℕ, codes, [], ◌∷◌, List, ◌≡◌, ◌≢◌, refl, some, text_eq, arith}
use chisel_uds.Prelude.Dict.{lookup, insert}
use chisel_uds.Monitor.{
  MonitorState, SessionSnapshot, SessionStatus, EndpointStatus, Event, session_pending,
  session_connected, session_failed, endpoint_changed, new_monitor_state, run, snapshot,
  mark_session_disconnected, session_or_new,
}
use chisel_uds.Monitor.Invariant.{IsWellFormed, run-IsWellFormed, new_monitor_state-IsWellFormed}
use chisel_uds.Monitor.Lifecycle.{disconnected_closes_endpoints, about_session}
use chisel_uds.Monitor.Snapshot.{snapshot_order}

abbrev history : List (ℕ × Event)
history =
    (10, session_pending (codes "1") (codes "10.0.0.1:999"))
    ∷ (20, session_connected (codes "1"))
    ∷ (21, endpoint_changed (codes "1") (codes "0.0.0.0:80") EndpointStatus.active [])
    ∷ (22, session_pending (codes "2") (codes "10.0.0.2:999"))
    ∷ []

abbrev after_history : MonitorState
after_history = run history new_monitor_state

after_history-IsWellFormed : IsWellFormed after_history
after_history-IsWellFormed =
    run-IsWellFormed history new_monitor_state new_monitor_state-IsWellFormed

run-IsWellFormed_example : IsWellFormed (run history new_monitor_state)
run-IsWellFormed_example = run-IsWellFormed history new_monitor_state new_monitor_state-IsWellFormed

abbrev first_session : SessionSnapshot
first_session = record {
  session_id = codes "1";
  remote_addr = codes "10.0.0.1:999";
  status = SessionStatus.connected;
  error = [];
  started_at = 10;
  connected_at = 20;
  updated_at = 20;
}

first_session_found : lookup (codes "1") after_history.sessions ≡ some first_session
unfolding run lookup insert text_eq
first_session_found = refl

disconnected_closes_endpoints_example :
    lookup (codes "1") (mark_session_disconnected 30 (codes "1") after_history).sessions
    ≡ some (record (session_or_new (codes "1") after_history) {
      status = SessionStatus.disconnected;
      updated_at = 30;
    })
disconnected_closes_endpoints_example =
    (disconnected_closes_endpoints 30 (codes "1") after_history).3

one_is_not_two : about_session (session_failed (codes "2") (codes "EOF")) ≢ some (codes "1")
one_is_not_two e = ground arith

abbrev other_order : List (ℕ × Event)
other_order =
    (22, session_pending (codes "2") (codes "10.0.0.2:999"))
    ∷ (10, session_pending (codes "1") (codes "10.0.0.1:999"))
    ∷ (20, session_connected (codes "1"))
    ∷ (21, endpoint_changed (codes "1") (codes "0.0.0.0:80") EndpointStatus.active [])
    ∷ []

orders_differ : Perm after_history.sessions (run other_order new_monitor_state).sessions
unfolding run lookup insert text_eq
orders_differ = Perm.swap _ _ []

snapshot_order_example :
    ((snapshot after_history).sessions ≡ (snapshot (run other_order new_monitor_state)).sessions)
    × ((snapshot after_history).endpoints
        ≡ (snapshot (run other_order new_monitor_state)).endpoints)
unfolding run lookup insert text_eq
snapshot_order_example =
    snapshot_order after_history (run other_order new_monitor_state) after_history-IsWellFormed
      orders_differ (Perm.refl _)
