-- ===== src/Monitor.antt =====
-- server/monitor_state.go: the sessions and endpoints that the server reports on.
-- `time.Time` is a number, the zero time is 0; `now` is what `time.Now()` returned. Each method runs
-- under the lock, so it is one step. The maps hold pointers that no other code keeps.
pub mod Counters
pub mod Invariant
pub mod Lifecycle
pub mod Snapshot
mod Examples
mod Types
pub use Types.*
use chisel_uds.Prelude.{
  ℕ, ◌+◌, Text, codes, Bool, true, false, ◌||◌, Option, none, some, List, [], ◌∷◌, ◌++◌, map, ◌==◌,
  text_eq, text_lt, if◌then◌else◌,
}
use chisel_uds.Prelude.Dict.{Dict, lookup, insert, values}
use chisel_uds.Prelude.Sort.{sort_by}

abbrev pub new_monitor_state : MonitorState
new_monitor_state = record { sessions = []; endpoints = [] }

abbrev pub zero_counters : MonitorCounters
zero_counters = record {
  pending_sessions = 0;
  connected_sessions = 0;
  failed_sessions = 0;
  disconnected_sessions = 0;
  pending_endpoints = 0;
  active_endpoints = 0;
  failed_endpoints = 0;
  closed_endpoints = 0;
}

-- the two switches of the loops in `snapshot`
pub count_session : SessionStatus → MonitorCounters → MonitorCounters
count_session pending c = record c { pending_sessions = c.pending_sessions + 1 }
count_session connected c = record c { connected_sessions = c.connected_sessions + 1 }
count_session failed c = record c { failed_sessions = c.failed_sessions + 1 }
count_session disconnected c = record c { disconnected_sessions = c.disconnected_sessions + 1 }

pub count_endpoint : EndpointStatus → MonitorCounters → MonitorCounters
count_endpoint pending c = record c { pending_endpoints = c.pending_endpoints + 1 }
count_endpoint active c = record c { active_endpoints = c.active_endpoints + 1 }
count_endpoint failed c = record c { failed_endpoints = c.failed_endpoints + 1 }
count_endpoint closed c = record c { closed_endpoints = c.closed_endpoints + 1 }

pub count_sessions : List SessionSnapshot → MonitorCounters → MonitorCounters
unfolding count_session
count_sessions [] c = c
count_sessions (s ∷ rest) c = count_sessions rest (count_session s.status c)

pub count_endpoints : List EndpointSnapshot → MonitorCounters → MonitorCounters
unfolding count_endpoint
count_endpoints [] c = c
count_endpoints (e ∷ rest) c = count_endpoints rest (count_endpoint e.status c)

-- the two `less` functions that `snapshot` sorts by
unfoldable pub session_less : SessionSnapshot → SessionSnapshot → Bool
session_less a b = text_lt a.session_id b.session_id

unfoldable pub endpoint_less : EndpointSnapshot → EndpointSnapshot → Bool
endpoint_less a b =
    if text_eq a.session_id b.session_id
    then text_lt a.descriptor b.descriptor
    else text_lt a.session_id b.session_id

-- The loops range over the maps in the order of the association lists.
unfoldable pub snapshot : MonitorState → MonitorSnapshot
unfolding count_sessions count_endpoints session_less endpoint_less
snapshot m = record {
  sessions = sort_by session_less (values m.sessions);
  endpoints = sort_by endpoint_less (values m.endpoints);
  counters =
      count_endpoints (values m.endpoints) (count_sessions (values m.sessions) zero_counters);
}

abbrev pub new_session : Text → SessionSnapshot
new_session id = record {
  session_id = id;
  remote_addr = [];
  status = SessionStatus.pending;
  error = [];
  started_at = 0;
  connected_at = 0;
  updated_at = 0;
}

-- s, ok := m.sessions[id]; if !ok { s = &SessionSnapshot{SessionID: id}; m.sessions[id] = s }
abbrev pub session_or_new : Text → MonitorState → SessionSnapshot
session_or_new id m = elim (lookup id m.sessions) [ none ↦ new_session id | some s ↦ s ]

-- if t.IsZero() { t = now }
abbrev pub or_now : ℕ → ℕ → ℕ
or_now t now = if t == 0 then now else t

abbrev put_session : Text → SessionSnapshot → MonitorState → MonitorState
put_session id s m = record m { sessions = insert id s m.sessions }

unfoldable pub mark_session_pending : ℕ → Text → Text → MonitorState → MonitorState
mark_session_pending now id remote_addr m =
    let s = session_or_new id m in
    put_session id
      (record s {
        remote_addr = remote_addr;
        status = SessionStatus.pending;
        error = [];
        started_at = or_now s.started_at now;
        updated_at = now;
      })
      m

unfoldable pub mark_session_connected : ℕ → Text → MonitorState → MonitorState
mark_session_connected now id m =
    let s = session_or_new id m in
    put_session id
      (record s {
        status = SessionStatus.connected;
        error = [];
        started_at = or_now s.started_at now;
        connected_at = or_now s.connected_at now;
        updated_at = now;
      })
      m

unfoldable pub mark_session_failed : ℕ → Text → Text → MonitorState → MonitorState
mark_session_failed now id message m =
    let s = session_or_new id m in
    put_session id
      (record s {
        status = SessionStatus.failed;
        error = message;
        started_at = or_now s.started_at now;
        updated_at = now;
      })
      m

-- e.Status == EndpointStatusActive || e.Status == EndpointStatusPending
abbrev pub is_open : EndpointStatus → Bool
is_open active = true
is_open pending = true
is_open failed = false
is_open closed = false

-- the body of the loop in `markSessionDisconnected`
pub close_endpoint : ℕ → Text → EndpointSnapshot → EndpointSnapshot
close_endpoint now id e =
    if text_eq e.session_id id
    then (if is_open e.status
        then record e { status = EndpointStatus.closed; updated_at = now }
        else e)
    else e

pub close_endpoints : ℕ → Text → Dict EndpointSnapshot → Dict EndpointSnapshot
unfolding close_endpoint
close_endpoints now id [] = []
close_endpoints now id ((k, e) ∷ rest) = (k, close_endpoint now id e) ∷ close_endpoints now id rest

unfoldable pub mark_session_disconnected : ℕ → Text → MonitorState → MonitorState
unfolding close_endpoints
mark_session_disconnected now id m =
    let s = session_or_new id m in
    record m {
      sessions =
          insert id (record s { status = SessionStatus.disconnected; updated_at = now }) m.sessions;
      endpoints = close_endpoints now id m.endpoints;
    }

-- sessionID + "|" + descriptor
abbrev pub endpoint_key : Text → Text → Text
endpoint_key id descriptor = id ++ b'|' ∷ descriptor

abbrev pub new_endpoint : Text → Text → EndpointSnapshot
new_endpoint id descriptor = record {
  session_id = id;
  descriptor = descriptor;
  status = EndpointStatus.pending;
  last_error = [];
  updated_at = 0;
}

abbrev pub endpoint_or_new : Text → Text → MonitorState → EndpointSnapshot
endpoint_or_new id descriptor m = elim (lookup (endpoint_key id descriptor) m.endpoints) [
  | none ↦ new_endpoint id descriptor
  | some e ↦ e
]

unfoldable pub update_endpoint :
    ℕ → Text → Text → EndpointStatus → Text → MonitorState → MonitorState
update_endpoint now id descriptor status last_error m =
    let e = endpoint_or_new id descriptor m in
    record m {
      endpoints =
          insert (endpoint_key id descriptor)
            (record e { status = status; last_error = last_error; updated_at = now }) m.endpoints;
    }

-- The calls that the handlers make, each with its `time.Now()`.
pub data Event : Type 0 where
  session_pending : Text → Text → Event
  session_connected : Text → Event
  session_failed : Text → Text → Event
  session_disconnected : Text → Event
  endpoint_changed : Text → Text → EndpointStatus → Text → Event

unfoldable pub apply : ℕ → Event → MonitorState → MonitorState
unfolding mark_session_pending mark_session_connected mark_session_failed mark_session_disconnected
    update_endpoint
apply now (session_pending id addr) = mark_session_pending now id addr
apply now (session_connected id) = mark_session_connected now id
apply now (session_failed id message) = mark_session_failed now id message
apply now (session_disconnected id) = mark_session_disconnected now id
apply now (endpoint_changed id descriptor status err) = update_endpoint now id descriptor status err

-- A history of calls, oldest first.
unfoldable pub run : List (ℕ × Event) → MonitorState → MonitorState
unfolding apply
run [] m = m
run ((now, e) ∷ rest) m = run rest (apply now e m)
