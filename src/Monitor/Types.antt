-- ===== src/Monitor/Types.antt =====
-- The types of server/monitor_state.go. `time.Time` is a number, and the zero time is 0.
use chisel_uds.Prelude.{ℕ, Text, List}
use chisel_uds.Prelude.Dict.{Dict}

pub data SessionStatus : Type 0 where
  pending connected failed disconnected : SessionStatus

pub data EndpointStatus : Type 0 where
  pending active failed closed : EndpointStatus

pub record SessionSnapshot : Type 0 where
  pub session_id : Text
  pub remote_addr : Text
  pub status : SessionStatus
  pub error : Text
  pub started_at : ℕ
  pub connected_at : ℕ
  pub updated_at : ℕ

pub record EndpointSnapshot : Type 0 where
  pub session_id : Text
  pub descriptor : Text
  pub status : EndpointStatus
  pub last_error : Text
  pub updated_at : ℕ

pub record MonitorCounters : Type 0 where
  pub pending_sessions : ℕ
  pub connected_sessions : ℕ
  pub failed_sessions : ℕ
  pub disconnected_sessions : ℕ
  pub pending_endpoints : ℕ
  pub active_endpoints : ℕ
  pub failed_endpoints : ℕ
  pub closed_endpoints : ℕ

pub record MonitorSnapshot : Type 0 where
  pub sessions : List SessionSnapshot
  pub endpoints : List EndpointSnapshot
  pub counters : MonitorCounters

pub record MonitorState : Type 0 where
  pub sessions : Dict SessionSnapshot
  pub endpoints : Dict EndpointSnapshot
