-- ===== src/Server.antt =====
-- server/server.go and server/server_handler.go: authentication and the handshake of one client.
-- The HTTP upgrade, the SSH handshake and the client's request are given as what they came to. The
-- tracing calls of the handler are not modelled.
pub mod Admission
pub mod Checks
pub mod Handshake
pub mod Endpoints
pub mod Otel
pub mod Listener
pub mod Lifecycle
pub mod Logins
pub mod Session
pub mod Setup
mod Examples
use chisel_uds.Prelude.{
  ℕ, zero, suc, ◌+◌, ◌-◌, ◌/◌, ◌%◌, ◌^◌, Text, codes, Bool, true, false, not, ◌&&◌, ◌||◌, Option,
  none, some, List, [], ◌∷◌, ◌++◌, ◌==◌, ltb, text_eq, if◌then◌else◌,
}
use chisel_uds.Prelude.Dict.{Dict, lookup, insert, remove}
use chisel_uds.Monitor.{
  MonitorState, mark_session_pending, mark_session_connected, mark_session_failed,
  mark_session_disconnected,
}
use chisel_uds.Settings.Users.{Regexp, User, Users, len, get, set, del, has_access}
use chisel_uds.Settings.Remote.Types.{Remote}
use chisel_uds.Settings.Remote.Print.{Host, can_listen, user_addr, to_string}

-- strconv.Itoa of a number that is not negative. A number has fewer digits than its value and one.
abbrev digits_of : ℕ → ℕ → Text
digits_of zero n = []
digits_of (suc f) n =
    let more = digits_of f (n / 10) in
    if ltb n 10 then (b'0' + n) ∷ [] else more ++ (b'0' + n % 10) ∷ []

-- strconv.Itoa(int(id)) for an int32 that is stored as a number below 2^32
unfoldable pub itoa : ℕ → Text
itoa id =
    if ltb id (2 ^ 31)
    then digits_of (suc id) id
    else b'-' ∷ digits_of (suc (2 ^ 32 - id)) (2 ^ 32 - id)

-- A request on the SSH connection: its type, and its payload as `DecodeConfig` reads it. A remote is
-- a pointer there, so it can be nil.
pub record Request : Type 0 where
  pub kind : Text
  pub config : Option (List (Option Remote))

-- What the select for the client's request comes to: a request, the timeout, or the nil request that the
-- channel gives once the SSH connection has ended
pub data Arrival : Type 0 where
  arrives : Request → Arrival
  times_out : Arrival
  channel_closed : Arrival

-- How the handler of one client ended before its tunnel, or that the tunnel runs.
pub data Outcome : Type 0 where
  upgrade_failed : Text → Outcome
  handshake_failed : Text → Outcome
  timed_out : Outcome
  rejected : Text → Outcome
  -- a panic, which the HTTP server recovers
  crashed : Outcome
  serving : List Remote → Outcome

-- The result of the loop over the remotes.
pub data Verdict : Type 0 where
  valid : List Remote → Verdict
  denied : Text → Verdict
  nil_remote : Verdict

module _ (regexp : Regexp) where
  -- The fields of `Server` that the handler and the callback use.
  pub record ServerState : Type 0 where
    pub users : Users regexp
    pub sessions : Users regexp
    pub monitor : MonitorState
    pub sess_count : ℕ

  -- The state after the callback, and whether it accepts.
  unfoldable pub auth_user : Text → Text → Text → ServerState → ServerState × Bool
  auth_user session_id name password s =
      if len regexp s.users == 0 then (s, true) else (elim (get regexp name s.users) [
        | none ↦ (s, false)
        | some user ↦
            if text_eq user.pass password
            then (record s { sessions = set regexp session_id user s.sessions }, true)
            else (s, false)
      ])

  -- user != nil && !user.HasAccess(addr)
  abbrev pub lacks_access : Option (User regexp) → Text → Bool
  lacks_access none addr = false
  lacks_access (some user) addr = not (has_access regexp user addr)

  -- the body of the loop over the remotes; `none` is no objection
  unfoldable pub objection : Option (User regexp) → Bool → Host → Remote → Option Text
  objection user reverse host r =
      if lacks_access user (user_addr r)
      then some (codes "server: access to '" ++ user_addr r ++ codes "' denied")
      else if r.reverse && not reverse
      then some (codes "server: Reverse port forwaring not enabled on server")
      else if r.reverse && not (can_listen host r)
      then some (codes "server: Server cannot listen on " ++ to_string r)
      else none

  abbrev cons_remote : Remote → Verdict → Verdict
  cons_remote r (valid rs) = valid (r ∷ rs)
  cons_remote r (denied e) = denied e
  cons_remote r nil_remote = nil_remote

  unfoldable pub validate : Option (User regexp) → Bool → Host → List (Option Remote) → Verdict
  unfolding objection
  validate user reverse host [] = valid []
  validate user reverse host (none ∷ rest) = nil_remote
  validate user reverse host (some r ∷ rest) =
      let more = validate user reverse host rest in
      elim (objection user reverse host r) [ some e ↦ denied e | none ↦ cons_remote r more ]

  abbrev pub fail : ℕ → Text → Text → ServerState → ServerState
  fail now id message s = record s { monitor = mark_session_failed now id message s.monitor }

  -- id := atomic.AddInt32(&s.sessCount, 1); s.markSessionPending(...)
  unfoldable pub begin_session : ℕ → Text → ServerState → ServerState × Text
  unfolding itoa
  begin_session now remote_addr s =
      let count = (s.sess_count + 1) % 2 ^ 32 in
      let id = itoa count in
      (
        record s {
          sess_count = count;
          monitor = mark_session_pending now id remote_addr s.monitor;
        },
        id,
      )

  -- The user of the connection: `none` is the panic of the handler. The entry of the session map is
  -- used up.
  unfoldable pub pull_user : Text → ServerState → ServerState × Option (Option (User regexp))
  pull_user sid s =
      if len regexp s.users == 0 then (s, some none) else (elim (get regexp sid s.sessions) [
        | none ↦ (s, none)
        | some u ↦ (record s { sessions = del regexp sid s.sessions }, some (some u))
      ])

  -- the checks of the configuration request, for the user that was pulled
  unfoldable pub check_request :
      ℕ → Text → Bool → Host → Arrival → Option (User regexp) → ServerState → ServerState × Outcome
  unfolding validate
  check_request now id reverse host times_out user s =
      (fail now id (codes "Timeout waiting for configuration") s, timed_out)
  -- r.Type of a nil request panics.
  check_request now id reverse host channel_closed user s = (s, crashed)
  check_request now id reverse host (arrives r) user s =
      if not (text_eq r.kind (codes "config"))
      then (let e = codes "server: expecting config request" in (fail now id e s, rejected e))
      else (elim r.config [
        | none ↦ (let e = codes "server: invalid config" in (fail now id e s, rejected e))
        | some remotes ↦ (elim (validate user reverse host remotes) [
          | denied e ↦ (fail now id e s, rejected e)
          | nil_remote ↦ (s, crashed)
          | valid rs ↦ (record s { monitor = mark_session_connected now id s.monitor }, serving rs)
        ])
      ])

  -- the handler behind the SSH handshake
  unfoldable pub after_handshake :
      ℕ → Text → Text → Bool → Host → Arrival → ServerState → ServerState × Outcome
  unfolding pull_user check_request
  after_handshake now id sid reverse host request s =
      let (s', pulled) = pull_user sid s in
      elim pulled [
        | none ↦ (s', crashed)
        | some user ↦ check_request now id reverse host request user s'
      ]

  -- What the outside does to one connection. The handshake calls `auth_user`, any number of times,
  -- and other connections go on meanwhile; it ends with an error or with a session identifier.
  pub record Connection : Type 0 where
    pub remote_addr : Text
    pub started : ℕ
    pub decided : ℕ
    pub upgrade_error : Option Text
    pub handshake : ServerState → ServerState
    pub handshake_error : Option Text
    pub ssh_session_id : Text
    pub request : Arrival

  -- `handleWebsocket` up to the tunnel
  unfoldable pub handle_websocket : Bool → Host → Connection → ServerState → ServerState × Outcome
  unfolding begin_session after_handshake
  handle_websocket reverse host c s =
      let (s1, id) = begin_session c.started c.remote_addr s in
      elim c.upgrade_error [
        | some e ↦ (fail c.decided id e s1, upgrade_failed e)
        | none ↦
            (let s2 = c.handshake s1 in
              elim c.handshake_error [
                | some e ↦ (fail c.decided id e s2, handshake_failed e)
                | none ↦ after_handshake c.decided id c.ssh_session_id reverse host c.request s2
              ])
      ]

  -- the last call of the handler, when the tunnel is closed
  unfoldable pub end_session : ℕ → Text → ServerState → ServerState
  end_session now id s = record s { monitor = mark_session_disconnected now id s.monitor }
