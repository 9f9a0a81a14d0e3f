-- ===== src/Monitor/Counters.antt =====
-- The counters of `monitorState.snapshot`.
use chisel_uds.Prelude.{
  ℕ, suc, ◌+◌, Bool, true, false, List, [], ◌∷◌, ◌≡◌, refl, inl, inr, arith, Bool-cases,
  if◌then◌else◌, length,
}
use chisel_uds.Prelude.Dict.{values}
use chisel_uds.Prelude.Sort.{insert_by, sort_by}
use chisel_uds.Monitor.{
  MonitorState, MonitorSnapshot, MonitorCounters, SessionSnapshot, EndpointSnapshot, SessionStatus,
  EndpointStatus, session_less, endpoint_less, snapshot, count_session, count_endpoint,
  count_sessions, count_endpoints, zero_counters,
}

-- how many sessions, or endpoints, have a status
abbrev pub has_session_status : SessionStatus → SessionSnapshot → Bool
has_session_status SessionStatus.pending s = elim s.status [
  | SessionStatus.pending ↦ true
  | _ ↦ false
]
has_session_status SessionStatus.connected s = elim s.status [
  | SessionStatus.connected ↦ true
  | _ ↦ false
]
has_session_status SessionStatus.failed s = elim s.status [
  | SessionStatus.failed ↦ true
  | _ ↦ false
]
has_session_status SessionStatus.disconnected s = elim s.status [
  | SessionStatus.disconnected ↦ true
  | _ ↦ false
]

abbrev pub has_endpoint_status : EndpointStatus → EndpointSnapshot → Bool
has_endpoint_status EndpointStatus.pending e = elim e.status [
  | EndpointStatus.pending ↦ true
  | _ ↦ false
]
has_endpoint_status EndpointStatus.active e = elim e.status [
  | EndpointStatus.active ↦ true
  | _ ↦ false
]
has_endpoint_status EndpointStatus.failed e = elim e.status [
  | EndpointStatus.failed ↦ true
  | _ ↦ false
]
has_endpoint_status EndpointStatus.closed e = elim e.status [
  | EndpointStatus.closed ↦ true
  | _ ↦ false
]

pub tally {ℓ} : {A : Type ℓ} → (A → Bool) → List A → ℕ
tally p [] = 0
tally p (x ∷ xs) = (if p x then 1 else 0) + tally p xs

module _ {ℓ} {A : Type ℓ} (p : A → Bool) (less : A → A → Bool) where
  tally-insert_by :
      (x : A) (xs : List A) → tally p (insert_by less x xs) ≡ (if p x then 1 else 0) + tally p xs
  unfolding insert_by tally
  tally-insert_by x [] = refl
  tally-insert_by x (y ∷ ys) = elim (Bool-cases (less x y)) [
    | inl e ↦ rw (e, insert_by)
    | inr e ↦ rw (e, insert_by) (omega (arith, tally-insert_by x ys))
  ]

  tally-sort_by : (xs : List A) → tally p (sort_by less xs) ≡ tally p xs
  unfolding sort_by tally
  tally-sort_by [] = refl
  tally-sort_by (x ∷ xs) = omega (arith, tally-insert_by x (sort_by less xs), tally-sort_by xs)

module _ {ℓ} {A : Type ℓ} (less : A → A → Bool) where
  length-insert_by : (x : A) (xs : List A) → length (insert_by less x xs) ≡ suc (length xs)
  unfolding insert_by
  length-insert_by x [] = refl
  length-insert_by x (y ∷ ys) = ground (arith, length-insert_by x ys)

  length-sort_by : (xs : List A) → length (sort_by less xs) ≡ length xs
  unfolding sort_by
  length-sort_by [] = refl
  length-sort_by (x ∷ xs) = omega (arith, length-insert_by x (sort_by less xs), length-sort_by xs)

-- The session counters of `d` are those of `c` and the sessions `xs`; the others are those of `c`.
record AddsSessions (xs : List SessionSnapshot) (c d : MonitorCounters) : Type 0 where
  pending :
      d.pending_sessions ≡ c.pending_sessions + tally (has_session_status SessionStatus.pending) xs
  connected :
      d.connected_sessions
      ≡ c.connected_sessions + tally (has_session_status SessionStatus.connected) xs
  failed :
      d.failed_sessions ≡ c.failed_sessions + tally (has_session_status SessionStatus.failed) xs
  disconnected :
      d.disconnected_sessions
      ≡ c.disconnected_sessions + tally (has_session_status SessionStatus.disconnected) xs
  other_pending : d.pending_endpoints ≡ c.pending_endpoints
  other_active : d.active_endpoints ≡ c.active_endpoints
  other_failed : d.failed_endpoints ≡ c.failed_endpoints
  other_closed : d.closed_endpoints ≡ c.closed_endpoints

count_sessions-AddsSessions :
    (xs : List SessionSnapshot) (c : MonitorCounters) → AddsSessions xs c (count_sessions xs c)
unfolding count_sessions tally
count_sessions-AddsSessions [] c = ground arith
count_sessions-AddsSessions (s ∷ xs) c =
    ground (arith, count_sessions-AddsSessions xs (count_session s.status c))

record AddsEndpoints (xs : List EndpointSnapshot) (c d : MonitorCounters) : Type 0 where
  pending :
      d.pending_endpoints
      ≡ c.pending_endpoints + tally (has_endpoint_status EndpointStatus.pending) xs
  active :
      d.active_endpoints ≡ c.active_endpoints + tally (has_endpoint_status EndpointStatus.active) xs
  failed :
      d.failed_endpoints ≡ c.failed_endpoints + tally (has_endpoint_status EndpointStatus.failed) xs
  closed :
      d.closed_endpoints ≡ c.closed_endpoints + tally (has_endpoint_status EndpointStatus.closed) xs
  other_pending : d.pending_sessions ≡ c.pending_sessions
  other_connected : d.connected_sessions ≡ c.connected_sessions
  other_failed : d.failed_sessions ≡ c.failed_sessions
  other_disconnected : d.disconnected_sessions ≡ c.disconnected_sessions

count_endpoints-AddsEndpoints :
    (xs : List EndpointSnapshot) (c : MonitorCounters) → AddsEndpoints xs c (count_endpoints xs c)
unfolding count_endpoints tally
count_endpoints-AddsEndpoints [] c = ground arith
count_endpoints-AddsEndpoints (e ∷ xs) c =
    ground (arith, count_endpoints-AddsEndpoints xs (count_endpoint e.status c))

tally_sessions_total :
    (xs : List SessionSnapshot)
    → tally (has_session_status SessionStatus.pending) xs
        + tally (has_session_status SessionStatus.connected) xs
        + tally (has_session_status SessionStatus.failed) xs
        + tally (has_session_status SessionStatus.disconnected) xs
      ≡ length xs
unfolding tally
tally_sessions_total [] = refl
tally_sessions_total (s ∷ xs) = ground (arith, tally_sessions_total xs)

tally_endpoints_total :
    (xs : List EndpointSnapshot)
    → tally (has_endpoint_status EndpointStatus.pending) xs
        + tally (has_endpoint_status EndpointStatus.active) xs
        + tally (has_endpoint_status EndpointStatus.failed) xs
        + tally (has_endpoint_status EndpointStatus.closed) xs
      ≡ length xs
unfolding tally
tally_endpoints_total [] = refl
tally_endpoints_total (s ∷ xs) = ground (arith, tally_endpoints_total xs)

-- The counters agree with the lists beside them.
pub record CountersAgree (s : MonitorSnapshot) : Type 0 where
  pub pending_sessions :
      s.counters.pending_sessions ≡ tally (has_session_status SessionStatus.pending) s.sessions
  pub connected_sessions :
      s.counters.connected_sessions ≡ tally (has_session_status SessionStatus.connected) s.sessions
  pub failed_sessions :
      s.counters.failed_sessions ≡ tally (has_session_status SessionStatus.failed) s.sessions
  pub disconnected_sessions :
      s.counters.disconnected_sessions
      ≡ tally (has_session_status SessionStatus.disconnected) s.sessions
  pub pending_endpoints :
      s.counters.pending_endpoints ≡ tally (has_endpoint_status EndpointStatus.pending) s.endpoints
  pub active_endpoints :
      s.counters.active_endpoints ≡ tally (has_endpoint_status EndpointStatus.active) s.endpoints
  pub failed_endpoints :
      s.counters.failed_endpoints ≡ tally (has_endpoint_status EndpointStatus.failed) s.endpoints
  pub closed_endpoints :
      s.counters.closed_endpoints ≡ tally (has_endpoint_status EndpointStatus.closed) s.endpoints

module _ (m : MonitorState) where
  sessions_counted :
      AddsSessions
        (values m.sessions)
        zero_counters
        (count_sessions (values m.sessions) zero_counters)
  sessions_counted = count_sessions-AddsSessions (values m.sessions) zero_counters

  endpoints_counted :
      AddsEndpoints
        (values m.endpoints)
        (count_sessions (values m.sessions) zero_counters)
        (snapshot m).counters
  unfolding snapshot
  endpoints_counted = count_endpoints-AddsEndpoints (values m.endpoints) _

  session_tally :
      (p : SessionSnapshot → Bool) → tally p (snapshot m).sessions ≡ tally p (values m.sessions)
  unfolding snapshot
  session_tally p = tally-sort_by p session_less (values m.sessions)

  endpoint_tally :
      (p : EndpointSnapshot → Bool) → tally p (snapshot m).endpoints ≡ tally p (values m.endpoints)
  unfolding snapshot
  endpoint_tally p = tally-sort_by p endpoint_less (values m.endpoints)

  -- Each counter of a snapshot is the number of listed sessions, or endpoints, with its status, and
  -- the counters of each kind add up to the length of the list.
  pub snapshot_counters :
      CountersAgree (snapshot m)
      × (let c = (snapshot m).counters in
          (c.pending_sessions + c.connected_sessions + c.failed_sessions + c.disconnected_sessions
            ≡ length (snapshot m).sessions)
          × (c.pending_endpoints + c.active_endpoints + c.failed_endpoints + c.closed_endpoints
              ≡ length (snapshot m).endpoints))
  snapshot_counters = (
    agree,
    (
      omega (
        arith,
        tally_sessions_total (snapshot m).sessions,
        agree.pending_sessions,
        agree.connected_sessions,
        agree.failed_sessions,
        agree.disconnected_sessions,
      ),
      omega (
        arith,
        tally_endpoints_total (snapshot m).endpoints,
        agree.pending_endpoints,
        agree.active_endpoints,
        agree.failed_endpoints,
        agree.closed_endpoints,
      ),
    ),
  )
    where
      agree : CountersAgree (snapshot m)
      agree = record {
        pending_sessions = omega (
          arith,
          sessions_counted,
          endpoints_counted,
          session_tally (has_session_status SessionStatus.pending),
        );
        connected_sessions = omega (
          arith,
          sessions_counted,
          endpoints_counted,
          session_tally (has_session_status SessionStatus.connected),
        );
        failed_sessions = omega (
          arith,
          sessions_counted,
          endpoints_counted,
          session_tally (has_session_status SessionStatus.failed),
        );
        disconnected_sessions = omega (
          arith,
          sessions_counted,
          endpoints_counted,
          session_tally (has_session_status SessionStatus.disconnected),
        );
        pending_endpoints = omega (
          arith,
          sessions_counted,
          endpoints_counted,
          endpoint_tally (has_endpoint_status EndpointStatus.pending),
        );
        active_endpoints = omega (
          arith,
          sessions_counted,
          endpoints_counted,
          endpoint_tally (has_endpoint_status EndpointStatus.active),
        );
        failed_endpoints = omega (
          arith,
          sessions_counted,
          endpoints_counted,
          endpoint_tally (has_endpoint_status EndpointStatus.failed),
        );
        closed_endpoints = omega (
          arith,
          sessions_counted,
          endpoints_counted,
          endpoint_tally (has_endpoint_status EndpointStatus.closed),
        );
      }
