-- ===== src/Monitor/Lifecycle.antt =====
-- What the calls of `monitorState` do to one session and its endpoints.
use chisel_uds.Prelude.{
  ℕ, Text, true, false, Option, none, some, List, [], ◌∷◌, ◌≡◌, ◌≢◌, refl, subst, inl, inr, arith,
  text_eq, text_eq_iff, text_eq_refl, Bool-cases, ap, ◌∙◌,
}
use chisel_uds.Prelude.Dict.{Dict, Entries, lookup, insert, lookup-insert}
use mathlib.Core.Option
use chisel_uds.Monitor.{
  MonitorState, SessionSnapshot, EndpointSnapshot, SessionStatus, EndpointStatus, Event,
  session_pending, session_connected, session_failed, session_disconnected, endpoint_changed,
  session_or_new, close_endpoint, close_endpoints, apply, run, is_open, or_now,
  mark_session_disconnected,
}

lookup-close_endpoints :
    (now : ℕ) (id k : Text) (es : Dict EndpointSnapshot)
    → lookup k (close_endpoints now id es) ≡ Option.map (close_endpoint now id) (lookup k es)
unfolding lookup close_endpoints
lookup-close_endpoints now id k [] = refl
lookup-close_endpoints now id k ((j, e) ∷ es) = ground (arith, lookup-close_endpoints now id k es)

close_endpoints_closed :
    (now : ℕ) (id : Text) (es : Dict EndpointSnapshot)
    → Entries
        (λ _ (e : EndpointSnapshot). e.session_id ≡ id → is_open e.status ≡ false)
        (close_endpoints now id es)
unfolding close_endpoints
close_endpoints_closed now id [] = tt
close_endpoints_closed now id ((j, e) ∷ es) =
    (λ h. ground (arith, text_eq_iff e.session_id id), close_endpoints_closed now id es)

-- What a disconnection leaves of an endpoint: one of the session that was pending or active is
-- closed at that time and keeps its last error; every other endpoint is as before.
pub record Disconnected (now : ℕ) (id : Text) (e f : EndpointSnapshot) : Type 0 where
  pub closes :
      e.session_id ≡ id
      → is_open e.status ≡ true
      → f ≡ record e { status = EndpointStatus.closed; updated_at = now }
  pub other_session : e.session_id ≢ id → f ≡ e
  pub not_open : is_open e.status ≡ false → f ≡ e

close_endpoint-Disconnected :
    (now : ℕ) (id : Text) (e : EndpointSnapshot) → Disconnected now id e (close_endpoint now id e)
unfolding close_endpoint
close_endpoint-Disconnected now id e = record {
  closes = λ h k. ground (arith, text_eq_iff e.session_id id);
  other_session = λ h. ground (arith, text_eq_iff e.session_id id);
  not_open = λ k. ground arith;
}

-- After `markSessionDisconnected` no endpoint of the session is pending or active; the endpoints
-- have the keys that they had, each is changed only as `Disconnected` says, and the session itself
-- is reported as disconnected.
pub disconnected_closes_endpoints :
    (now : ℕ) (id : Text) (m : MonitorState)
    → let m' = mark_session_disconnected now id m in
      Entries
        (λ _ (e : EndpointSnapshot). e.session_id ≡ id → is_open e.status ≡ false)
        m'.endpoints
      × ((k : Text) → lookup k m.endpoints ≡ none → lookup k m'.endpoints ≡ none)
      × ((k : Text) (e : EndpointSnapshot)
          → lookup k m.endpoints ≡ some e
          → (f : EndpointSnapshot) × (lookup k m'.endpoints ≡ some f) × Disconnected now id e f)
      × (lookup id m'.sessions
          ≡ some (record (session_or_new id m) {
            status = SessionStatus.disconnected;
            updated_at = now;
          }))
unfolding mark_session_disconnected
disconnected_closes_endpoints now id m = (
  close_endpoints_closed now id m.endpoints,
  λ k h. rw (lookup-close_endpoints now id k m.endpoints, h),
  λ k e h. (
    close_endpoint now id e,
    rw (lookup-close_endpoints now id k m.endpoints, h),
    close_endpoint-Disconnected now id e,
  ),
  rw (lookup-insert, text_eq_refl id),
)

-- the session that a call is about, if any
abbrev pub about_session : Event → Option Text
about_session (session_pending id _) = some id
about_session (session_connected id) = some id
about_session (session_failed id _) = some id
about_session (session_disconnected id) = some id
about_session (endpoint_changed _ _ _ _) = none

not-text_eq : (a b : Text) → a ≢ b → text_eq a b ≡ false
not-text_eq a b h = ground (arith, text_eq_iff a b)

-- A call about one session leaves every other session as it was; one about an endpoint leaves all
-- sessions.
pub lookup-apply_ne :
    (now : ℕ) (e : Event) (m : MonitorState) (j : Text)
    → about_session e ≢ some j
    → lookup j (apply now e m).sessions ≡ lookup j m.sessions
unfolding apply
lookup-apply_ne now (session_pending id addr) m j h =
    rw (lookup-insert, not-text_eq id j (λ e. h (ap some e)))
lookup-apply_ne now (session_connected id) m j h =
    rw (lookup-insert, not-text_eq id j (λ e. h (ap some e)))
lookup-apply_ne now (session_failed id message) m j h =
    rw (lookup-insert, not-text_eq id j (λ e. h (ap some e)))
lookup-apply_ne now (session_disconnected id) m j h =
    rw (lookup-insert, not-text_eq id j (λ e. h (ap some e)))
lookup-apply_ne now (endpoint_changed id d status err) m j h = refl

-- `t` continues `s`: it is the same session, and what was stamped stays stamped.
pub record Continues (s t : SessionSnapshot) : Type 0 where
  pub same_id : t.session_id ≡ s.session_id
  pub start_kept : s.started_at ≢ 0 → t.started_at ≡ s.started_at
  pub connect_kept : s.connected_at ≢ 0 → t.connected_at ≡ s.connected_at

Continues-refl : (s : SessionSnapshot) → Continues s s
Continues-refl s = record { same_id = refl; start_kept = λ h. refl; connect_kept = λ h. refl }

Continues-trans : (s t u : SessionSnapshot) → Continues s t → Continues t u → Continues s u
Continues-trans s t u c d = record {
  same_id = d.same_id ∙ c.same_id;
  start_kept = λ h. d.start_kept (λ e. h (rw (← c.start_kept h) e)) ∙ c.start_kept h;
  connect_kept = λ h. d.connect_kept (λ e. h (rw (← c.connect_kept h) e)) ∙ c.connect_kept h;
}

put_session-Continues :
    (m : MonitorState) (id j : Text) (s t : SessionSnapshot)
    → lookup id m.sessions ≡ some s
    → Continues (session_or_new j m) t
    → (u : SessionSnapshot) × (lookup id (insert j t m.sessions) ≡ some u) × Continues s u
put_session-Continues m id j s t h c = elim (Bool-cases (text_eq j id)) [
  | inl e ↦ (
    t,
    rw (lookup-insert, e),
    subst (λ x. Continues x t) (rw ((text_eq_iff j id).0 e, h, session_or_new)) c,
  )
  | inr e ↦ (s, rw (lookup-insert, e) h, Continues-refl s)
]

or_now_kept : (t now : ℕ) → t ≢ 0 → or_now t now ≡ t
or_now_kept t now h = ground arith

apply-Continues :
    (now : ℕ) (e : Event) (m : MonitorState) (id : Text) (s : SessionSnapshot)
    → lookup id m.sessions ≡ some s
    → (t : SessionSnapshot) × (lookup id (apply now e m).sessions ≡ some t) × Continues s t
unfolding apply
apply-Continues now (session_pending j addr) m id s h =
    put_session-Continues m id j s _ h
      (record { same_id = refl; start_kept = or_now_kept _ now; connect_kept = λ _. refl })
apply-Continues now (session_connected j) m id s h =
    put_session-Continues m id j s _ h
      (record { same_id = refl; start_kept = or_now_kept _ now; connect_kept = or_now_kept _ now })
apply-Continues now (session_failed j message) m id s h =
    put_session-Continues m id j s _ h
      (record { same_id = refl; start_kept = or_now_kept _ now; connect_kept = λ _. refl })
apply-Continues now (session_disconnected j) m id s h =
    put_session-Continues m id j s _ h
      (record { same_id = refl; start_kept = λ _. refl; connect_kept = λ _. refl })
apply-Continues now (endpoint_changed j d status err) m id s h = (s, h, Continues-refl s)

-- A session that is known stays known through any further calls, under its identifier, and its start
-- and connection times, once stamped, never change.
pub run-Continues :
    (es : List (ℕ × Event)) (m : MonitorState) (id : Text) (s : SessionSnapshot)
    → lookup id m.sessions ≡ some s
    → (t : SessionSnapshot) × (lookup id (run es m).sessions ≡ some t) × Continues s t
unfolding run
run-Continues [] m id s h = (s, h, Continues-refl s)
run-Continues ((now, e) ∷ es) m id s h =
    let (t, k, c) = apply-Continues now e m id s h in
    let (u, l, d) = run-Continues es (apply now e m) id t k in (u, l, Continues-trans s t u c d)
