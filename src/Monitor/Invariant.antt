-- ===== src/Monitor/Invariant.antt =====
-- The maps of `monitorState` are indexed by what their entries say of themselves.
use chisel_uds.Prelude.{ℕ, Text, none, List, [], ◌∷◌, ◌≡◌, refl, inl, inr, arith, Option-cases}
use chisel_uds.Prelude.Dict.{
  Dict, IsMap, Entries, lookup, insert, insert-IsMap, insert-Entries, Entries-lookup,
}
use chisel_uds.Monitor.{
  MonitorState, SessionSnapshot, EndpointSnapshot, Event, session_pending, session_connected,
  session_failed, session_disconnected, endpoint_changed, session_or_new, endpoint_or_new,
  endpoint_key, close_endpoint, close_endpoints, apply, run, new_monitor_state,
}

pub record IsWellFormed (m : MonitorState) : Type 0 where
  pub session_keys : IsMap m.sessions
  pub endpoint_keys : IsMap m.endpoints
  pub session_ids : Entries (λ k (s : SessionSnapshot). s.session_id ≡ k) m.sessions
  pub endpoint_ids :
      Entries (λ k (e : EndpointSnapshot). endpoint_key e.session_id e.descriptor ≡ k) m.endpoints

session_id-session_or_new :
    (id : Text) (m : MonitorState) → IsWellFormed m → (session_or_new id m).session_id ≡ id
session_id-session_or_new id m w = elim (Option-cases (lookup id m.sessions)) [
  | inl e ↦ rw (e, session_or_new)
  | inr (s, e) ↦ rw (e, session_or_new) (Entries-lookup _ id s m.sessions w.session_ids e)
]

key-endpoint_or_new :
    (id d : Text) (m : MonitorState)
    → IsWellFormed m
    → (let e = endpoint_or_new id d m in endpoint_key e.session_id e.descriptor ≡ endpoint_key id d)
key-endpoint_or_new id d m w = elim (Option-cases (lookup (endpoint_key id d) m.endpoints)) [
  | inl e ↦ rw (e, endpoint_or_new)
  | inr (s, e) ↦
      rw (e, endpoint_or_new)
        (Entries-lookup (λ k (x : EndpointSnapshot). endpoint_key x.session_id x.descriptor ≡ k)
          (endpoint_key id d) s m.endpoints w.endpoint_ids e)
]

lookup-close_endpoints-none :
    (now : ℕ) (id k : Text) (es : Dict EndpointSnapshot)
    → lookup k es ≡ none
    → lookup k (close_endpoints now id es) ≡ none
unfolding lookup close_endpoints
lookup-close_endpoints-none now id k [] h = refl
lookup-close_endpoints-none now id k ((j, e) ∷ es) h =
    ground (arith, lookup-close_endpoints-none now id k es)

close_endpoints-IsMap :
    (now : ℕ) (id : Text) (es : Dict EndpointSnapshot)
    → IsMap es
    → IsMap (close_endpoints now id es)
unfolding close_endpoints
close_endpoints-IsMap now id [] h = tt
close_endpoints-IsMap now id ((j, e) ∷ es) h =
    (lookup-close_endpoints-none now id j es h.0, close_endpoints-IsMap now id es h.1)

key-close_endpoint :
    (now : ℕ) (id : Text) (e : EndpointSnapshot)
    → endpoint_key (close_endpoint now id e).session_id (close_endpoint now id e).descriptor
      ≡ endpoint_key e.session_id e.descriptor
unfolding close_endpoint
key-close_endpoint now id e = ground arith

close_endpoints-Entries :
    (now : ℕ) (id : Text) (es : Dict EndpointSnapshot)
    → Entries (λ k (e : EndpointSnapshot). endpoint_key e.session_id e.descriptor ≡ k) es
    → Entries
        (λ k (e : EndpointSnapshot). endpoint_key e.session_id e.descriptor ≡ k)
        (close_endpoints now id es)
unfolding close_endpoints
close_endpoints-Entries now id [] h = tt
close_endpoints-Entries now id ((j, e) ∷ es) h =
    (rw (key-close_endpoint now id e) h.0, close_endpoints-Entries now id es h.1)

put_session-IsWellFormed :
    (m : MonitorState) (id : Text) (s : SessionSnapshot)
    → s.session_id ≡ id
    → IsWellFormed m
    → IsWellFormed (record m { sessions = insert id s m.sessions })
put_session-IsWellFormed m id s e w = record {
  session_keys = insert-IsMap id s m.sessions w.session_keys;
  endpoint_keys = w.endpoint_keys;
  session_ids = insert-Entries _ id s m.sessions e w.session_ids;
  endpoint_ids = w.endpoint_ids;
}

apply-IsWellFormed :
    (now : ℕ) (e : Event) (m : MonitorState) → IsWellFormed m → IsWellFormed (apply now e m)
unfolding apply
apply-IsWellFormed now (session_pending id addr) m w =
    put_session-IsWellFormed m id _ (session_id-session_or_new id m w) w
apply-IsWellFormed now (session_connected id) m w =
    put_session-IsWellFormed m id _ (session_id-session_or_new id m w) w
apply-IsWellFormed now (session_failed id message) m w =
    put_session-IsWellFormed m id _ (session_id-session_or_new id m w) w
apply-IsWellFormed now (session_disconnected id) m w = record {
  session_keys = insert-IsMap id _ m.sessions w.session_keys;
  endpoint_keys = close_endpoints-IsMap now id m.endpoints w.endpoint_keys;
  session_ids = insert-Entries _ id _ m.sessions (session_id-session_or_new id m w) w.session_ids;
  endpoint_ids = close_endpoints-Entries now id m.endpoints w.endpoint_ids;
}
apply-IsWellFormed now (endpoint_changed id d status err) m w = record {
  session_keys = w.session_keys;
  endpoint_keys = insert-IsMap (endpoint_key id d) _ m.endpoints w.endpoint_keys;
  session_ids = w.session_ids;
  endpoint_ids =
      insert-Entries _ (endpoint_key id d) _ m.endpoints (key-endpoint_or_new id d m w)
        w.endpoint_ids;
}

-- A history of calls, from any state in which every entry stands under its own key and no key stands
-- twice, leads to such a state.
pub run-IsWellFormed :
    (es : List (ℕ × Event)) (m : MonitorState) → IsWellFormed m → IsWellFormed (run es m)
unfolding run
run-IsWellFormed [] m w = w
run-IsWellFormed ((now, e) ∷ es) m w =
    run-IsWellFormed es (apply now e m) (apply-IsWellFormed now e m w)

pub new_monitor_state-IsWellFormed : IsWellFormed new_monitor_state
new_monitor_state-IsWellFormed = record {
  session_keys = tt;
  endpoint_keys = tt;
  session_ids = tt;
  endpoint_ids = tt;
}
