-- ===== src/Monitor/Snapshot.antt =====
-- `monitorState.snapshot`: what it lists, in which order, and what it counts.
use mathlib.Core.List.{Perm}
use mathlib.Core.List.Perm
use chisel_uds.Prelude.{
  Text, Bool, true, false, none, [], ◌∷◌, ◌≡◌, ◌≢◌, inl, inr, arith, text_eq, text_eq_iff, text_lt,
  text_lt_irrefl, text_lt_trans, text_lt_total, Bool-cases, All,
}
use chisel_uds.Prelude.Dict.{Dict, Entries, IsMap, lookup, values}
use chisel_uds.Prelude.Sort.{
  sort_by-perm_self, sort_by-IsSortedBy, sort_by-Perm, IsSortedBy, Told, Apart,
}
use chisel_uds.Monitor.{
  MonitorState, SessionSnapshot, EndpointSnapshot, session_less, endpoint_less, snapshot,
  endpoint_key,
}
use chisel_uds.Monitor.Invariant.{IsWellFormed}

session_less_asym : (a b : SessionSnapshot) → session_less a b ≡ true → session_less b a ≡ false
unfolding session_less
session_less_asym a b h =
    ground
      (arith, text_lt_trans a.session_id b.session_id a.session_id, text_lt_irrefl a.session_id)

session_less_trans :
    (a b c : SessionSnapshot)
    → session_less a b ≡ true
    → session_less b c ≡ true
    → session_less a c ≡ true
unfolding session_less
session_less_trans a b c h k = text_lt_trans a.session_id b.session_id c.session_id h k

endpoint_less_asym : (a b : EndpointSnapshot) → endpoint_less a b ≡ true → endpoint_less b a ≡ false
unfolding endpoint_less
endpoint_less_asym a b h = ground (
  arith,
  text_eq_iff a.session_id b.session_id,
  text_eq_iff b.session_id a.session_id,
  text_lt_trans a.session_id b.session_id a.session_id,
  text_lt_irrefl a.session_id,
  text_lt_trans a.descriptor b.descriptor a.descriptor,
  text_lt_irrefl a.descriptor,
)

endpoint_less_trans :
    (a b c : EndpointSnapshot)
    → endpoint_less a b ≡ true
    → endpoint_less b c ≡ true
    → endpoint_less a c ≡ true
unfolding endpoint_less
endpoint_less_trans a b c h k = ground (
  arith,
  text_eq_iff a.session_id b.session_id,
  text_eq_iff b.session_id c.session_id,
  text_eq_iff a.session_id c.session_id,
  text_lt_trans a.session_id b.session_id c.session_id,
  text_lt_trans a.session_id b.session_id a.session_id,
  text_lt_irrefl a.session_id,
  text_lt_trans a.descriptor b.descriptor c.descriptor,
)

-- The snapshot lists every session and every endpoint of the maps exactly once, the sessions by
-- their identifiers and the endpoints by session and then descriptor.
pub snapshot_sorted :
    (m : MonitorState)
    → Perm (snapshot m).sessions (values m.sessions)
      × Perm (snapshot m).endpoints (values m.endpoints)
      × IsSortedBy session_less (snapshot m).sessions
      × IsSortedBy endpoint_less (snapshot m).endpoints
unfolding snapshot
snapshot_sorted m = (
  sort_by-perm_self session_less (values m.sessions),
  sort_by-perm_self endpoint_less (values m.endpoints),
  sort_by-IsSortedBy session_less session_less_asym (values m.sessions),
  sort_by-IsSortedBy endpoint_less endpoint_less_asym (values m.endpoints),
)

session_Told : (a b : SessionSnapshot) → a.session_id ≢ b.session_id → Told session_less a b
unfolding session_less
session_Told a b h = elim (Bool-cases (text_lt a.session_id b.session_id)) [
  | inl e ↦ inl e
  | inr e ↦ inr (text_lt_total a.session_id b.session_id h e)
]

endpoint_Told :
    (a b : EndpointSnapshot)
    → endpoint_key a.session_id a.descriptor ≢ endpoint_key b.session_id b.descriptor
    → Told endpoint_less a b
unfolding endpoint_less
endpoint_Told a b h = elim (Bool-cases (text_eq a.session_id b.session_id)) [
  | inl e ↦
      let same = (text_eq_iff a.session_id b.session_id).0 e in
      let differ : a.descriptor ≢ b.descriptor = λ d. h (rw (same, d)) in
      ground (
        arith,
        text_lt_total a.descriptor b.descriptor differ,
        text_eq_iff b.session_id a.session_id,
      )
  | inr e ↦ ground (
    arith,
    text_lt_total a.session_id b.session_id,
    text_eq_iff a.session_id b.session_id,
    text_eq_iff b.session_id a.session_id,
  )
]

-- The key of an absent entry differs from the keys of all entries.
absent_key {ℓ} :
    {V : Type ℓ} (k j : Text) (v : V) (m : Dict V) → lookup k ((j, v) ∷ m) ≡ none → k ≢ j
unfolding lookup
absent_key k j v m h = ground (arith, text_eq_iff j k)

absent_tail {ℓ} :
    {V : Type ℓ} (k j : Text) (v : V) (m : Dict V)
    → lookup k ((j, v) ∷ m) ≡ none
    → lookup k m ≡ none
unfolding lookup
absent_tail k j v m h = ground arith

module _ {V : Type 0} (less : V → V → Bool) (key : V → Text)
    (told : (a b : V) → key a ≢ key b → Told less a b) where
  absent_Told :
      (k : Text) (v : V) (m : Dict V)
      → key v ≡ k
      → lookup k m ≡ none
      → Entries (λ j w. key w ≡ j) m
      → All (Told less v) (values m)
  absent_Told k v [] e n es = tt
  absent_Told k v ((j, w) ∷ m) e n es = (
    told v w (rw (e, es.0) (absent_key k j w m n)),
    absent_Told k v m e (absent_tail k j w m n) es.1,
  )

  values-Apart : (m : Dict V) → IsMap m → Entries (λ j w. key w ≡ j) m → Apart less (values m)
  values-Apart [] h es = tt
  values-Apart ((k, v) ∷ m) h es = (absent_Told k v m es.0 h.0 es.1, values-Apart m h.1 es.1)

SessionSnapshot-set : IsSet SessionSnapshot
SessionSnapshot-set = hlevel

EndpointSnapshot-set : IsSet EndpointSnapshot
EndpointSnapshot-set = hlevel

-- The snapshot's lists do not depend on the order in which Go ranges over the maps.
pub snapshot_order :
    (m n : MonitorState)
    → IsWellFormed m
    → Perm m.sessions n.sessions
    → Perm m.endpoints n.endpoints
    → ((snapshot m).sessions ≡ (snapshot n).sessions)
      × ((snapshot m).endpoints ≡ (snapshot n).endpoints)
unfolding snapshot
snapshot_order m n w p q = (
  sort_by-Perm session_less session_less_trans session_less_asym SessionSnapshot-set
      (values m.sessions) (values n.sessions) (Perm.map _ p)
      (values-Apart session_less (λ s. s.session_id) session_Told m.sessions w.session_keys
        w.session_ids),
  sort_by-Perm endpoint_less endpoint_less_trans endpoint_less_asym EndpointSnapshot-set
      (values m.endpoints) (values n.endpoints) (Perm.map _ q)
      (values-Apart endpoint_less (λ e. endpoint_key e.session_id e.descriptor) endpoint_Told
        m.endpoints w.endpoint_keys w.endpoint_ids),
)
