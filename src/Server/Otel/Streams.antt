-- ===== src/Server/Otel/Streams.antt =====
-- What the publisher measures of streams, and what it keeps of them.
use chisel_uds.Prelude.{
  ℕ, Text, none, some, List, [], ◌∷◌, ◌≡◌, ◌≢◌, refl, arith, text_eq_iff, text_eq_refl, All, ◌∙◌,
  ap, sym, subst, Option-cases,
}
use chisel_uds.Prelude.Dict.{lookup, lookup-insert, lookup-remove}
use chisel_uds.Tunnel.Streams.{StreamState, StreamEvent}
use chisel_uds.Server.Otel.{
  OtelPublisher, stream_duration, on_stream_event, record_stream, stream_key, endpoint_mode,
}

-- events in order
pub on_stream_events : List StreamEvent → OtelPublisher → OtelPublisher
on_stream_events [] p = p
on_stream_events (ev ∷ rest) p = on_stream_events rest (on_stream_event ev p)

record_stream-other :
    (state : StreamState) (k key : Text) (ev : StreamEvent) (p : OtelPublisher)
    → k ≢ key
    → lookup key (record_stream state k ev p).stream_open_at ≡ lookup key p.stream_open_at
unfolding record_stream
record_stream-other StreamState.accepted k key ev p h = refl
record_stream-other StreamState.opened k key ev p h =
    ground (arith, lookup-insert k key ev.time p.stream_open_at, text_eq_iff k key)
record_stream-other StreamState.error k key ev p h = refl
record_stream-other StreamState.closed k key ev p h = ground (
  arith,
  lookup-remove k key p.stream_open_at,
  text_eq_iff k key,
  Option-cases (lookup k p.stream_open_at),
)

on_stream_events-other :
    (evs : List StreamEvent) (key : Text) (p : OtelPublisher)
    → All (λ ev. stream_key ev ≢ key) evs
    → lookup key (on_stream_events evs p).stream_open_at ≡ lookup key p.stream_open_at
unfolding on_stream_events on_stream_event
on_stream_events-other [] key p h = refl
on_stream_events-other (ev ∷ rest) key p h =
    on_stream_events-other rest key (on_stream_event ev p) h.1
    ∙ record_stream-other ev.state (stream_key ev) key ev p h.0

record_stream-opened :
    (state : StreamState) (key : Text) (ev : StreamEvent) (p : OtelPublisher)
    → state ≡ StreamState.opened
    → lookup key (record_stream state key ev p).stream_open_at ≡ some ev.time
unfolding record_stream
record_stream-opened StreamState.accepted key ev p h = absurd cc
record_stream-opened StreamState.opened key ev p h =
    ground (arith, lookup-insert key key ev.time p.stream_open_at, text_eq_refl key)
record_stream-opened StreamState.error key ev p h = absurd cc
record_stream-opened StreamState.closed key ev p h = absurd cc

record_stream-error :
    (state : StreamState) (key : Text) (ev : StreamEvent) (p : OtelPublisher)
    → state ≡ StreamState.error
    → (record_stream state key ev p).stream_open_at ≡ p.stream_open_at
unfolding record_stream
record_stream-error StreamState.accepted key ev p h = absurd cc
record_stream-error StreamState.opened key ev p h = absurd cc
record_stream-error StreamState.error key ev p h = refl
record_stream-error StreamState.closed key ev p h = absurd cc

-- What the close of a stream that was opened at `t0` leaves.
abbrev Measures : ℕ → Text → StreamEvent → OtelPublisher → OtelPublisher → Type 0
Measures t0 key ev p q =
    (q.measured ≡ stream_duration t0 ev.time (endpoint_mode ev.descriptor) ev.protocol ∷ p.measured)
    × (lookup key q.stream_open_at ≡ none)

record_stream-closed :
    (state : StreamState) (t0 : ℕ) (key : Text) (ev : StreamEvent) (p : OtelPublisher)
    → state ≡ StreamState.closed
    → lookup key p.stream_open_at ≡ some t0
    → Measures t0 key ev p (record_stream state key ev p)
unfolding record_stream
record_stream-closed StreamState.accepted t0 key ev p h o = absurd cc
record_stream-closed StreamState.opened t0 key ev p h o = absurd cc
record_stream-closed StreamState.error t0 key ev p h o = absurd cc
record_stream-closed StreamState.closed t0 key ev p h o =
    (ground arith, ground (arith, lookup-remove key key p.stream_open_at, text_eq_refl key))

opened_kept :
    (begin : StreamEvent) (others : List StreamEvent) (p : OtelPublisher)
    → begin.state ≡ StreamState.opened
    → All (λ ev. stream_key ev ≢ stream_key begin) others
    → lookup (stream_key begin) (on_stream_events others (on_stream_event begin p)).stream_open_at
      ≡ some begin.time
unfolding on_stream_event
opened_kept begin others p b h =
    on_stream_events-other others (stream_key begin) (on_stream_event begin p) h
    ∙ record_stream-opened begin.state (stream_key begin) begin p b

-- A stream that was opened, whatever other streams report meanwhile, is measured when it is closed, from
-- the time of the one event to that of the other; and the publisher then keeps nothing of it.
pub closed_measured :
    (begin end : StreamEvent) (others : List StreamEvent) (p : OtelPublisher)
    → begin.state ≡ StreamState.opened
    → end.state ≡ StreamState.closed
    → stream_key end ≡ stream_key begin
    → All (λ ev. stream_key ev ≢ stream_key begin) others
    → let before = on_stream_events others (on_stream_event begin p) in
      let after = on_stream_event end before in
      (after.measured
        ≡ stream_duration begin.time end.time (endpoint_mode end.descriptor) end.protocol
          ∷ before.measured)
      × (lookup (stream_key begin) after.stream_open_at ≡ none)
unfolding on_stream_event
closed_measured begin end others p b e k h =
    let o = opened_kept begin others p b h in
    subst
      (λ key.
        Measures begin.time (stream_key begin) end
          (on_stream_events others (on_stream_event begin p))
          (record_stream end.state key end (on_stream_events others (on_stream_event begin p))))
      (sym k) (record_stream-closed end.state begin.time (stream_key begin) end _ e o)

-- A stream that was opened and ends with an error is never forgotten: whatever other streams report
-- before and after, the publisher keeps its entry.
pub error_kept :
    (begin end : StreamEvent) (others later : List StreamEvent) (p : OtelPublisher)
    → begin.state ≡ StreamState.opened
    → end.state ≡ StreamState.error
    → All (λ ev. stream_key ev ≢ stream_key begin) others
    → All (λ ev. stream_key ev ≢ stream_key begin) later
    → let before = on_stream_events others (on_stream_event begin p) in
      let after = on_stream_events later (on_stream_event end before) in
      lookup (stream_key begin) after.stream_open_at ≡ some begin.time
unfolding on_stream_event
error_kept begin end others later p b e h l =
    let before = on_stream_events others (on_stream_event begin p) in
    on_stream_events-other later (stream_key begin) (on_stream_event end before) l
    ∙ ap (lookup (stream_key begin)) (record_stream-error end.state (stream_key end) end before e)
    ∙ opened_kept begin others p b h
