-- ===== src/Tunnel/Streams.antt =====
-- The connections of one proxy, share/tunnel/tunnel_in_proxy.go: the loops of `runTCP` and `runUnix`
-- start a goroutine `pipeRemote` for each connection; these run interleaved.
pub mod Events
use chisel_uds.Prelude.{
  ℕ, zero, suc, ◌+◌, Text, codes, Bool, true, false, Option, none, some, List, [], ◌∷◌, ◌++◌, ◌==◌,
  text_eq, if◌then◌else◌, ◌≡◌,
}
use chisel_uds.Settings.Remote.Types.{Remote}
use chisel_uds.Settings.Remote.Print.{to_string}

-- StreamState
pub data StreamState : Type 0 where
  accepted opened error closed : StreamState

pub record StreamEvent : Type 0 where
  pub session_id : Text
  pub descriptor : Text
  pub protocol : Text
  pub conn_id : ℕ
  pub state : StreamState
  pub error : Text
  pub time : ℕ

-- The proxy's `count`, the goroutines that have no number yet, those that have one and have not
-- reported it, those that are open, and what was reported, the newest first.
pub record Streams : Type 0 where
  pub count : ℕ
  pub waiting : ℕ
  pub numbered : List ℕ
  pub running : List ℕ
  pub events : List StreamEvent

abbrev pub no_streams : Streams
no_streams = record { count = 0; waiting = 0; numbered = []; running = []; events = [] }

-- What happens next, and when.
pub data Action : Type 0 where
  -- Accept returns a connection: its event is reported, and its goroutine starts
  accept : Action
  -- p.count++; cid := p.count, under the lock
  start : Action
  report_open : ℕ → Action
  -- openRemoteStream fails for the connection
  fail : ℕ → Text → Action
  -- cio.Pipe returns
  finish : ℕ → Action

unfoldable pub take_out : ℕ → List ℕ → Option (List ℕ)
take_out cid [] = none
take_out cid (c ∷ rest) =
    let more = take_out cid rest in
    if c == cid then some rest else (elim more [ none ↦ none | some others ↦ some (c ∷ others) ])

-- emitStreamEvent, with a callback set
abbrev pub stream_event : Text → Remote → ℕ → StreamState → ℕ → Text → Text → StreamEvent
stream_event session_id r now state cid message protocol = record {
  session_id = session_id;
  descriptor = to_string r;
  protocol = if text_eq protocol [] then codes "tcp" else protocol;
  conn_id = cid;
  state = state;
  error = message;
  time = now;
}

-- The protocol of the accept event: `runUnix` says "unix", `runTCP` the remote's own.
module _ (session_id : Text) (r : Remote) (accept_protocol : Text) where
  abbrev emit : ℕ → StreamState → ℕ → Text → Text → Streams → Streams
  emit now state cid message protocol s = record s {
    events = stream_event session_id r now state cid message protocol ∷ s.events;
  }

  -- `none`: the action cannot happen in the state.
  unfoldable pub step : ℕ → Action → Streams → Option Streams
  unfolding take_out
  step now accept s =
      some
        (emit now accepted (s.count + 1) [] accept_protocol (record s { waiting = suc s.waiting }))
  step now start s = elim s.waiting [
    | zero ↦ none
    | suc w ↦
        some (record s { waiting = w; count = s.count + 1; numbered = (s.count + 1) ∷ s.numbered })
  ]
  step now (report_open cid) s = elim (take_out cid s.numbered) [
    | none ↦ none
    | some others ↦ some (
        emit now opened cid [] r.local_proto
          (record s { numbered = others; running = cid ∷ s.running }))
  ]
  step now (fail cid message) s = elim (take_out cid s.running) [
    | none ↦ none
    | some others ↦ some (emit now error cid message r.local_proto (record s { running = others }))
  ]
  step now (finish cid) s = elim (take_out cid s.running) [
    | none ↦ none
    | some others ↦ some (emit now closed cid [] r.local_proto (record s { running = others }))
  ]

  -- the states that the connections of a proxy can reach
  pub data Reachable : Streams → Type 0 where
    begin : Reachable no_streams
    next :
        {s t : Streams} (now : ℕ) (a : Action) → Reachable s → step now a s ≡ some t → Reachable t
