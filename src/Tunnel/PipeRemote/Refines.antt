-- ===== src/Tunnel/PipeRemote/Refines.antt =====
-- A goroutine of `pipeRemote` takes the steps of a stream, and closes what it holds.
use chisel_uds.Prelude.{
  ℕ, suc, ◌+◌, Text, Option, none, some, List, [], ◌∷◌, ◌++◌, ◌≡◌, refl, arith, ◌∙◌,
}
use chisel_uds.Prelude.Result.{Result, err, ok}
use chisel_uds.Settings.Remote.Types.{Remote}
use chisel_uds.Tunnel.Streams.{
  StreamState, StreamEvent, stream_event, Streams, Action, start, report_open, fail, finish,
  take_out, step,
}
use chisel_uds.Tunnel.PipeRemote.{
  RemoteCall, takes_number, emits, opens_remote, pipes, closes_dst, closes_src, Opener,
  open_remote_stream, pipe_opened, pipe_remote,
}

-- the step of a stream that an event reports
abbrev action_of : StreamEvent → StreamState → List (ℕ × Action)
action_of e StreamState.accepted = []
action_of e StreamState.opened = (e.time, report_open e.conn_id) ∷ []
action_of e StreamState.error = (e.time, fail e.conn_id e.error) ∷ []
action_of e StreamState.closed = (e.time, finish e.conn_id) ∷ []

-- the steps of the streams among the calls of a goroutine
abbrev pub actions : List RemoteCall → List (ℕ × Action)
actions [] = []
actions (takes_number n ∷ rest) = (0, start) ∷ actions rest
actions (emits e ∷ rest) = action_of e e.state ++ actions rest
actions (opens_remote ∷ rest) = actions rest
actions (pipes a b ∷ rest) = actions rest
actions (closes_dst ∷ rest) = actions rest
actions (closes_src ∷ rest) = actions rest

-- the events that a goroutine emits, the newest first, before those that were there
abbrev pub emitted : List RemoteCall → List StreamEvent → List StreamEvent
emitted [] es = es
emitted (emits e ∷ rest) es = emitted rest (e ∷ es)
emitted (takes_number n ∷ rest) es = emitted rest es
emitted (opens_remote ∷ rest) es = emitted rest es
emitted (pipes a b ∷ rest) es = emitted rest es
emitted (closes_dst ∷ rest) es = emitted rest es
emitted (closes_src ∷ rest) es = emitted rest es

-- how often the source, and the stream that was opened, is closed
abbrev pub src_closes : List RemoteCall → ℕ
src_closes [] = 0
src_closes (closes_src ∷ rest) = suc (src_closes rest)
src_closes (emits e ∷ rest) = src_closes rest
src_closes (takes_number n ∷ rest) = src_closes rest
src_closes (opens_remote ∷ rest) = src_closes rest
src_closes (pipes a b ∷ rest) = src_closes rest
src_closes (closes_dst ∷ rest) = src_closes rest

abbrev pub dst_closes : List RemoteCall → ℕ
dst_closes [] = 0
dst_closes (closes_dst ∷ rest) = suc (dst_closes rest)
dst_closes (emits e ∷ rest) = dst_closes rest
dst_closes (takes_number n ∷ rest) = dst_closes rest
dst_closes (opens_remote ∷ rest) = dst_closes rest
dst_closes (pipes a b ∷ rest) = dst_closes rest
dst_closes (closes_src ∷ rest) = dst_closes rest

take_out-first : (c : ℕ) (l : List ℕ) → take_out c (c ∷ l) ≡ some l
unfolding take_out
take_out-first c l = ground arith

module _ (session_id : Text) (r : Remote) (accept_protocol : Text) where
  unfoldable pub run_steps : List (ℕ × Action) → Streams → Option Streams
  run_steps [] s = some s
  run_steps ((now, a) ∷ rest) s = elim (step session_id r accept_protocol now a s) [
    | none ↦ none
    | some t ↦ run_steps rest t
  ]

  -- one step, and the rest from there
  run_steps-cons :
      (now : ℕ) (a : Action) (rest : List (ℕ × Action)) (s t : Streams)
      → step session_id r accept_protocol now a s ≡ some t
      → run_steps ((now, a) ∷ rest) s ≡ run_steps rest t
  unfolding run_steps
  run_steps-cons now a rest s t e = rw (run_steps, e) refl

  -- the streams behind the number, and behind the first report
  abbrev numbered : ℕ → Streams → Streams
  numbered w s = record s {
    waiting = w;
    count = s.count + 1;
    numbered = (s.count + 1) ∷ s.numbered;
  }

  abbrev opened_at : ℕ → ℕ → Streams → Streams
  opened_at now w s = record s {
    waiting = w;
    count = s.count + 1;
    running = (s.count + 1) ∷ s.running;
    events =
        stream_event session_id r now StreamState.opened (s.count + 1) [] r.local_proto ∷ s.events;
  }

  start-step :
      (w : ℕ) (s : Streams)
      → s.waiting ≡ suc w
      → step session_id r accept_protocol 0 start s ≡ some (numbered w s)
  unfolding step
  start-step w s e = rw (step, e) refl

  open-step :
      (now w : ℕ) (s : Streams)
      → step session_id r accept_protocol now (report_open (s.count + 1)) (numbered w s)
        ≡ some (opened_at now w s)
  unfolding step
  open-step now w s = rw (step, take_out-first (s.count + 1) s.numbered) refl

  -- the last step, of a stream that runs
  end-step :
      (now later w : ℕ) (s : Streams) (o : Result Text (Unit {0})) (piped : ℕ × ℕ)
      → run_steps
          (actions (pipe_opened session_id r later (s.count + 1) o piped))
          (opened_at now w s)
        ≡ some (record s {
          count = s.count + 1;
          waiting = w;
          events =
              emitted
                (pipe_opened session_id r later (s.count + 1) o piped)
                (opened_at now w s).events;
        })
  unfolding pipe_opened run_steps step
  end-step now later w s (err e) piped =
      rw (run_steps, step, take_out-first (s.count + 1) s.running) refl
  end-step now later w s (ok u) (sent, received) =
      rw (run_steps, step, take_out-first (s.count + 1) s.running) refl

  closes-pipe_opened :
      (now cid : ℕ) (o : Result Text (Unit {0})) (piped : ℕ × ℕ)
      → let calls = pipe_opened session_id r now cid o piped in
        (src_closes calls ≡ (elim o [ err e ↦ 1 | ok u ↦ 2 ]))
        × (dst_closes calls ≡ (elim o [ err e ↦ 0 | ok u ↦ 2 ]))
  unfolding pipe_opened
  closes-pipe_opened now cid (err e) piped = (refl, refl)
  closes-pipe_opened now cid (ok u) (sent, received) = (refl, refl)

  -- What a goroutine does to the streams that it finds.
  abbrev pub Served : Text → ℕ → ℕ → Opener → ℕ × ℕ → ℕ → Streams → Type 0
  Served log now later opener piped w s =
      let calls = pipe_remote session_id r log s.count now later opener piped in
      (run_steps (actions calls) s
        ≡ some (record s { count = s.count + 1; waiting = w; events = emitted calls s.events }))
      × (src_closes calls ≡ (elim (open_remote_stream log opener) [ err e ↦ 1 | ok u ↦ 2 ]))
      × (dst_closes calls ≡ (elim (open_remote_stream log opener) [ err e ↦ 0 | ok u ↦ 2 ]))

  -- A goroutine of pipeRemote that runs alone takes the steps of one stream: it takes the next number,
  -- reports the stream open under it, and ends it with an error if the remote stream could not be opened,
  -- and closed otherwise; no other stream is touched. If the remote stream could not
  -- be opened, the source is closed once, and no other stream; otherwise both streams are closed twice, by
  -- cio.Pipe and by the deferred calls.
  pub serves_stream :
      (log : Text) (now later : ℕ) (opener : Opener) (piped : ℕ × ℕ) (w : ℕ) (s : Streams)
      → s.waiting ≡ suc w
      → Served log now later opener piped w s
  unfolding pipe_remote
  serves_stream log now later opener piped w s e =
      let o = open_remote_stream log opener in
      let (src_once, dst_once) = closes-pipe_opened later (s.count + 1) o piped in
      (
        run_steps-cons 0 start _ s (numbered w s) (start-step w s e)
            ∙ run_steps-cons now (report_open (s.count + 1)) _ (numbered w s) (opened_at now w s)
                (open-step now w s)
            ∙ end-step now later w s o piped,
        src_once,
        dst_once,
      )
