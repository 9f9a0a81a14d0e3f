-- ===== src/Tunnel/PipeRemote.antt =====
-- share/tunnel/tunnel_in_proxy.go: `pipeRemote`, which connects one accepted stream, and the loops that
-- start it: runTCP, runUnix and runStdio. What Accept, the opening of a channel and cio.Pipe came to is
-- given.
pub mod Refines
mod Examples
use chisel_uds.Prelude.{
  ℕ, zero, suc, ◌+◌, Text, codes, Bool, true, false, Option, none, some, List, [], ◌∷◌, ◌++◌,
}
use chisel_uds.Prelude.Result.{Result, err, ok}
use chisel_uds.Settings.Remote.Types.{Remote}
use chisel_uds.Tunnel.Streams.{StreamState, StreamEvent, stream_event}

-- What a goroutine of `pipeRemote` does, in order.
pub data RemoteCall : Type 0 where
  takes_number : ℕ → RemoteCall
  emits : StreamEvent → RemoteCall
  opens_remote : RemoteCall
  -- cio.Pipe, with the bytes that it sent and received, behind its own closes of both streams
  pipes : ℕ → ℕ → RemoteCall
  closes_dst closes_src : RemoteCall

-- How a channel to the remote may be opened: by the proxy's own opener, over an SSH connection with the
-- answer of OpenChannel, or not at all since getSSH gives none
pub data Opener : Type 0 where
  stream_opener : Option Text → Opener
  ssh_channel : Option Text → Opener
  no_connection : Opener

abbrev opened_with : Option Text → Result Text (Unit {0})
opened_with none = ok tt
opened_with (some e) = err e

-- `openRemoteStream`, with the prefix of the proxy's logger
unfoldable pub open_remote_stream : Text → Opener → Result Text (Unit {0})
open_remote_stream log (stream_opener e) = opened_with e
open_remote_stream log (ssh_channel e) = opened_with e
open_remote_stream log no_connection = err (log ++ codes ": No remote connection")

module _ (session_id : Text) (r : Remote) where
  -- an event with the protocol of the remote
  abbrev pub report : ℕ → StreamState → ℕ → Text → RemoteCall
  report now state cid message =
      emits (stream_event session_id r now state cid message r.local_proto)

  -- behind `openRemoteStream`. cio.Pipe closes both streams itself, once, in the order of `closeBoth`; the
  -- deferred calls close the stream that was opened again, and `src` last.
  unfoldable pub pipe_opened : ℕ → ℕ → Result Text (Unit {0}) → ℕ × ℕ → List RemoteCall
  pipe_opened now cid (err e) piped = report now StreamState.error cid e ∷ closes_src ∷ []
  pipe_opened now cid (ok u) (sent, received) =
      closes_src
      ∷ closes_dst
      ∷ pipes sent received
      ∷ report now StreamState.closed cid []
      ∷ closes_dst
      ∷ closes_src
      ∷ []

  -- `pipeRemote` with the proxy's count before it, at the times of its two reports
  unfoldable pub pipe_remote : Text → ℕ → ℕ → ℕ → Opener → ℕ × ℕ → List RemoteCall
  unfolding open_remote_stream pipe_opened
  pipe_remote log count now later opener piped =
      let cid = count + 1 in
      takes_number cid
      ∷ report now StreamState.opened cid []
      ∷ opens_remote
      ∷ pipe_opened later cid (open_remote_stream log opener) piped

-- What Accept returns: a connection, or an error with whether the context is done by then
pub data Accepted : Type 0 where
  connection : Accepted
  accept_fails : Bool → Text → Accepted

-- How a loop of accepts stands: it has started so many goroutines, and waits or has returned.
pub data LoopState : Type 0 where
  accepting : ℕ → LoopState
  loop_ended : ℕ → Option Text → LoopState

-- the end of the loop: an error after the context is done is the closed listener
unfoldable pub accept_error : Bool → Text → Option Text
accept_error true e = none
accept_error false e = some e

-- the loop of `runTCP` and of `runUnix`
unfoldable pub accept_loop : ℕ → List Accepted → LoopState
unfolding accept_error
accept_loop started [] = accepting started
accept_loop started (connection ∷ rest) = accept_loop (started + 1) rest
accept_loop started (accept_fails done e ∷ rest) = loop_ended started (accept_error done e)

-- `runTCP`
unfoldable pub run_tcp : List Accepted → LoopState
unfolding accept_loop
run_tcp accepts = accept_loop 0 accepts

-- what `runUnix` does when it returns: the listener is closed, and the socket's file is removed
pub data UnixCall : Type 0 where
  closes_listener : UnixCall
  removes : Text → UnixCall

abbrev leave_unix : Remote → LoopState → List UnixCall
leave_unix r (accepting n) = []
leave_unix r (loop_ended n e) = closes_listener ∷ removes r.uds_socket_path ∷ []

-- `runUnix`, with whether the listener is there
unfoldable pub run_unix : Text → Remote → Bool → List Accepted → LoopState × List UnixCall
unfolding accept_loop
run_unix log r false accepts =
    (loop_ended 0 (some (log ++ codes ": unix listener is not initialized")), [])
run_unix log r true accepts = let s = accept_loop 0 accepts in (s, leave_unix r s)

-- `runStdio`, with whether the context is done after each call of pipeRemote: the number of the calls
unfoldable pub run_stdio : ℕ → List Bool → LoopState
run_stdio n [] = accepting n
run_stdio n (true ∷ rest) = loop_ended (n + 1) none
run_stdio n (false ∷ rest) = run_stdio (n + 1) rest
