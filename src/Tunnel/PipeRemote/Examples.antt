-- ===== src/Tunnel/PipeRemote/Examples.antt =====
-- A connection that is served, one whose remote stream fails, and the loops that start them.
use chisel_uds.Prelude.{codes, true, false, none, some, [], ◌∷◌, ◌≡◌, refl}
use chisel_uds.Settings.Remote.Types.{Remote, empty_remote}
use chisel_uds.Tunnel.Streams.{Streams, no_streams}
use chisel_uds.Tunnel.PipeRemote.{
  ssh_channel, no_connection, open_remote_stream, connection, accept_fails, loop_ended, accepting,
  run_tcp, run_unix, run_stdio, closes_listener, removes,
}
use chisel_uds.Prelude.Result.{err}
use chisel_uds.Tunnel.PipeRemote.Refines.{Served, serves_stream}

abbrev web : Remote
web = record empty_remote { local_proto = codes "tcp" }

abbrev one_waiting : Streams
one_waiting = record no_streams { waiting = 1 }

serves_stream_example :
    Served (codes "s") web (codes "tcp") (codes "log") 7 9 (ssh_channel none) (3, 4) 0 one_waiting
serves_stream_example =
    serves_stream (codes "s") web (codes "tcp") (codes "log") 7 9 (ssh_channel none) (3, 4) 0
      one_waiting refl

fails_without_connection :
    open_remote_stream (codes "tun") no_connection ≡ err (codes "tun: No remote connection")
unfolding open_remote_stream
fails_without_connection = refl

-- Two connections, and the listener that the context closes
ends_quietly :
    run_tcp (connection ∷ connection ∷ accept_fails true (codes "closed") ∷ connection ∷ [])
    ≡ loop_ended 2 none
unfolding run_tcp
ends_quietly = refl

removes_socket :
    run_unix
      (codes "log")
      (record web { uds_socket_path = codes "/s" })
      true
      (connection ∷ accept_fails false (codes "broken") ∷ [])
    ≡ (loop_ended 1 (some (codes "broken")), closes_listener ∷ removes (codes "/s") ∷ [])
unfolding run_unix
removes_socket = refl

-- Without an end of the context, runStdio calls pipeRemote again each time.
pipes_again : run_stdio 0 (false ∷ false ∷ false ∷ []) ≡ accepting 3
unfolding run_stdio
pipes_again = refl
