-- ===== src/Tunnel/UdpListener/Examples.antt =====
-- The theorems about the UDP listener at one channel.
use chisel_uds.Prelude.{none, some, [], ◌∷◌, ◌≡◌, refl}
use chisel_uds.Tunnel.UdpListener.{
  UdpListener, new_listener, opens, goes_on, reads, inbound_runs, run, run_from, step,
  inbound_round, get_udp_chan, open_chan, send, ends,
}
use chisel_uds.Tunnel.UdpListener.Channel.{IsWatched, behind, run-IsWatched}

abbrev linked : UdpListener
linked = record new_listener {
  outbound = some (record { channel = 0; conn = 7 });
  watched = 7 ∷ [];
  opened = 1;
  sent = 3;
}

-- The first packet opens a channel, and the end of the connection removes it.
first_packet : run (inbound_runs (reads 3) (opens 7) none ∷ []) new_listener ≡ goes_on linked
unfolding run_from step inbound_round get_udp_chan open_chan send
first_packet = refl

run-IsWatched_example :
    IsWatched (behind (run (inbound_runs (reads 3) (opens 7) none ∷ ends ∷ []) new_listener))
run-IsWatched_example = run-IsWatched (inbound_runs (reads 3) (opens 7) none ∷ ends ∷ [])
