-- ===== src/Tunnel/UdpListener/Drops.antt =====
-- What the loops do with a channel whose other end has returned while its SSH connection lives.
use chisel_uds.Prelude.{codes, true, none, some, List, [], ◌∷◌, has_suffix, ◌≡◌, refl, ap, ◌∙◌, All}
use chisel_uds.Tunnel.UdpListener.{
  UdpChannel, UdpListener, goes_on, skip_eof, times_out, read_fails, reads, send, inbound_round,
  end_of_file, decode_fails, unresolved, unwritten, written, receive, outbound_on, outbound_round,
  Action, inbound_runs, outbound_runs, ends, step, run_from, run,
}
use chisel_uds.Tunnel.UdpListener.Channel.{get_cached}

-- The channel answers a round with EOF: the packet that was read is not encoded, or nothing is decoded.
unfoldable pub MeetsEof : Action → Type 0
MeetsEof (inbound_runs times_out ssh e) = Unit
MeetsEof (inbound_runs (read_fails t) ssh e) = ⊥
MeetsEof (inbound_runs (reads n) ssh none) = ⊥
MeetsEof (inbound_runs (reads n) ssh (some e)) = has_suffix e (codes "EOF") ≡ true
MeetsEof (outbound_runs end_of_file ssh) = Unit
MeetsEof (outbound_runs (decode_fails e) ssh) = ⊥
MeetsEof (outbound_runs (unresolved e) ssh) = ⊥
MeetsEof (outbound_runs (unwritten e) ssh) = ⊥
MeetsEof (outbound_runs (written n) ssh) = ⊥
MeetsEof ends = ⊥

step_drops :
    (a : Action) (u : UdpListener) (o : UdpChannel)
    → u.outbound ≡ some o
    → MeetsEof a
    → step a u ≡ goes_on u
unfolding step inbound_round outbound_round MeetsEof send outbound_on receive skip_eof
step_drops (inbound_runs times_out ssh e) u o q m = refl
step_drops (inbound_runs (read_fails t) ssh e) u o q m = absurd m
step_drops (inbound_runs (reads n) ssh none) u o q m = absurd m
step_drops (inbound_runs (reads n) ssh (some e)) u o q m = rw (get_cached ssh u o q, m) refl
step_drops (outbound_runs end_of_file ssh) u o q m = rw (get_cached ssh u o q) refl
step_drops (outbound_runs (decode_fails e) ssh) u o q m = absurd m
step_drops (outbound_runs (unresolved e) ssh) u o q m = absurd m
step_drops (outbound_runs (unwritten e) ssh) u o q m = absurd m
step_drops (outbound_runs (written n) ssh) u o q m = absurd m
step_drops ends u o q m = absurd m

-- While the SSH connection of the cached channel lives, a channel that answers EOF is never replaced: the
-- rounds of both loops go on, keep the channel, send nothing and count nothing, whatever else getSSH and
-- OpenChannel could have answered.
pub run_drops :
    (actions : List Action) (u : UdpListener) (o : UdpChannel)
    → u.outbound ≡ some o
    → All MeetsEof actions
    → run actions u ≡ goes_on u
unfolding run_from
run_drops [] u o q all = refl
run_drops (a ∷ rest) u o q (m, ms) =
    ap (run_from rest) (step_drops a u o q m) ∙ run_drops rest u o q ms
