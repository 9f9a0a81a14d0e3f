-- ===== src/Tunnel/UdpListener.antt =====
-- share/tunnel/tunnel_in_proxy_udp.go: the listener of a UDP remote, its two loops and the channel that
-- they share.
-- A round of a loop is one step: it holds the lock while it takes the channel, and behind that it changes
-- its counter only. SSH connections and channels are numbered. What the network, the SSH connection and
-- the codec of a channel answered in a round is given with it.
pub mod Channel
pub mod Drops
mod Examples
use chisel_uds.Prelude.{
  ℕ, ◌+◌, ◌%◌, ◌^◌, Text, codes, Bool, true, false, Option, none, some, List, [], ◌∷◌, ◌++◌,
  has_suffix, if◌then◌else◌, ◌≡◌,
}

-- udpChannel, with the SSH connection that it was opened on
pub record UdpChannel : Type 0 where
  pub channel : ℕ
  pub conn : ℕ

-- `outbound`, the counters (the bits of an int64), and the SSH connections on which a goroutine of
-- unsetUDPChan waits. `opened` numbers the channels.
pub record UdpListener : Type 0 where
  pub outbound : Option UdpChannel
  pub sent : ℕ
  pub recv : ℕ
  pub watched : List ℕ
  pub opened : ℕ

abbrev pub new_listener : UdpListener
new_listener = record { outbound = none; sent = 0; recv = 0; watched = []; opened = 0 }

-- What getSSH and OpenChannel answer, if they are called
pub data Opening : Type 0 where
  no_ssh : Opening
  refused : ℕ → Text → Opening
  opens : ℕ → Opening

pub data Channelled : Type 0 where
  channelled : UdpChannel → Channelled
  no_channel : Text → Channelled

-- getUDPChan behind the look at the cache
unfoldable pub open_chan : Opening → UdpListener → UdpListener × Channelled
open_chan no_ssh u = (u, no_channel (codes "ssh-conn nil"))
open_chan (refused conn e) u = (u, no_channel (codes "ssh-chan error: " ++ e))
open_chan (opens conn) u =
    let o : UdpChannel = record { channel = u.opened; conn = conn } in
    (
      record u { outbound = some o; watched = conn ∷ u.watched; opened = u.opened + 1 },
      channelled o,
    )

unfoldable pub get_udp_chan : Opening → UdpListener → UdpListener × Channelled
unfolding open_chan
get_udp_chan ssh u = elim u.outbound [ some o ↦ (u, channelled o) | none ↦ open_chan ssh u ]

-- `unsetUDPChan` of the latest goroutine, behind the end of its connection
unfoldable pub unset_udp_chan : List ℕ → UdpListener → UdpListener
unset_udp_chan [] u = u
unset_udp_chan (conn ∷ rest) u = record u { outbound = none; watched = rest }

-- How a round ends: the loop goes on, or returns an error
pub data Round : Type 0 where
  goes_on : UdpListener → Round
  returns : UdpListener → Text → Round

-- an error that a loop skips if it ends in "EOF"
unfoldable pub skip_eof : Text → Text → UdpListener → Round
skip_eof prefix e u = if has_suffix e (codes "EOF") then goes_on u else returns u (prefix ++ e)

-- What ReadFromUDP returned: a timeout or a temporary error, another error, or a packet and its length
pub data Read : Type 0 where
  times_out : Read
  read_fails : Text → Read
  reads : ℕ → Read

-- the end of a round of runInbound, with the error of `encode`
unfoldable pub send : ℕ → Option Text → UdpListener → Channelled → Round
unfolding skip_eof
send n encode_error u (no_channel e) = skip_eof (codes "inbound-udpchan: ") e u
send n encode_error u (channelled o) = elim encode_error [
  | some e ↦ skip_eof (codes "encode error: ") e u
  | none ↦ goes_on (record u { sent = (u.sent + n) % 2 ^ 64 })
]

-- one round of runInbound
unfoldable pub inbound_round : Read → Opening → Option Text → UdpListener → Round
unfolding send get_udp_chan
inbound_round times_out ssh encode_error u = goes_on u
inbound_round (read_fails e) ssh encode_error u = returns u (codes "read error: " ++ e)
inbound_round (reads n) ssh encode_error u =
    let (u', c) = get_udp_chan ssh u in send n encode_error u' c

-- What `decode` returned, and what became of a packet: its source does not resolve, it is not written, or
-- so many bytes of it are
pub data Decoded : Type 0 where
  end_of_file : Decoded
  decode_fails : Text → Decoded
  unresolved : Text → Decoded
  unwritten : Text → Decoded
  written : ℕ → Decoded

unfoldable pub receive : Decoded → UdpListener → Round
receive end_of_file u = goes_on u
receive (decode_fails e) u = returns u (codes "decode error: " ++ e)
receive (unresolved e) u = returns u (codes "resolve error: " ++ e)
receive (unwritten e) u = returns u (codes "write error: " ++ e)
receive (written n) u = goes_on (record u { recv = (u.recv + n) % 2 ^ 64 })

unfoldable pub outbound_on : Decoded → UdpListener → Channelled → Round
unfolding skip_eof receive
outbound_on d u (no_channel e) = skip_eof (codes "outbound-udpchan: ") e u
outbound_on d u (channelled o) = receive d u

-- one round of runOutbound
unfoldable pub outbound_round : Decoded → Opening → UdpListener → Round
unfolding outbound_on get_udp_chan
outbound_round d ssh u = let (u', c) = get_udp_chan ssh u in outbound_on d u' c

pub data Action : Type 0 where
  inbound_runs : Read → Opening → Option Text → Action
  outbound_runs : Decoded → Opening → Action
  -- the connection on which the latest goroutine of unsetUDPChan waits has ended
  ends : Action

unfoldable pub step : Action → UdpListener → Round
unfolding inbound_round outbound_round unset_udp_chan
step (inbound_runs r ssh e) u = inbound_round r ssh e u
step (outbound_runs d ssh) u = outbound_round d ssh u
step ends u = goes_on (unset_udp_chan u.watched u)

-- the rounds of both loops in the order of their steps, up to the first error
unfoldable pub run_from : List Action → Round → Round
unfolding step
run_from [] r = r
run_from (a ∷ rest) (goes_on u) = run_from rest (step a u)
run_from (a ∷ rest) (returns u e) = returns u e

abbrev pub run : List Action → UdpListener → Round
run actions u = run_from actions (goes_on u)
