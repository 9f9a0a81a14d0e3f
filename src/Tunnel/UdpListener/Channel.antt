-- ===== src/Tunnel/UdpListener/Channel.antt =====
-- The cached channel and the goroutine that removes it.
use chisel_uds.Prelude.{
  ℕ, Text, codes, Option, none, some, List, [], ◌∷◌, has_suffix, ◌≡◌, refl, Option-cases,
  Bool-cases, inl, inr, sym, subst, ap, arith, ◌∙◌,
}
use chisel_uds.Tunnel.UdpListener.{
  UdpChannel, UdpListener, new_listener, Opening, no_ssh, refused, opens, Channelled, channelled,
  no_channel, open_chan, get_udp_chan, unset_udp_chan, Round, goes_on, returns, skip_eof, times_out,
  read_fails, reads, send, inbound_round, Decoded, end_of_file, decode_fails, unresolved, unwritten,
  written, receive, outbound_on, outbound_round, Action, inbound_runs, outbound_runs, ends, step,
  run_from, run,
}

abbrev watched_by : Option UdpChannel → List ℕ
watched_by none = []
watched_by (some o) = o.conn ∷ []

-- One goroutine waits for the end of the SSH connection of the cached channel, and none without a channel.
abbrev pub IsWatched : UdpListener → Type 0
IsWatched u = u.watched ≡ watched_by u.outbound

-- the listener behind a round
unfoldable pub behind : Round → UdpListener
behind (goes_on u) = u
behind (returns u e) = u

open_chan-IsWatched :
    (ssh : Opening) (u : UdpListener) → u.watched ≡ [] → IsWatched u → IsWatched (open_chan ssh u).0
unfolding open_chan
open_chan-IsWatched no_ssh u e w = w
open_chan-IsWatched (refused conn t) u e w = w
open_chan-IsWatched (opens conn) u e w = ap (λ l. conn ∷ l) e

-- With a channel in the cache nothing is opened, and without one something is.
pub get_cached :
    (ssh : Opening) (u : UdpListener) (o : UdpChannel)
    → u.outbound ≡ some o
    → get_udp_chan ssh u ≡ (u, channelled o)
unfolding get_udp_chan
get_cached ssh u o e = ground arith

get_missing :
    (ssh : Opening) (u : UdpListener) → u.outbound ≡ none → get_udp_chan ssh u ≡ open_chan ssh u
unfolding get_udp_chan
get_missing ssh u e = ground arith

get_udp_chan-IsWatched :
    (ssh : Opening) (u : UdpListener) → IsWatched u → IsWatched (get_udp_chan ssh u).0
get_udp_chan-IsWatched ssh u w = elim (Option-cases u.outbound) [
  | inl e ↦
      subst (λ (r : UdpListener × Channelled). IsWatched r.0) (sym (get_missing ssh u e))
        (open_chan-IsWatched ssh u (w ∙ ap watched_by e) w)
  | inr (o, e) ↦
      subst (λ (r : UdpListener × Channelled). IsWatched r.0) (sym (get_cached ssh u o e)) w
]

skip_eof-behind : (t e : Text) (u : UdpListener) → behind (skip_eof t e u) ≡ u
unfolding skip_eof behind
skip_eof-behind t e u = elim (Bool-cases (has_suffix e (codes "EOF"))) [
  | inl t ↦ ground arith
  | inr f ↦ ground arith
]

send-IsWatched :
    (n : ℕ) (e : Option Text) (u : UdpListener) (c : Channelled)
    → IsWatched u
    → IsWatched (behind (send n e u c))
unfolding send behind
send-IsWatched n e u (no_channel t) w =
    subst IsWatched (sym (skip_eof-behind (codes "inbound-udpchan: ") t u)) w
send-IsWatched n (some t) u (channelled o) w =
    subst IsWatched (sym (skip_eof-behind (codes "encode error: ") t u)) w
send-IsWatched n none u (channelled o) w = w

receive-IsWatched : (d : Decoded) (u : UdpListener) → IsWatched u → IsWatched (behind (receive d u))
unfolding receive behind
receive-IsWatched end_of_file u w = w
receive-IsWatched (decode_fails e) u w = w
receive-IsWatched (unresolved e) u w = w
receive-IsWatched (unwritten e) u w = w
receive-IsWatched (written n) u w = w

outbound_on-IsWatched :
    (d : Decoded) (u : UdpListener) (c : Channelled)
    → IsWatched u
    → IsWatched (behind (outbound_on d u c))
unfolding outbound_on
outbound_on-IsWatched d u (no_channel t) w =
    subst IsWatched (sym (skip_eof-behind (codes "outbound-udpchan: ") t u)) w
outbound_on-IsWatched d u (channelled o) w = receive-IsWatched d u w

unset-IsWatched :
    (l : List ℕ) (u : UdpListener) (o : Option UdpChannel)
    → u.watched ≡ l
    → u.outbound ≡ o
    → l ≡ watched_by o
    → IsWatched u
    → IsWatched (unset_udp_chan l u)
unfolding unset_udp_chan
unset-IsWatched [] u o e p q w = w
unset-IsWatched (k ∷ rest) u none e p q w = absurd (ground arith)
unset-IsWatched (k ∷ rest) u (some c) e p q w = ground arith

step-IsWatched : (a : Action) (u : UdpListener) → IsWatched u → IsWatched (behind (step a u))
unfolding step inbound_round outbound_round behind
step-IsWatched (inbound_runs times_out ssh e) u w = w
step-IsWatched (inbound_runs (read_fails t) ssh e) u w = w
step-IsWatched (inbound_runs (reads n) ssh e) u w =
    send-IsWatched n e (get_udp_chan ssh u).0 (get_udp_chan ssh u).1
      (get_udp_chan-IsWatched ssh u w)
step-IsWatched (outbound_runs d ssh) u w =
    outbound_on-IsWatched d (get_udp_chan ssh u).0 (get_udp_chan ssh u).1
      (get_udp_chan-IsWatched ssh u w)
step-IsWatched ends u w = unset-IsWatched u.watched u u.outbound refl refl w w

run_from-IsWatched :
    (actions : List Action) (r : Round)
    → IsWatched (behind r)
    → IsWatched (behind (run_from actions r))
unfolding run_from behind
run_from-IsWatched [] r w = w
run_from-IsWatched (a ∷ rest) (goes_on u) w =
    run_from-IsWatched rest (step a u) (step-IsWatched a u w)
run_from-IsWatched (a ∷ rest) (returns u e) w = w

-- After any rounds of both loops and any ends of SSH connections, in any order, exactly one goroutine waits
-- for the end of the SSH connection of the channel in use, and none if there is no channel.
pub run-IsWatched : (actions : List Action) → IsWatched (behind (run actions new_listener))
unfolding behind
run-IsWatched actions = run_from-IsWatched actions (goes_on new_listener) refl
