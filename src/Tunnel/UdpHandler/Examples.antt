-- ===== src/Tunnel/UdpHandler/Examples.antt =====
-- The theorems about readers, at a handler after a few packets and at one whose table is full of
-- connections that nobody reads.
use chisel_uds.Prelude.{
  ℕ, zero, suc, ◌≤◌, Bool, true, false, none, [], ◌∷◌, ◌≡◌, refl, arith, text_eq,
}
use chisel_uds.Prelude.Dict.{Dict, lookup, insert, IsMap}
use chisel_uds.Prelude.Dict.Weights.{weigh}
use chisel_uds.Tunnel.UdpHandler.{
  UdpHandler, UdpConn, decoding, packet, write, step, run, Reachable, begin, next,
}
use chisel_uds.Tunnel.UdpHandler.Readers.{IsBounded, Reachable-IsBounded, readers}
use chisel_uds.Tunnel.UdpHandler.Starved.{IsStarved, run-IsStarved}

abbrev conn : ℕ → Bool → UdpConn
conn n reading = record { id = n ∷ []; socket = n; reading = reading }

abbrev one_packet : UdpHandler
one_packet = record {
  m = (7 ∷ [], record { id = 7 ∷ []; socket = 0; reading = true }) ∷ [];
  sockets = 1;
  closed = [];
  phase = decoding;
}

one_packet-Reachable : Reachable one_packet
unfolding step lookup insert text_eq
one_packet-Reachable = next (write none) (next (packet (7 ∷ []) none) begin refl) refl

Reachable-IsBounded_example : IsBounded one_packet
Reachable-IsBounded_example = Reachable-IsBounded one_packet-Reachable

abbrev unread_table : ℕ → Dict UdpConn
unread_table zero = []
unread_table (suc n) = (n ∷ [], conn n false) ∷ unread_table n

lookup-unread_table : (n k : ℕ) → n ≤ k → lookup (k ∷ []) (unread_table n) ≡ none
unfolding lookup text_eq
lookup-unread_table zero k h = refl
lookup-unread_table (suc n) k h = ground (arith, lookup-unread_table n k)

unread_table-IsMap : (n : ℕ) → IsMap (unread_table n)
unread_table-IsMap zero = tt
unread_table-IsMap (suc n) = (lookup-unread_table n n (omega arith), unread_table-IsMap n)

abbrev full_table : UdpHandler
full_table = record { m = unread_table 101; sockets = 101; closed = []; phase = decoding }

full_table-IsBounded : IsBounded full_table
unfolding weigh
full_table-IsBounded = record { is_map = unread_table-IsMap 101; few = omega arith; fresh = tt }

-- a new source stands in the table, and is not read
abbrev after_more : UdpHandler
after_more = record full_table {
  m = insert (300 ∷ []) (record (conn 101 false) { id = 300 ∷ [] }) (unread_table 101);
  sockets = 102;
}

run-IsStarved_example : IsStarved (readers full_table) after_more
unfolding run lookup insert text_eq weigh
run-IsStarved_example =
    run-IsStarved (packet (300 ∷ []) none ∷ write none ∷ []) full_table after_more
      full_table-IsBounded (omega arith) refl
