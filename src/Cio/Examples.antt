-- ===== src/Cio/Examples.antt =====
-- The theorems about pipes at one that has moved five bytes and three.
use chisel_uds.Prelude.{ℕ, ◌≤◌, true, some, ◌≡◌, ◌≢◌, refl}
use chisel_uds.Cio.Pipe.{
  copies, copied, finished, Pipe, start, moves, ends, does, dones, apply, close_once, sends,
  receives, returns, Reachable, begin, next,
}
use chisel_uds.Cio.Pipe.Closes.{closes_streams}
use chisel_uds.Cio.Pipe.Returns.{GoesOn, goes_on}

abbrev both_ended : Pipe
both_ended = record start {
  sender = record { phase = copied; count = 5 };
  receiver = record { phase = copied; count = 3 };
}

both_ended-Reachable : Reachable both_ended
unfolding apply
both_ended-Reachable =
    next
      (next (next (next begin (sends (moves 5 refl))) (receives (moves 3 refl)))
        (sends (ends refl)))
      (receives (ends refl))

copied_differs : copied ≢ copies
copied_differs e = absurd cc

goes_on_example : GoesOn both_ended
goes_on_example = goes_on both_ended both_ended-Reachable refl copied_differs copied_differs

abbrev returned : Pipe
returned = record {
  sender = record { phase = finished; count = 5 };
  receiver = record { phase = finished; count = 3 };
  once = true;
  src_closes = 1;
  dst_closes = 1;
  waiting = 0;
  result = some (5, 3);
}

returned-Reachable : Reachable returned
unfolding apply close_once
returned-Reachable =
    next
      (next
        (next (next (next both_ended-Reachable (receives (does refl))) (sends (does refl)))
          (sends (dones refl)))
        (receives (dones refl)))
      (returns refl refl)

closes_streams_example :
    (returned.src_closes ≤ 1)
    × (returned.dst_closes ≡ returned.src_closes)
    × ((a b : ℕ)
        → returned.result ≡ some (a, b)
        → (returned.src_closes ≡ 1)
          × (returned.sender ≡ record { phase = finished; count = a })
          × (returned.receiver ≡ record { phase = finished; count = b }))
closes_streams_example = closes_streams returned returned-Reachable
