-- ===== src/Cnet/Meter.antt =====
-- share/cnet/meter.go: the meter of a connection, as the steps of its readers and writers and of the
-- goroutines that print. The line that `goprint` logs, which it scales with floating point, is left out.
-- A counter holds the bits of an int64; a read or write gives the count that the inner stream returned.
pub mod Printers
use chisel_uds.Prelude.{ℕ, ◌+◌, ◌%◌, ◌^◌, Bool, true, false, Option, none, some, List, [], ◌∷◌, ◌≡◌}

-- Where a goroutine of goprint stands: in its sleep, behind the load of `sent`, and of `recv`
pub data Printer : Type 0 where
  asleep : Printer
  with_sent : ℕ → Printer
  with_both : ℕ → ℕ → Printer

pub record Meter : Type 0 where
  pub sent : ℕ
  pub recv : ℕ
  pub printing : Bool
  pub last : ℕ
  pub lsent : ℕ
  pub lrecv : ℕ
  pub printers : List Printer

-- NewMeter
abbrev pub new_meter : Meter
new_meter = record {
  sent = 0;
  recv = 0;
  printing = false;
  last = 0;
  lsent = 0;
  lrecv = 0;
  printers = [];
}

-- `print`, by the flag that CompareAndSwap finds
unfoldable pub print : Bool → Meter → Meter
print true m = m
print false m = record m { printing = true; printers = asleep ∷ m.printers }

-- `Read` of meterReader and `Write` of meterWriter
unfoldable pub meter_read : ℕ → Meter → Meter
unfolding print
meter_read n m = print m.printing (record m { recv = (m.recv + n) % 2 ^ 64 })

unfoldable pub meter_write : ℕ → Meter → Meter
unfolding print
meter_write n m = print m.printing (record m { sent = (m.sent + n) % 2 ^ 64 })

-- The next step of the latest goroutine, of those that are given: its loads, and its stores in one step with
-- the time that it took.
unfoldable pub goprint : ℕ → List Printer → Meter → Option Meter
goprint now [] m = none
goprint now (asleep ∷ rest) m = some (record m { printers = with_sent m.sent ∷ rest })
goprint now (with_sent s ∷ rest) m = some (record m { printers = with_both s m.recv ∷ rest })
goprint now (with_both s r ∷ rest) m =
    some (record m { lsent = s; lrecv = r; last = now; printing = false; printers = rest })

pub data Action : Type 0 where
  reads : ℕ → Action
  writes : ℕ → Action
  prints : ℕ → Action

unfoldable pub step : Action → Meter → Option Meter
unfolding meter_read meter_write goprint
step (reads n) m = some (meter_read n m)
step (writes n) m = some (meter_write n m)
step (prints now) m = goprint now m.printers m

pub data Reachable : Meter → Type 0 where
  begin : Reachable new_meter
  next : {m m' : Meter} (a : Action) → Reachable m → step a m ≡ some m' → Reachable m'
