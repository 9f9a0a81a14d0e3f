-- ===== src/Cnet/Meter/Printers.antt =====
-- A meter prints from one goroutine at a time.
use chisel_uds.Prelude.{
  ℕ, ◌+◌, ◌%◌, ◌^◌, Bool, true, false, some, List, [], ◌∷◌, length, if◌then◌else◌, ◌≡◌, refl, arith,
  subst,
}
use chisel_uds.Cnet.Meter.{
  Printer, asleep, with_sent, with_both, Meter, print, meter_read, meter_write, goprint, Action,
  reads, writes, prints, step, Reachable, begin, next,
}

-- One goroutine runs while the flag is set, and none while it is not.
abbrev pub IsSingle : Meter → Type 0
IsSingle m = length m.printers ≡ (if m.printing then 1 else 0)

print-IsSingle : (b : Bool) (m : Meter) → m.printing ≡ b → IsSingle m → IsSingle (print b m)
unfolding print
print-IsSingle true m e s = s
print-IsSingle false m e s = ground arith

goprint-IsSingle :
    (now : ℕ) (l : List Printer) (m m' : Meter)
    → m.printers ≡ l
    → length l ≡ (if m.printing then 1 else 0)
    → goprint now l m ≡ some m'
    → IsSingle m'
unfolding goprint
goprint-IsSingle now [] m m' p s e = absurd (ground arith)
goprint-IsSingle now (asleep ∷ rest) m m' p s e =
    let q : record m { printers = with_sent m.sent ∷ rest } ≡ m' = cc in subst IsSingle q s
goprint-IsSingle now (with_sent x ∷ rest) m m' p s e =
    let q : record m { printers = with_both x m.recv ∷ rest } ≡ m' = cc in subst IsSingle q s
goprint-IsSingle now (with_both x y ∷ rest) m m' p s e =
    let q : record m { lsent = x; lrecv = y; last = now; printing = false; printers = rest } ≡ m' =
      cc in
    let n : length rest ≡ 0 = ground arith in subst IsSingle q n

step-IsSingle : (a : Action) (m m' : Meter) → step a m ≡ some m' → IsSingle m → IsSingle m'
unfolding step meter_read meter_write
step-IsSingle (reads n) m m' e s =
    let q : meter_read n m ≡ m' = cc in
    subst IsSingle q (print-IsSingle m.printing (record m { recv = (m.recv + n) % 2 ^ 64 }) refl s)
step-IsSingle (writes n) m m' e s =
    let q : meter_write n m ≡ m' = cc in
    subst IsSingle q (print-IsSingle m.printing (record m { sent = (m.sent + n) % 2 ^ 64 }) refl s)
step-IsSingle (prints now) m m' e s = goprint-IsSingle now m.printers m m' refl s e

-- In every interleaving of reads, writes and prints, one goroutine prints while the flag is set, and none
-- while it is not.
pub Reachable-IsSingle : {m : Meter} → Reachable m → IsSingle m
Reachable-IsSingle begin = refl
Reachable-IsSingle (next {m} {m'} a r e) = step-IsSingle a m m' e (Reachable-IsSingle r)
