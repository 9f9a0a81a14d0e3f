-- ===== src/Cio/Pipe/Returns.antt =====
-- That a pipe whose copies have ended returns.
use chisel_uds.Prelude.{ℕ, ◌+◌, ◌<◌, Bool, true, false, none, some, ◌≡◌, ◌≢◌, refl, arith}
use chisel_uds.Cio.Pipe.{
  Phase, copies, copied, closed, finished, Pipe, does, dones, close_once, apply, Step, moves, ends,
  sends, receives, returns, Reachable,
}
use chisel_uds.Cio.Pipe.Closes.{unfinished, Reachable-IsPiped}

-- how many steps a goroutine has left, besides the moves of io.Copy
abbrev phases_left : Phase → ℕ
phases_left copies = 3
phases_left copied = 2
phases_left closed = 1
phases_left finished = 0

-- how many steps a pipe has left, besides those moves
abbrev pub left : Pipe → ℕ
left p =
    phases_left p.sender.phase
    + phases_left p.receiver.phase
    + (elim p.result [ none ↦ 1 | some r ↦ 0 ])

-- A pipe that can step, and that each of its steps brings nearer to its return
abbrev pub GoesOn : Pipe → Type 0
GoesOn p = ((q : Pipe) × Step p q) × ((q : Pipe) → Step p q → left q < left p)

close_once-left : (o : Bool) (p : Pipe) → left (close_once o p) ≡ left p
unfolding close_once
close_once-left true p = refl
close_once-left false p = refl

enabled :
    (p : Pipe) (s r : Phase)
    → p.sender.phase ≡ s
    → p.receiver.phase ≡ r
    → s ≢ copies
    → r ≢ copies
    → p.waiting ≡ unfinished s + unfinished r
    → p.result ≡ none
    → (q : Pipe) × Step p q
enabled p copies r e f u v w n = absurd (u refl)
enabled p copied r e f u v w n = (_, sends (does e))
enabled p closed r e f u v w n = (_, sends (dones e))
enabled p finished copies e f u v w n = absurd (v refl)
enabled p finished copied e f u v w n = (_, receives (does f))
enabled p finished closed e f u v w n = (_, receives (dones f))
enabled p finished finished e f u v w n = (_, returns w n)

nearer :
    (p q : Pipe) → p.sender.phase ≢ copies → p.receiver.phase ≢ copies → Step p q → left q < left p
unfolding apply
nearer p q u v (sends (moves k e)) = absurd (u e)
nearer p q u v (sends (ends e)) = absurd (u e)
nearer p q u v (sends (does e)) =
    ground
      (arith, close_once-left p.once (record p { sender = record p.sender { phase = closed } }))
nearer p q u v (sends (dones e)) = ground arith
nearer p q u v (receives (moves k e)) = absurd (v e)
nearer p q u v (receives (ends e)) = absurd (v e)
nearer p q u v (receives (does e)) =
    ground
      (arith, close_once-left p.once (record p { receiver = record p.receiver { phase = closed } }))
nearer p q u v (receives (dones e)) = ground arith
nearer p q u v (returns w n) = ground arith

-- Once both calls of io.Copy have returned, a pipe that has not returned can step, and each of its steps
-- brings it nearer to its return: no goroutine waits for another for ever.
pub goes_on :
    (p : Pipe)
    → Reachable p
    → p.result ≡ none
    → p.sender.phase ≢ copies
    → p.receiver.phase ≢ copies
    → GoesOn p
goes_on p r n s t = (
  enabled p p.sender.phase p.receiver.phase refl refl s t (Reachable-IsPiped p r).waiting_eq n,
  λ q. nearer p q s t,
)
