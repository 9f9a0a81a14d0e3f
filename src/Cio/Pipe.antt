-- ===== src/Cio/Pipe.antt =====
-- share/cio/pipe.go: `Pipe`, its two goroutines and its own, which run interleaved. What io.Copy moves,
-- and when it ends, is given.
pub mod Closes
pub mod Returns
use chisel_uds.Prelude.{ℕ, zero, suc, ◌+◌, ◌-◌, Bool, true, false, Option, none, some, ◌≡◌}

-- Where a goroutine is: in io.Copy, before o.Do(close), before wg.Done, or at its end
pub data Phase : Type 0 where
  copies copied closed finished : Phase

-- A goroutine, and how many bytes its io.Copy has moved
pub record Copy : Type 0 where
  pub phase : Phase
  pub count : ℕ

-- The sender copies from src to dst. `once` is the sync.Once; the calls of Close are counted; `waiting` is
-- the counter of the wait group; `result` is set when Pipe returns.
pub record Pipe : Type 0 where
  pub sender : Copy
  pub receiver : Copy
  pub once : Bool
  pub src_closes : ℕ
  pub dst_closes : ℕ
  pub waiting : ℕ
  pub result : Option (ℕ × ℕ)

abbrev pub start : Pipe
start = record {
  sender = record { phase = copies; count = 0 };
  receiver = record { phase = copies; count = 0 };
  once = false;
  src_closes = 0;
  dst_closes = 0;
  waiting = 2;
  result = none;
}

-- what a step of a goroutine does to the others
pub data Effect : Type 0 where
  quiet does_close is_done : Effect

pub data CopyStep (c : Copy) : Effect → Copy → Type 0 where
  moves : (n : ℕ) → c.phase ≡ copies → CopyStep c quiet (record c { count = c.count + n })
  ends : c.phase ≡ copies → CopyStep c quiet (record c { phase = copied })
  does : c.phase ≡ copied → CopyStep c does_close (record c { phase = closed })
  dones : c.phase ≡ closed → CopyStep c is_done (record c { phase = finished })

-- o.Do(close), by whether it was done before
unfoldable pub close_once : Bool → Pipe → Pipe
close_once true p = p
close_once false p = record p {
  once = true;
  src_closes = p.src_closes + 1;
  dst_closes = p.dst_closes + 1;
}

unfoldable pub apply : Effect → Pipe → Pipe
unfolding close_once
apply quiet p = p
apply does_close p = close_once p.once p
apply is_done p = record p { waiting = p.waiting - 1 }

pub data Step (p : Pipe) : Pipe → Type 0 where
  sends :
      {e : Effect} {c : Copy} → CopyStep p.sender e c → Step p (apply e (record p { sender = c }))
  receives :
      {e : Effect} {c : Copy}
      → CopyStep p.receiver e c
      → Step p (apply e (record p { receiver = c }))
  -- wg.Wait returns, and Pipe
  returns :
      p.waiting ≡ 0
      → p.result ≡ none
      → Step p (record p { result = some (p.sender.count, p.receiver.count) })

pub data Reachable : Pipe → Type 0 where
  begin : Reachable start
  next : {p q : Pipe} → Reachable p → Step p q → Reachable q
