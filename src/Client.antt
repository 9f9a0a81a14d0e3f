-- ===== src/Client.antt =====
-- client/client_connect.go: `connectionLoop`, which connects again and again.
-- The package `backoff` is a parameter; `connectionOnce` and the wait are what they came to.
pub mod Retries
pub mod Setup
pub mod Connect
pub mod Lifecycle
mod Examples
use chisel_uds.Prelude.{
  ℕ, ◌+◌, Text, Bool, true, false, Option, none, some, List, [], ◌∷◌, ◌≡◌, leb, if◌then◌else◌,
}
use chisel_uds.Prelude.Int.{ℤ, pos, negsuc}

-- A backoff counts its attempts: none after a reset, one more after each duration that it gives.
pub record Backoff : Type 1 where
  pub Counter : Type 0
  pub attempt : Counter → ℕ
  pub reset : Counter → Counter
  pub next : Counter → Counter
  pub attempt_reset : (b : Counter) → attempt (reset b) ≡ 0
  pub attempt_next : (b : Counter) → attempt (next b) ≡ attempt b + 1

-- One turn of the loop: whether `connectionOnce` was connected for long enough, and whether the context is
-- done during the wait.
pub record Turn : Type 0 where
  pub connected : Bool
  pub cancelled : Bool

-- How the loop ends, and after how many calls of `connectionOnce`; `looping` if the turns run out.
pub data LoopEnd : Type 0 where
  gave_up : ℕ → LoopEnd
  stopped : ℕ → LoopEnd
  looping : ℕ → LoopEnd

-- maxAttempt >= 0 && attempt >= maxAttempt
unfoldable pub exhausted : ℤ → ℕ → Bool
exhausted (pos n) attempt = leb n attempt
exhausted (negsuc n) attempt = false

module _ (backoff : Backoff) where
  open backoff use {Counter, attempt, reset, next}

  -- `calls` counts the calls of `connectionOnce` so far.
  unfoldable pub connection_loop : ℤ → ℕ → Counter → List Turn → LoopEnd
  unfolding exhausted
  connection_loop max_attempt calls b [] = looping calls
  connection_loop max_attempt calls b (turn ∷ rest) =
      let b' = if turn.connected then reset b else b in
      let later = connection_loop max_attempt (calls + 1) (next b') rest in
      if exhausted max_attempt (attempt b')
      then gave_up (calls + 1)
      else if turn.cancelled
      then stopped (calls + 1)
      else later
