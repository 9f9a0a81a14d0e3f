-- ===== src/Client/Retries.antt =====
-- When the client gives up.
use chisel_uds.Prelude.{
  ℕ, zero, suc, ◌+◌, false, List, [], ◌∷◌, ◌≡◌, ◌≢◌, arith, if◌then◌else◌, All, length, ◌<◌,
}
use chisel_uds.Prelude.Int.{pos, negsuc}
use chisel_uds.Client.{Backoff, Turn, gave_up, connection_loop}

-- a turn that neither connects nor is cancelled
abbrev pub Fails : Turn → Type 0
Fails t = (t.connected ≡ false) × (t.cancelled ≡ false)

module _ (backoff : Backoff) where
  open backoff use {Counter, attempt, reset, next, attempt_next}

  gives_up_after :
      (n calls left : ℕ) (b : Counter) (turns : List Turn)
      → All Fails turns
      → left < length turns
      → attempt b + left ≡ n
      → connection_loop backoff (pos n) calls b turns ≡ gave_up (calls + left + 1)
  unfolding connection_loop
  gives_up_after n calls left b [] h l e = absurd (ground arith)
  gives_up_after n calls zero b (t ∷ rest) h l e = rw (connection_loop, h.0.0, h.0.1) (ground arith)
  gives_up_after n calls (suc left) b (t ∷ rest) h l e =
      rw (connection_loop, h.0.0, h.0.1)
        (ground (
          arith,
          attempt_next b,
          gives_up_after n (calls + 1) left (next b) rest h.1 (ground arith)
              (ground (arith, attempt_next b)),
        ))

  -- If no turn connects and none is cancelled, a client with a limit of `n` retries gives up after `n + 1`
  -- calls, when the loop starts with a counter that was not used.
  pub gives_up :
      (n : ℕ) (b : Counter) (turns : List Turn)
      → attempt b ≡ 0
      → All Fails turns
      → n < length turns
      → connection_loop backoff (pos n) 0 b turns ≡ gave_up (n + 1)
  gives_up n b turns z h l = ground (arith, gives_up_after n 0 n b turns h l (ground arith))

  -- Without a limit the loop never gives up.
  pub never_gives_up :
      (k calls n : ℕ) (b : Counter) (turns : List Turn)
      → connection_loop backoff (negsuc k) calls b turns ≢ gave_up n
  unfolding connection_loop
  never_gives_up k calls n b [] e = absurd cc
  never_gives_up k calls n b (t ∷ rest) e =
      never_gives_up k (calls + 1) n (next (if t.connected then reset b else b)) rest (ground arith)
