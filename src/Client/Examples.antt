-- ===== src/Client/Examples.antt =====
-- The theorems about retries with a backoff that only counts.
use chisel_uds.Prelude.{ℕ, ◌+◌, false, [], ◌∷◌, ◌≡◌, refl, arith}
use chisel_uds.Prelude.Int.{pos}
use chisel_uds.Client.{Backoff, Turn, gave_up, connection_loop}
use chisel_uds.Client.Retries.{gives_up}

abbrev counting : Backoff
counting = record {
  Counter = ℕ;
  attempt = λ b. b;
  reset = λ b. 0;
  next = λ b. b + 1;
  attempt_reset = λ b. refl;
  attempt_next = λ b. refl;
}

abbrev failing_turn : Turn
failing_turn = record { connected = false; cancelled = false }

gives_up_example :
    connection_loop counting (pos 1) 0 0 (failing_turn ∷ failing_turn ∷ failing_turn ∷ [])
    ≡ gave_up 2
gives_up_example =
    gives_up counting 1 0 (failing_turn ∷ failing_turn ∷ failing_turn ∷ []) refl
      ((refl, refl), ((refl, refl), ((refl, refl), tt))) (ground arith)
