-- ===== src/Client/Lifecycle.antt =====
-- client/client.go: `Start`, `Wait`, `Close` and `Run`. Of the two functions of the client's group
-- connectionLoop never returns an error: it returns nil when it was cancelled, or when it has given up, and
-- then it has called Close before. The second function is BindRemotes, if there are remotes to bind.
pub mod Ends
mod Examples
use chisel_uds.Prelude.{ℕ, Text, Bool, true, false, Option, none, List, length, ◌≡◌}
use chisel_uds.Prelude.ErrGroup.{ErrGroup, Waiting}
use chisel_uds.Settings.Remote.Types.{Remote}
use chisel_uds.Settings.Remote.Print.{reversed}
use chisel_uds.Tunnel.Running.{Running, start, stop, wait, Run}

-- what connectionLoop returns, by whether its context is done
abbrev pub LoopReturns : Bool → Option Text → Type 0
LoopReturns done e = (done ≡ true) × (e ≡ none)

-- c.computed.Remotes.Reversed(false)
unfoldable pub client_inbound : List Remote → List Remote
client_inbound remotes = reversed false remotes

module _ (errgroup : ErrGroup) where
  -- `Close` of a client that was started
  unfoldable pub close : Running errgroup → Running errgroup
  close c = stop errgroup c

  -- A client runs: it has taken some steps since its `Start`, with the errors of its proxies on the way.
  abbrev pub ClientRun : List Remote → ℕ → List Text → Running errgroup → Type 0
  ClientRun remotes k es c =
      Run errgroup LoopReturns (length (client_inbound remotes)) (start errgroup) k es c
