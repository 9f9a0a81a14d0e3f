-- ===== src/Server/Session/Examples.antt =====
-- A session with one reverse remote whose SSH connection ends.
use chisel_uds.Prelude.{
  ◌+◌, ◌≤◌, Text, true, false, Option, some, List, [], ◌∷◌, ◌≡◌, refl, codes, arith,
}
use chisel_uds.Prelude.ErrGroup.{is_some, waits, returned}
use chisel_uds.Prelude.ErrGroup.Examples.{tally}
use chisel_uds.Settings.Remote.Types.{Remote, empty_remote}
use chisel_uds.Settings.Remote.Print.{reversed}
use chisel_uds.Tunnel.Running.{
  Running, unbound, start, wait, is_done, first_returns, binds, proxy_ends, unbinds, go_proxies,
  stay, onward,
}
use chisel_uds.Tunnel.Running.Counted.{CanStep}
use chisel_uds.Server.Session.{SshReturns, server_inbound, SessionRun, SessionRun-ends}

abbrev remotes : List Remote
remotes = empty_remote ∷ record empty_remote { reverse = true } ∷ []

abbrev ended : Running tally
ended = record {
  stopped = false;
  group = record { count = 0; first = some (codes "EOF") };
  connecting = false;
  binding = unbound;
}

ended-SessionRun : SessionRun tally remotes 4 [] ended
unfolding start go_proxies server_inbound reversed
ended-SessionRun =
    onward
      (onward
        (onward (onward stay (binds refl (omega arith)))
          (first_returns (some (codes "EOF")) refl refl))
        (proxy_ends refl (omega arith) refl))
      (unbinds refl refl)

SessionRun-ends_example :
    (4 ≤ 1 + 5)
    × (ended.connecting ≡ false → is_done tally ended ≡ true)
    × (is_done tally ended ≡ true → wait tally ended ≡ waits → CanStep tally SshReturns 1 ended)
    × ((w : Option Text) → wait tally ended ≡ returned w → is_some w ≡ true)
unfolding server_inbound reversed
SessionRun-ends_example = SessionRun-ends tally remotes ended 4 [] ended-SessionRun
