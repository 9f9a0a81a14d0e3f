-- ===== src/Client/Lifecycle/Examples.antt =====
-- A client with two remotes whose first proxy fails, and one that gives up without remotes.
use chisel_uds.Prelude.{
  ◌+◌, ◌≤◌, Text, true, false, Option, none, some, List, [], ◌∷◌, ◌≡◌, refl, codes, arith,
}
use chisel_uds.Prelude.ErrGroup.{waits, returned, wait_for}
use chisel_uds.Prelude.ErrGroup.Examples.{tally}
use chisel_uds.Settings.Remote.Types.{Remote, empty_remote}
use chisel_uds.Settings.Remote.Print.{reversed}
use chisel_uds.Tunnel.Running.{
  Running, unbound, bound, start, stop, wait, is_done, is_stopped, first_returns, has_none, binds,
  proxy_fails, proxy_ends, go_proxies, stay, onward,
}
use chisel_uds.Tunnel.Running.Counted.{CanStep}
use chisel_uds.Client.Lifecycle.{LoopReturns, client_inbound, ClientRun, close}
use chisel_uds.Client.Lifecycle.Ends.{oldest, ClientRun-ends}

abbrev two_remotes : List Remote
two_remotes = empty_remote ∷ record empty_remote { reverse = true } ∷ empty_remote ∷ []

abbrev broken : Text
broken = codes "accept: broken"

-- after the end of the first proxy and of the second, which sees that the group is cancelled
abbrev failing : Running tally
failing = record {
  stopped = false;
  group = record { count = 2; first = none };
  connecting = true;
  binding = bound (record { count = 0; first = some broken });
}

failing-ClientRun : ClientRun tally two_remotes 3 (broken ∷ []) failing
unfolding start go_proxies client_inbound reversed
failing-ClientRun =
    onward (onward (onward stay (binds refl (omega arith))) (proxy_fails broken refl (omega arith)))
      (proxy_ends refl (omega arith) refl)

ClientRun-ends_example :
    (3 ≤ 2 + 5)
    × (is_done tally failing ≡ true
        → wait tally failing ≡ waits
        → CanStep tally LoopReturns 2 failing)
    × ((w : Option Text) → wait tally failing ≡ returned w → w ≡ oldest (broken ∷ []))
unfolding client_inbound reversed
ClientRun-ends_example = ClientRun-ends tally two_remotes failing 3 (broken ∷ []) failing-ClientRun

-- A client that gives up calls Close, and returns nil.
abbrev given_up : Running tally
given_up = record {
  stopped = true;
  group = record { count = 0; first = none };
  connecting = false;
  binding = unbound;
}

given_up-ClientRun : ClientRun tally [] 3 [] given_up
unfolding start stop client_inbound reversed
given_up-ClientRun =
    onward (onward (onward stay (has_none refl refl)) (is_stopped refl))
      (first_returns none refl (refl, refl))

gives_nil : wait tally given_up ≡ returned none
unfolding wait wait_for
gives_nil = refl

closes : (close tally (start tally)).stopped ≡ true
unfolding close stop
closes = refl
