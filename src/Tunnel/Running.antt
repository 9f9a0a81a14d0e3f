-- ===== src/Tunnel/Running.antt =====
-- The two functions that both ends run in one group: the first keeps the SSH connection
-- (client/client.go `Start` and server/server_handler.go `handleWebsocket`), the second is `BindRemotes`
-- of share/tunnel/tunnel.go, which runs the proxies in a group of its own. The package errgroup is a
-- parameter, and so is what the first function returns, which the two ends give.
pub mod Counted
use chisel_uds.Prelude.{
  ℕ, zero, suc, ◌+◌, ◌<◌, Text, Bool, true, false, Option, none, some, List, [], ◌∷◌, ◌++◌, ◌≡◌,
  ◌||◌,
}
use chisel_uds.Prelude.ErrGroup.{ErrGroup, Waiting, wait_for}

module _ (errgroup : ErrGroup) where
  open errgroup use {Group, with_context, go, returns, running, error, cancelled}

  -- How far the second function is: NewProxy for each remote, the group of the proxies, or returned
  pub data Binding : Type 0 where
    making : Binding
    bound : Group → Binding
    unbound : Binding

  -- `stopped`: the context above the group is cancelled.
  pub record Running : Type 0 where
    pub stopped : Bool
    pub group : Group
    pub connecting : Bool
    pub binding : Binding

  -- the two calls of eg.Go
  unfoldable pub start : Running
  start = record {
    stopped = false;
    group = go (go with_context);
    connecting = true;
    binding = making;
  }

  -- the cancellation of the context above
  unfoldable pub stop : Running → Running
  stop c = record c { stopped = true }

  -- eg.Wait
  unfoldable pub wait : Running → Waiting
  unfolding wait_for
  wait c = wait_for (running c.group) (error c.group)

  -- the context of the group
  abbrev pub is_done : Running → Bool
  is_done c = c.stopped || cancelled c.group

  -- the loop of `BindRemotes` over its proxies
  unfoldable pub go_proxies : ℕ → Group → Group
  go_proxies zero g = g
  go_proxies (suc n) g = go_proxies n (go g)

  -- the first function returns
  abbrev pub end_first : Option Text → Running → Running
  end_first e c = record c { connecting = false; group = returns e c.group }

  -- the second function returns
  abbrev pub end_binding : Option Text → Running → Running
  end_binding e c = record c { binding = unbound; group = returns e c.group }

  -- `FirstReturns d e`: the first function may return `e`, where `d` says whether the context of the group
  -- is done. There are `n` remotes to bind.
  module _ (FirstReturns : Bool → Option Text → Type 0) (n : ℕ) where
    -- One step of a goroutine, with the error that a proxy or its making ended with, if it did
    pub data Step (c : Running) : List Text → Running → Type 0 where
      is_stopped : c.stopped ≡ false → Step c [] (stop c)
      first_returns :
          (e : Option Text)
          → c.connecting ≡ true
          → FirstReturns (is_done c) e
          → Step c [] (end_first e c)
      has_none : c.binding ≡ making → n ≡ 0 → Step c [] (end_binding none c)
      cannot_bind :
          (e : Text) → c.binding ≡ making → 0 < n → Step c (e ∷ []) (end_binding (some e) c)
      binds :
          c.binding ≡ making
          → 0 < n
          → Step c [] (record c { binding = bound (go_proxies n with_context) })
      -- Proxy.Run returns an error, as runTCP and runUnix do when Accept fails
      proxy_fails :
          {g : Group} (e : Text)
          → c.binding ≡ bound g
          → 0 < running g
          → Step c (e ∷ []) (record c { binding = bound (returns (some e) g) })
      -- Proxy.Run returns nil since its context is done
      proxy_ends :
          {g : Group}
          → c.binding ≡ bound g
          → 0 < running g
          → (is_done c || cancelled g) ≡ true
          → Step c [] (record c { binding = bound (returns none g) })
      -- the run of a pair returns nil when its relay has ended
      pair_ends :
          {g : Group}
          → c.binding ≡ bound g
          → 0 < running g
          → Step c [] (record c { binding = bound (returns none g) })
      unbinds :
          {g : Group} → c.binding ≡ bound g → running g ≡ 0 → Step c [] (end_binding (error g) c)

    -- `k` steps, and the errors on the way
    pub data Run (c : Running) : ℕ → List Text → Running → Type 0 where
      stay : Run c 0 [] c
      onward :
          {d f : Running} {k : ℕ} {es fs : List Text}
          → Run c k es d
          → Step d fs f
          → Run c (suc k) (fs ++ es) f
