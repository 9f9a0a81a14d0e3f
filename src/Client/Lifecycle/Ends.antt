-- ===== src/Client/Lifecycle/Ends.antt =====
-- A client that is closed ends, and what it then returns.
use chisel_uds.Prelude.{
  ℕ, zero, suc, ◌+◌, ◌≤◌, Text, true, Option, none, some, List, [], ◌∷◌, ◌++◌, ◌≡◌, refl, sym, ap,
  ◌∙◌, subst, arith, length,
}
use chisel_uds.Prelude.ErrGroup.{ErrGroup, earlier, waits, returned}
use chisel_uds.Settings.Remote.Types.{Remote}
use chisel_uds.Tunnel.Running.{
  Binding, making, bound, unbound, Running, start, stop, wait, is_done, go_proxies, end_binding,
  Step, is_stopped, first_returns, has_none, cannot_bind, binds, proxy_fails, proxy_ends, pair_ends,
  unbinds, Run, stay, onward,
}
use chisel_uds.Tunnel.Running.Counted.{
  returned-eq, binds_yet, IsCounted, Run-bound, Run-IsCounted, CanStep, steps_on,
}
use chisel_uds.Client.Lifecycle.{LoopReturns, client_inbound, ClientRun}

-- the error that came first, of a list that has the newest first
abbrev pub oldest : List Text → Option Text
oldest [] = none
oldest (e ∷ es) = earlier (oldest es) (some e)

module _ (errgroup : ErrGroup) where
  open errgroup use {Group, with_context, go, returns, running, error}

  -- The first error so far is where the second function is.
  abbrev HasErrors : List Text → Binding errgroup → Option Text → Type 0
  HasErrors es making o = (es ≡ []) × (o ≡ none)
  HasErrors es (bound g) o = (error g ≡ oldest es) × (o ≡ none)
  HasErrors es unbound o = o ≡ oldest es

  abbrev HasError : List Text → Running errgroup → Type 0
  HasError es c = HasErrors es c.binding (error c.group)

  error-returns-none : (g : Group) → error (returns none g) ≡ error g
  error-returns-none g = errgroup.error_returns none g ∙ same (error g)
    where
      same : (o : Option Text) → earlier o none ≡ o
      same none = refl
      same (some e) = refl

  error-go_proxies : (m : ℕ) (g : Group) → error (go_proxies errgroup m g) ≡ error g
  unfolding go_proxies
  error-go_proxies zero g = refl
  error-go_proxies (suc m) g = error-go_proxies m (go g) ∙ errgroup.error_go g

  errors_at :
      (c : Running errgroup) (es : List Text) (b : Binding errgroup)
      → c.binding ≡ b
      → HasError es c
      → HasErrors es b (error c.group)
  errors_at c es b q h = subst (λ x. HasErrors es x (error c.group)) q h

  end_binding-HasError :
      (c : Running errgroup) (fs : List Text) (o : Option Text)
      → error c.group ≡ none
      → o ≡ oldest fs
      → HasError fs (end_binding errgroup o c)
  end_binding-HasError c fs o f q = errgroup.error_returns o c.group ∙ ap (λ x. earlier x o) f ∙ q

  -- A proxy returns nil.
  nil-HasError :
      (c : Running errgroup) (es : List Text) (g : Group)
      → c.binding ≡ bound g
      → HasError es c
      → HasError es (record c { binding = bound (returns none g) })
  nil-HasError c es g b h =
      let (q, f) = errors_at c es (bound g) b h in (error-returns-none g ∙ q, f)

  module _ (n : ℕ) where
    Step-HasError :
        (c d : Running errgroup) (es fs : List Text)
        → Step errgroup LoopReturns n c fs d
        → HasError es c
        → HasError (fs ++ es) d
    unfolding stop
    Step-HasError c _ es _ (is_stopped s) h = h
    Step-HasError c _ es _ (first_returns e l (d, z)) h =
        subst (HasErrors es c.binding)
          (sym (ap (λ x. error (returns x c.group)) z ∙ error-returns-none c.group)) h
    Step-HasError c _ es _ (has_none b z) h =
        let (q, f) = errors_at c es making b h in
        end_binding-HasError c es none f (ap oldest (sym q))
    Step-HasError c _ es _ (cannot_bind e b p) h =
        let (q, f) = errors_at c es making b h in
        end_binding-HasError c (e ∷ es) (some e) f (ap (λ l. earlier (oldest l) (some e)) (sym q))
    Step-HasError c _ es _ (binds b p) h =
        let (q, f) = errors_at c es making b h in
        (error-go_proxies n with_context ∙ errgroup.error_with_context ∙ ap oldest (sym q), f)
    Step-HasError c _ es _ (proxy_fails {g} e b p) h =
        let (q, f) = errors_at c es (bound g) b h in
        (errgroup.error_returns (some e) g ∙ ap (λ o. earlier o (some e)) q, f)
    Step-HasError c _ es _ (proxy_ends {g} b p d) h = nil-HasError c es g b h
    Step-HasError c _ es _ (pair_ends {g} b p) h = nil-HasError c es g b h
    Step-HasError c _ es _ (unbinds {g} b z) h =
        let (q, f) = errors_at c es (bound g) b h in end_binding-HasError c es (error g) f q

    start-HasError : HasError [] (start errgroup)
    unfolding start
    start-HasError = (
      refl,
      errgroup.error_go (go with_context)
          ∙ errgroup.error_go with_context
          ∙ errgroup.error_with_context,
    )

    Run-HasError :
        (c : Running errgroup) (k : ℕ) (es : List Text)
        → Run errgroup LoopReturns n (start errgroup) k es c
        → HasError es c
    Run-HasError _ _ _ stay = start-HasError
    Run-HasError f _ _ (onward {d = d} {k = k} {es = es} {fs = fs} r s) =
        Step-HasError d f es fs s (Run-HasError d k es r)

  result :
      (c : Running errgroup) (es : List Text) (w : Option Text)
      → IsCounted errgroup c
      → HasError es c
      → wait errgroup c ≡ returned w
      → w ≡ oldest es
  unfolding wait
  result c es w h f q =
      let (z, e) = returned-eq (running c.group) (error c.group) w q in
      e ∙ at_end c.binding f (ground (arith, h, z))
    where
      at_end :
          (b : Binding errgroup)
          → HasErrors es b (error c.group)
          → binds_yet errgroup b ≡ 0
          → error c.group ≡ oldest es
      at_end making f y = absurd (ground arith)
      at_end (bound g) f y = absurd (ground arith)
      at_end unbound f y = f

  -- A client with n remotes to bind takes at most n + 5 steps, whatever their order. Once it was closed,
  -- its caller's context is done or BindRemotes has failed, some goroutine can step until Wait returns;
  -- and what Wait returns is the first error of a proxy, nil if there was none.
  pub ClientRun-ends :
      (remotes : List Remote) (c : Running errgroup) (k : ℕ) (es : List Text)
      → ClientRun errgroup remotes k es c
      → let n = length (client_inbound remotes) in
        (k ≤ n + 5)
        × (is_done errgroup c ≡ true → wait errgroup c ≡ waits → CanStep errgroup LoopReturns n c)
        × ((w : Option Text) → wait errgroup c ≡ returned w → w ≡ oldest es)
  ClientRun-ends remotes c k es r =
      let n = length (client_inbound remotes) in
      let h = Run-IsCounted errgroup LoopReturns n c k es r in
      (
        Run-bound errgroup LoopReturns n c k es r,
        λ d q. steps_on errgroup LoopReturns n none c (refl, refl) h d q,
        λ w q. result c es w h (Run-HasError n c k es r) q,
      )
