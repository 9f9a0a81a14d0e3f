-- ===== src/Tunnel/Running/Counted.antt =====
-- How many steps the two functions take at most, and that they end when their context is done.
use chisel_uds.Prelude.{
  ℕ, zero, suc, ◌+◌, ◌<◌, ◌≤◌, Text, Bool, true, Option, none, some, List, [], ◌≡◌, ◌≢◌, ◌⊎◌, inl,
  inr, refl, sym, ap, ◌∙◌, subst, arith, ◌||◌, if◌then◌else◌, Bool-cases,
}
use chisel_uds.Prelude.ErrGroup.{ErrGroup, waits, returned, wait_for}
use chisel_uds.Tunnel.Running.{
  Binding, making, bound, unbound, Running, start, stop, wait, is_done, go_proxies, end_binding,
  Step, is_stopped, first_returns, has_none, cannot_bind, binds, proxy_fails, proxy_ends, pair_ends,
  unbinds, Run, stay, onward,
}

pub returned-eq : (m : ℕ) (e w : Option Text) → wait_for m e ≡ returned w → (m ≡ 0) × (w ≡ e)
unfolding wait_for
returned-eq zero e w h = (refl, cc)
returned-eq (suc m) e w h = absurd cc

module _ (errgroup : ErrGroup) where
  open errgroup use {Group, with_context, go, returns, running, error, cancelled}

  running-go_proxies : (n : ℕ) (g : Group) → running (go_proxies errgroup n g) ≡ running g + n
  unfolding go_proxies
  running-go_proxies zero g = ground arith
  running-go_proxies (suc n) g = running-go_proxies n (go g) ∙ ground (arith, errgroup.running_go g)

  abbrev pub binds_yet : Binding errgroup → ℕ
  binds_yet making = 1
  binds_yet (bound g) = 1
  binds_yet unbound = 0

  -- The group runs the functions that have not returned.
  abbrev pub IsCounted : Running errgroup → Type 0
  IsCounted c = running c.group ≡ (if c.connecting then 1 else 0) + binds_yet c.binding

  module _ (FirstReturns : Bool → Option Text → Type 0) (n : ℕ) where
    abbrev binding_steps : Binding errgroup → ℕ
    binding_steps making = n + 3
    binding_steps (bound g) = running g + 1
    binding_steps unbound = 0

    -- how many steps are left at most
    abbrev left : Running errgroup → ℕ
    left c =
        (if c.stopped then 0 else 1) + (if c.connecting then 1 else 0) + binding_steps c.binding

    Step-left :
        (c d : Running errgroup) (es : List Text)
        → Step errgroup FirstReturns n c es d
        → left d < left c
    unfolding stop
    Step-left c _ _ (is_stopped s) = ground arith
    Step-left c _ _ (first_returns e l d) = ground arith
    Step-left c _ _ (has_none b z) = rw b (ground arith)
    Step-left c _ _ (cannot_bind e b p) = rw b (ground arith)
    Step-left c _ _ (binds b p) =
        rw (b, running-go_proxies n with_context, errgroup.running_with_context) (ground arith)
    Step-left c _ _ (proxy_fails {g} e b p) =
        rw (b, errgroup.running_returns (some e) g) (ground arith)
    Step-left c _ _ (proxy_ends {g} b p d) = rw (b, errgroup.running_returns none g) (ground arith)
    Step-left c _ _ (pair_ends {g} b p) = rw (b, errgroup.running_returns none g) (ground arith)
    Step-left c _ _ (unbinds b z) = rw b (ground arith)

    Run-left :
        (c d : Running errgroup) (k : ℕ) (es : List Text)
        → Run errgroup FirstReturns n c k es d
        → k + left d ≤ left c
    Run-left c _ _ _ stay = ground arith
    Run-left c f _ _ (onward {d = d} {k = k} {es = es} {fs = fs} r s) =
        ground (arith, Run-left c d k es r, Step-left d f fs s)

    -- A run takes at most n + 5 steps.
    pub Run-bound :
        (c : Running errgroup) (k : ℕ) (es : List Text)
        → Run errgroup FirstReturns n (start errgroup) k es c
        → k ≤ n + 5
    unfolding start
    Run-bound c k es r = ground (arith, Run-left (start errgroup) c k es r)

    end_binding-IsCounted :
        (c : Running errgroup) (o : Option Text)
        → binds_yet c.binding ≡ 1
        → IsCounted c
        → IsCounted (end_binding errgroup o c)
    end_binding-IsCounted c o y h = errgroup.running_returns o c.group ∙ ground (arith, h, y)

    Step-IsCounted :
        (c d : Running errgroup) (fs : List Text)
        → Step errgroup FirstReturns n c fs d
        → IsCounted c
        → IsCounted d
    unfolding stop
    Step-IsCounted c _ _ (is_stopped s) h = h
    Step-IsCounted c _ _ (first_returns e l d) h =
        errgroup.running_returns e c.group ∙ ground (arith, h)
    Step-IsCounted c _ _ (has_none b z) h = end_binding-IsCounted c none (ap binds_yet b) h
    Step-IsCounted c _ _ (cannot_bind e b p) h = end_binding-IsCounted c (some e) (ap binds_yet b) h
    Step-IsCounted c _ _ (binds b p) h = h ∙ ground (arith, ap binds_yet b)
    Step-IsCounted c _ _ (proxy_fails {g} e b p) h = h ∙ ground (arith, ap binds_yet b)
    Step-IsCounted c _ _ (proxy_ends {g} b p d) h = h ∙ ground (arith, ap binds_yet b)
    Step-IsCounted c _ _ (pair_ends {g} b p) h = h ∙ ground (arith, ap binds_yet b)
    Step-IsCounted c _ _ (unbinds {g} b z) h = end_binding-IsCounted c (error g) (ap binds_yet b) h

    start-IsCounted : IsCounted (start errgroup)
    unfolding start
    start-IsCounted =
        errgroup.running_go (go with_context)
        ∙ ground (arith, errgroup.running_go with_context, errgroup.running_with_context)

    pub Run-IsCounted :
        (c : Running errgroup) (k : ℕ) (es : List Text)
        → Run errgroup FirstReturns n (start errgroup) k es c
        → IsCounted c
    Run-IsCounted _ _ _ stay = start-IsCounted
    Run-IsCounted f _ _ (onward {d = d} {k = k} {es = es} {fs = fs} r s) =
        Step-IsCounted d f fs s (Run-IsCounted d k es r)

    -- A step that some goroutine can make
    abbrev pub CanStep : Running errgroup → Type 0
    CanStep c = (fs : List Text) × (d : Running errgroup) × Step errgroup FirstReturns n c fs d

    positive-cases : (m : ℕ) → (m ≡ 0) ⊎ (0 < m)
    positive-cases zero = inl refl
    positive-cases (suc m) = inr (ground arith)

    binding_steps_on :
        (c : Running errgroup) (b : Binding errgroup)
        → c.binding ≡ b
        → is_done errgroup c ≡ true
        → binds_yet b ≢ 0
        → CanStep c
    binding_steps_on c making e d y = elim (positive-cases n) [
      | inl z ↦ ([], _, has_none e z)
      | inr p ↦ ([], _, binds e p)
    ]
    binding_steps_on c (bound g) e d y = elim (positive-cases (running g)) [
      | inl z ↦ ([], _, unbinds e z)
      | inr p ↦ ([], _, proxy_ends e p (ap (λ x. x || cancelled g) d))
    ]
    binding_steps_on c unbound e d y = absurd (y refl)

    wait_for-suc : (m : ℕ) (e : Option Text) → wait_for m e ≡ waits → m ≢ 0
    unfolding wait_for
    wait_for-suc zero e h = absurd cc
    wait_for-suc (suc m) e h = ground arith

    -- If the first function returns when its context is done, then somebody can step until Wait returns.
    pub steps_on :
        (e : Option Text) (c : Running errgroup)
        → FirstReturns true e
        → IsCounted c
        → is_done errgroup c ≡ true
        → wait errgroup c ≡ waits
        → CanStep c
    unfolding wait
    steps_on e c f h d w = elim (Bool-cases c.connecting) [
      | inl l ↦ ([], _, first_returns e l (subst (λ b. FirstReturns b e) (sym d) f))
      | inr l ↦
          binding_steps_on c c.binding refl d
            (λ z. wait_for-suc (running c.group) (error c.group) w (h ∙ ground (arith, l, z)))
    ]
