-- ===== src/Server/Session.antt =====
-- server/server_handler.go: the end of handleWebsocket, behind the handshake. The two functions of the
-- session's group are BindSSH, which ends with an error when the SSH connection has ended or its context
-- is done, at the least io.EOF, and BindRemotes, if the client asked for reverse remotes.
mod Examples
use chisel_uds.Prelude.{
  ℕ, ◌+◌, ◌≤◌, Text, Bool, true, false, Option, none, some, List, [], ◌++◌, ◌≡◌, ◌||◌, refl, sym,
  ap, ◌∙◌, subst, arith, length, Bool-cases, or_true, inl, inr, if◌then◌else◌,
}
use chisel_uds.Prelude.ErrGroup.{ErrGroup, is_some, earlier-is_some, waits, returned}
use chisel_uds.Settings.Remote.Types.{Remote}
use chisel_uds.Settings.Remote.Print.{reversed}
use chisel_uds.Tunnel.Running.{
  Running, start, stop, wait, is_done, end_first, end_binding, Step, is_stopped, first_returns,
  has_none, cannot_bind, binds, proxy_fails, proxy_ends, pair_ends, unbinds, Run, stay, onward,
}
use chisel_uds.Tunnel.Running.Counted.{
  returned-eq, binds_yet, IsCounted, Run-bound, Run-IsCounted, CanStep, steps_on,
}

-- what BindSSH returns, whether or not its context is done
abbrev pub SshReturns : Bool → Option Text → Type 0
SshReturns done e = is_some e ≡ true

-- c.Remotes.Reversed(true)
unfoldable pub server_inbound : List Remote → List Remote
server_inbound remotes = reversed true remotes

module _ (errgroup : ErrGroup) where
  open errgroup use {Group, with_context, go, returns, running, error, cancelled}

  -- A session runs: some steps since both functions were started, with the errors of its proxies.
  abbrev pub SessionRun : List Remote → ℕ → List Text → Running errgroup → Type 0
  SessionRun remotes k es c =
      Run errgroup SshReturns (length (server_inbound remotes)) (start errgroup) k es c

  -- The group has an error, and has cancelled its context.
  abbrev HasFailed : Group → Type 0
  HasFailed g = (cancelled g ≡ true) × (is_some (error g) ≡ true)

  returns-HasFailed : (e : Option Text) (g : Group) → HasFailed g → HasFailed (returns e g)
  returns-HasFailed e g (c, f) = (
    errgroup.cancelled_returns e g ∙ ap (λ b. b || is_some e) c,
    ap is_some (errgroup.error_returns e g)
        ∙ earlier-is_some (error g) e
        ∙ ap (λ b. b || is_some e) f,
  )

  fails-HasFailed : (e : Option Text) (g : Group) → is_some e ≡ true → HasFailed (returns e g)
  fails-HasFailed e g s = (
    errgroup.cancelled_returns e g ∙ ap (λ b. cancelled g || b) s ∙ or_true (cancelled g),
    ap is_some (errgroup.error_returns e g)
        ∙ earlier-is_some (error g) e
        ∙ ap (λ b. is_some (error g) || b) s
        ∙ or_true (is_some (error g)),
  )

  -- Once BindSSH has returned the group has failed.
  abbrev Disconnects : Running errgroup → Type 0
  Disconnects c = c.connecting ≡ false → HasFailed c.group

  module _ (n : ℕ) where
    Step-Disconnects :
        (c d : Running errgroup) (fs : List Text)
        → Step errgroup SshReturns n c fs d
        → Disconnects c
        → Disconnects d
    unfolding stop
    Step-Disconnects c _ _ (is_stopped s) h = h
    Step-Disconnects c _ _ (first_returns e l f) h = λ q. fails-HasFailed e c.group f
    Step-Disconnects c _ _ (has_none b z) h = λ q. returns-HasFailed none c.group (h q)
    Step-Disconnects c _ _ (cannot_bind e b p) h = λ q. returns-HasFailed (some e) c.group (h q)
    Step-Disconnects c _ _ (binds b p) h = h
    Step-Disconnects c _ _ (proxy_fails e b p) h = h
    Step-Disconnects c _ _ (proxy_ends b p d) h = h
    Step-Disconnects c _ _ (pair_ends b p) h = h
    Step-Disconnects c _ _ (unbinds {g} b z) h = λ q. returns-HasFailed (error g) c.group (h q)

    Run-Disconnects :
        (c : Running errgroup) (k : ℕ) (es : List Text)
        → Run errgroup SshReturns n (start errgroup) k es c
        → Disconnects c
    unfolding start
    Run-Disconnects _ _ _ stay = λ q. absurd cc
    Run-Disconnects f _ _ (onward {d = d} {k = k} {es = es} {fs = fs} r s) =
        Step-Disconnects d f fs s (Run-Disconnects d k es r)

  disconnected :
      (c : Running errgroup) → running c.group ≡ 0 → IsCounted errgroup c → c.connecting ≡ false
  disconnected c z h = elim (Bool-cases c.connecting) [
    | inr l ↦ l
    | inl l ↦ absurd (ground (arith, h, l, z))
  ]

  -- A session with n reverse remotes takes at most n + 5 steps, whatever their order. When its SSH
  -- connection has ended, the context of its proxies is done; from then on some goroutine can step until
  -- the handler goes on behind the group; and what the group returns is an error.
  pub SessionRun-ends :
      (remotes : List Remote) (c : Running errgroup) (k : ℕ) (es : List Text)
      → SessionRun remotes k es c
      → let n = length (server_inbound remotes) in
        (k ≤ n + 5)
        × (c.connecting ≡ false → is_done errgroup c ≡ true)
        × (is_done errgroup c ≡ true → wait errgroup c ≡ waits → CanStep errgroup SshReturns n c)
        × ((w : Option Text) → wait errgroup c ≡ returned w → is_some w ≡ true)
  unfolding wait
  SessionRun-ends remotes c k es r =
      let n = length (server_inbound remotes) in
      let h = Run-IsCounted errgroup SshReturns n c k es r in
      let f = Run-Disconnects n c k es r in
      (
        Run-bound errgroup SshReturns n c k es r,
        λ q. ap (λ b. c.stopped || b) (f q).0 ∙ or_true c.stopped,
        λ d q. steps_on errgroup SshReturns n (some []) c refl h d q,
        λ w q.
            let (z, e) = returned-eq (running c.group) (error c.group) w q in
            ap is_some e ∙ (f (disconnected c z h)).1,
      )
