-- ===== src/Client/Connect/Handshake.antt =====
-- What one connection does in which order, where it stops, and when it counts as connected.
use chisel_uds.Prelude.{
  ◌*◌, ◌^◌, ◌<◌, Text, codes, true, false, Option, none, some, [], ◌∷◌, ◌++◌, ltb, ◌≡◌, ◌≢◌, refl,
  arith, Bool-cases, inl, inr, subst, sym,
}
use chisel_uds.Prelude.Result.{Result, err, ok}
use chisel_uds.Client.Setup.{Url, Client, ProxyDialer, set_proxy}
use chisel_uds.Client.Connect.{
  Attempt, makes_context, dials, shakes_hands, sends_config, binds, closes_ssh, cancels_context,
  Once, failed, prepend, configure, handshake, dial_with, dial_by, dial, with_context,
  connection_once,
}

-- Where a connection that dials stops: at the first error on its way, with that error, or at the end of its
-- tunnel, behind an empty reply of the server. Behind the SSH handshake the SSH connection is closed.
pub data Course (a : Attempt) (d : Option ProxyDialer) : Once → Type 0 where
  not_dialled : {e : Text} → a.dial_error ≡ some e → Course a d (failed (dials d ∷ []) e)
  not_authenticated :
      {e : Text}
      → a.dial_error ≡ none
      → a.handshake_error ≡ some e
      → Course a d (failed (dials d ∷ shakes_hands ∷ []) e)
  not_sent :
      {e : Text}
      → a.dial_error ≡ none
      → a.handshake_error ≡ none
      → a.reply ≡ err e
      → Course a d (failed (dials d ∷ shakes_hands ∷ sends_config ∷ closes_ssh ∷ []) e)
  refused :
      {e : Text}
      → a.dial_error ≡ none
      → a.handshake_error ≡ none
      → a.reply ≡ ok e
      → e ≢ []
      → Course a d (failed (dials d ∷ shakes_hands ∷ sends_config ∷ closes_ssh ∷ []) e)
  tunnelled :
      a.dial_error ≡ none
      → a.handshake_error ≡ none
      → a.reply ≡ ok []
      → Course a d (record {
        calls = dials d ∷ shakes_hands ∷ sends_config ∷ binds ∷ closes_ssh ∷ [];
        connected = ltb (5 * 10 ^ 9) a.lasted;
        error = a.bind_error;
      })

-- the proxy's dialer, if the client has a proxy
pub data Prepared (socks_error : Option Text) : Option Url → Option ProxyDialer → Type 0 where
  direct : Prepared socks_error none none
  through :
      {p : Url} {d : ProxyDialer}
      → set_proxy socks_error p ≡ ok d
      → Prepared socks_error (some p) (some d)

-- Where the whole connection stops; what is behind the test of the context stands between the creation of
-- the connection's own context and its cancel.
pub data Ended (c : Client) (a : Attempt) : Once → Type 0 where
  at_once : a.cancelled ≡ true → Ended c a (failed [] (codes "Cancelled"))
  without_dialer :
      {p : Url} {e : Text}
      → a.cancelled ≡ false
      → c.proxy_url ≡ some p
      → set_proxy a.socks_error p ≡ err e
      → Ended c a (failed (makes_context ∷ cancels_context ∷ []) e)
  on_course :
      {d : Option ProxyDialer} {o : Once}
      → a.cancelled ≡ false
      → Prepared a.socks_error c.proxy_url d
      → Course a d o
      → Ended c a (record o { calls = makes_context ∷ o.calls ++ cancels_context ∷ [] })

-- What counts as connected, for where the connection stopped.
pub record IsOrderly (c : Client) (a : Attempt) (o : Once) : Type 0 where
  pub ended : Ended c a o
  pub ran : o.connected ≡ true → (a.reply ≡ ok []) × (5 * 10 ^ 9 < a.lasted)

course-ran :
    (a : Attempt) (d : Option ProxyDialer) (o : Once)
    → Course a d o
    → o.connected ≡ true
    → (a.reply ≡ ok []) × (5 * 10 ^ 9 < a.lasted)
course-ran a d o (not_dialled e) f = absurd (ground arith)
course-ran a d o (not_authenticated n e) f = absurd (ground arith)
course-ran a d o (not_sent n m e) f = absurd (ground arith)
course-ran a d o (refused n m e k) f = absurd (ground arith)
course-ran a d o (tunnelled n m e) f = (e, ground arith)

ended-ran :
    (c : Client) (a : Attempt) (o : Once)
    → Ended c a o
    → o.connected ≡ true
    → (a.reply ≡ ok []) × (5 * 10 ^ 9 < a.lasted)
ended-ran c a x (at_once t) f = absurd (ground arith)
ended-ran c a x (without_dialer t p e) f = absurd (ground arith)
ended-ran c a x (on_course {d} {o} t p k) f = course-ran a d o k f

configured-Course :
    (d : Option ProxyDialer) (a : Attempt) (r : Result Text Text)
    → a.dial_error ≡ none
    → a.handshake_error ≡ none
    → a.reply ≡ r
    → Course a d (prepend (dials d) (prepend shakes_hands (configure r a)))
unfolding prepend configure
configured-Course d a (err e) n m q = not_sent n m q
configured-Course d a (ok []) n m q = tunnelled n m q
configured-Course d a (ok (x ∷ rest)) n m q = refused n m q (λ e. absurd (ground arith))

shaken-Course :
    (d : Option ProxyDialer) (h : Option Text) (a : Attempt)
    → a.dial_error ≡ none
    → a.handshake_error ≡ h
    → Course a d (prepend (dials d) (handshake h a))
unfolding handshake prepend
shaken-Course d none a n q = configured-Course d a a.reply n q refl
shaken-Course d (some e) a n q = not_authenticated n q

dialled-Course :
    (e : Option Text) (d : Option ProxyDialer) (a : Attempt)
    → a.dial_error ≡ e
    → Course a d (dial_with e d a)
unfolding dial_with
dialled-Course none d a q = shaken-Course d a.handshake_error a q refl
dialled-Course (some e) d a q = not_dialled q

by_dialer-Ended :
    (c : Client) (a : Attempt) (p : Url) (r : Result Text ProxyDialer)
    → a.cancelled ≡ false
    → c.proxy_url ≡ some p
    → set_proxy a.socks_error p ≡ r
    → Ended c a (with_context (dial_by r a))
unfolding dial_by with_context
by_dialer-Ended c a p (err e) t u q = without_dialer t u q
by_dialer-Ended c a p (ok d) t u q =
    on_course t (subst (λ x. Prepared a.socks_error x (some d)) (sym u) (through q))
      (dialled-Course a.dial_error (some d) a refl)

dial-Ended :
    (c : Client) (a : Attempt) (p : Option Url)
    → a.cancelled ≡ false
    → c.proxy_url ≡ p
    → Ended c a (with_context (dial p a))
unfolding dial with_context
dial-Ended c a none t u =
    on_course t (subst (λ x. Prepared a.socks_error x none) (sym u) direct)
      (dialled-Course a.dial_error none a refl)
dial-Ended c a (some p) t u = by_dialer-Ended c a p (set_proxy a.socks_error p) t u refl

connection_once-Ended : (c : Client) (a : Attempt) → Ended c a (connection_once c a)
unfolding connection_once
connection_once-Ended c a = elim (Bool-cases a.cancelled) [
  | inl t ↦ subst (Ended c a) (rw (connection_once, t) refl) (at_once t)
  | inr t ↦ subst (Ended c a) (rw (connection_once, t) refl) (dial-Ended c a c.proxy_url t refl)
]

-- One connection stops at the first error on its way, and returns it: where its context is done already, at
-- the proxy, the dial, the SSH handshake, the sending of its configuration or the server's reply, in this
-- order; otherwise it runs its tunnel, and returns the tunnel's error. Behind the SSH handshake it closes
-- the SSH connection at each return, and behind the first test it cancels its own context last. It counts
-- as connected only if it ran its tunnel, and more than five seconds have passed at the end of the tunnel
-- since just before it sent its configuration.
pub connection_once-IsOrderly : (c : Client) (a : Attempt) → IsOrderly c a (connection_once c a)
connection_once-IsOrderly c a =
    let e = connection_once-Ended c a in
    record { ended = e; ran = ended-ran c a (connection_once c a) e }
