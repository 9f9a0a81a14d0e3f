-- ===== src/Client/Setup/Remotes.antt =====
-- Which lists of remotes NewClient takes, and what it makes of them.
use chisel_uds.Prelude.{
  ℕ, ◌+◌, ◌≤◌, Text, Bool, true, false, not, ◌||◌, Option, List, [], ◌∷◌, if◌then◌else◌, ◌≡◌, ◌↔◌,
  refl, arith, All, keep_cons, any, ap, subst, ◌∙◌,
}
use chisel_uds.Prelude.Result.{Result, ok, ◌>>=◌, bind_ok}
use chisel_uds.Settings.Remote.Types.{Remote}
use chisel_uds.Settings.Remote.Print.{can_listen, reversed, same_direction}
use chisel_uds.Client.Setup.{
  Config, Url, SetupError, TlsConf, Client, System, decoded, check_remote, check_remotes,
  make_client, proxy_url_of, server_of, tls_conf_of, from_proxy, from_remotes, from_tls, new_client,
}

abbrev as_ℕ : Bool → ℕ
as_ℕ b = if b then 1 else 0

unfoldable pub stdios : List Remote → ℕ
stdios [] = 0
stdios (r ∷ rest) = as_ℕ r.stdio + stdios rest

module _ (sys : System) where
  -- The remotes are what the texts decode to, in their order.
  unfoldable pub Decodes : List Text → List Remote → Type 0
  Decodes [] [] = Unit
  Decodes (s ∷ ss) (r ∷ rs) = (decoded sys s ≡ ok r) × Decodes ss rs
  Decodes [] (r ∷ rs) = ⊥
  Decodes (s ∷ ss) [] = ⊥

  -- The remote is reversed, takes the standard streams, or can be listened on.
  abbrev pub IsUsable : Remote → Type 0
  IsUsable r = (r.reverse || (r.stdio || can_listen sys.host r)) ≡ true

  check_remote_ok :
      (b : Bool) (r : Remote) (u : Unit {0})
      → check_remote sys b r ≡ ok u
      → (as_ℕ r.stdio + as_ℕ b ≤ 1) × IsUsable r
  unfolding check_remote
  check_remote_ok b r u e = (ground arith, ground arith)

  check_remote_passes :
      (b : Bool) (r : Remote)
      → as_ℕ r.stdio + as_ℕ b ≤ 1
      → IsUsable r
      → check_remote sys b r ≡ ok tt
  unfolding check_remote
  check_remote_passes b r n us = ground arith

  -- A flag that is set counts as one remote that was seen.
  as_ℕ-or : (a b : Bool) (n : ℕ) → as_ℕ a + as_ℕ b ≤ 1 → as_ℕ (b || a) + n ≡ as_ℕ b + (as_ℕ a + n)
  as_ℕ-or a b n h = ground arith

  -- the loop behind the checks of a remote
  rest_ok : Remote → Result SetupError (List Remote) → Result SetupError (List Remote)
  rest_ok r later = later >>= (λ rs. ok (r ∷ rs))

  check_remotes_sound :
      (b : Bool) (ss : List Text) (rs : List Remote)
      → check_remotes sys b ss ≡ ok rs
      → Decodes ss rs × (as_ℕ b + stdios rs ≤ 1) × All IsUsable rs
  unfolding check_remotes Decodes stdios
  check_remotes_sound b [] [] e = (tt, (ground arith), tt)
  check_remotes_sound b [] (r ∷ rs) e = absurd (ground arith)
  check_remotes_sound b (s ∷ ss) rs' e =
      let (r, d, e1) =
        bind_ok (decoded sys s)
          (λ r. check_remote sys b r >>= (λ (_ : Unit {0}).
            check_remotes sys (b || r.stdio) ss >>= (λ (rs : List Remote). ok (r ∷ rs))))
          rs' e in
      let (u, k, e2) =
        bind_ok (check_remote sys b r)
          (λ (_ : Unit {0}).
            check_remotes sys (b || r.stdio) ss >>= (λ (rs : List Remote). ok (r ∷ rs)))
          rs' e1 in
      let (rs, l, e3) =
        bind_ok (check_remotes sys (b || r.stdio) ss) (λ (rs : List Remote). ok (r ∷ rs)) rs' e2 in
      let (one, usable) = check_remote_ok b r u k in
      let (ds, few, all) = check_remotes_sound (b || r.stdio) ss rs l in
      let q : r ∷ rs ≡ rs' = cc in
      subst (λ x. Decodes (s ∷ ss) x × (as_ℕ b + stdios x ≤ 1) × All IsUsable x) q
        ((d, ds), (let m = as_ℕ-or r.stdio b (stdios rs) one in omega arith), (usable, all))

  check_remotes_complete :
      (b : Bool) (ss : List Text) (rs : List Remote)
      → Decodes ss rs
      → as_ℕ b + stdios rs ≤ 1
      → All IsUsable rs
      → check_remotes sys b ss ≡ ok rs
  unfolding check_remotes Decodes stdios
  check_remotes_complete b [] [] d n us = refl
  check_remotes_complete b [] (r ∷ rs) d n us = absurd d
  check_remotes_complete b (s ∷ ss) [] d n us = absurd d
  check_remotes_complete b (s ∷ ss) (r ∷ rs) (d, ds) n (u, us) =
      let one : as_ℕ r.stdio + as_ℕ b ≤ 1 = omega arith in
      let m = as_ℕ-or r.stdio b (stdios rs) one in
      let l = check_remotes_complete (b || r.stdio) ss rs ds (omega arith) us in
      rw (d, check_remote_passes b r one u, l) refl

  -- The loop takes exactly the lists whose texts all decode, with at most one remote on the standard
  -- streams, in which each remote is reversed, takes those streams or can be listened on; and the result is
  -- what the texts decode to.
  pub check_remotes_iff :
      (ss : List Text) (rs : List Remote)
      → (check_remotes sys false ss ≡ ok rs) ↔ (Decodes ss rs × (stdios rs ≤ 1) × All IsUsable rs)
  check_remotes_iff ss rs = (
    λ e. (let (ds, n, us) = check_remotes_sound false ss rs e in (ds, omega arith, us)),
    λ (ds, n, us). check_remotes_complete false ss rs ds (omega arith) us,
  )

  reversed_none : (rs : List Remote) → any (λ r. r.reverse) rs ≡ false → reversed false rs ≡ rs
  unfolding reversed
  reversed_none [] e = refl
  reversed_none (r ∷ rs) e =
      let ih = reversed_none rs (ground arith) in
      let f : r.reverse ≡ false = ground arith in
      keep_cons (same_direction false) r rs (ap not f) ∙ ap (λ l. r ∷ l) ih

  -- What a new client promises: its remotes are those that the texts decode to, with at most one on the
  -- standard streams; and it opens no connections for its server unless a remote is reversed.
  pub record IsSetUp (c : Config) (client : Client) : Type 0 where
    pub decode : Decodes c.remotes client.computed
    pub one_stdio : stdios client.computed ≤ 1
    pub usable : All IsUsable client.computed
    pub accepts : client.inbound ≡ true
    pub binds_all : client.outbound ≡ false → reversed false client.computed ≡ client.computed
    pub socks_needs_reverse : client.socks_enabled ≡ true → client.outbound ≡ true

  make_client-IsSetUp :
      (c : Config) (url : Text) (tls : Option TlsConf) (rs : List Remote) (p : Option Url)
      → check_remotes sys false c.remotes ≡ ok rs
      → IsSetUp c (make_client sys c url tls rs p)
  unfolding make_client
  make_client-IsSetUp c url tls rs p e =
      let (ds, n, us) = (check_remotes_iff c.remotes rs).0 e in
      record {
        decode = ds;
        one_stdio = n;
        usable = us;
        accepts = refl;
        binds_all = reversed_none rs;
        socks_needs_reverse = λ h. ground arith;
      }

  -- A client that NewClient returns has the remotes that its texts decode to, with at most one on the
  -- standard streams, each reversed, on those streams or possible to listen on; it always takes inbound
  -- connections; if it takes no outbound ones it binds all its remotes itself; and it has a SOCKS server
  -- only if it takes outbound ones.
  pub new_client-IsSetUp :
      (c : Config) (client : Client) → new_client sys c ≡ ok client → IsSetUp c client
  unfolding new_client from_tls from_remotes from_proxy
  new_client-IsSetUp c client e =
      let (u, s, e1) = bind_ok (server_of sys c.server) (from_tls sys c) client e in
      let (tls, t, e2) =
        bind_ok (tls_conf_of sys u.scheme c.tls) (from_remotes sys c u) client e1 in
      let (rs, r, e3) =
        bind_ok (check_remotes sys false c.remotes) (from_proxy sys c u tls) client e2 in
      let make : Option Url → Client = make_client sys c (sys.url_string u) tls rs in
      let (p, q, e4) =
        bind_ok (proxy_url_of sys c.proxy) (λ (p : Option Url). ok (make p)) client e3 in
      let made : make p ≡ client = cc in
      subst (IsSetUp c) made (make_client-IsSetUp c (sys.url_string u) tls rs p r)
