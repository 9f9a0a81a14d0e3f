-- ===== src/Server/Handshake.antt =====
-- The handler of one client from its first call to its outcome, and the password callback.
use chisel_uds.Prelude.{
  ℕ, Text, Bool, true, false, Option, none, some, List, ◌≡◌, ◌≢◌, ◌⊎◌, inl, inr, refl, arith,
  text_eq, text_eq_iff, text_eq_refl, Bool-cases, Option-cases, ap, sym, ◌∙◌, subst, ◌==◌,
}
use chisel_uds.Prelude.Dict.{lookup-insert}
use chisel_uds.Settings.Users.{Regexp, User, Users, len, get, set, AuthFile, load_user_index}
use chisel_uds.Settings.Remote.Types.{Remote}
use chisel_uds.Settings.Remote.Print.{Host}
use chisel_uds.Server.{
  Arrival, Outcome, rejected, crashed, serving, ServerState, auth_user, pull_user, check_request,
  after_handshake, begin_session, Connection, handle_websocket,
}
use chisel_uds.Server.Checks.{
  Recorded, Granted, Checked, check_request-Checked, mark_session_failed-HasStatus,
}

module _ (regexp : Regexp) where
  -- The user that the handler pulls from a state, if it does not panic.
  abbrev pub Pulls : Text → ServerState regexp → Option (User regexp) → Type 0
  Pulls sid s user = (pull_user regexp sid s).1 ≡ some user

  -- What the handler behind the handshake comes to: it serves only what the pulled user is permitted,
  -- the monitor records the outcome, and it crashes when no user can be pulled.
  pub record Handled (id sid : Text) (reverse : Bool) (host : Host) (request : Arrival)
      (s s' : ServerState regexp) (o : Outcome) : Type 0 where
    pub recorded : Recorded regexp id s.monitor o s'.monitor
    pub granted :
        (user : Option (User regexp))
        → Pulls sid s user
        → Granted regexp request user reverse host o
    pub crashes : (pull_user regexp sid s).1 ≡ none → o ≡ crashed

  pull_user-monitor :
      (sid : Text) (s : ServerState regexp) → (pull_user regexp sid s).0.monitor ≡ s.monitor
  unfolding pull_user
  pull_user-monitor sid s = elim (Bool-cases (len regexp s.users == 0)) [
    | inl z ↦ rw z refl
    | inr z ↦ elim (Option-cases (get regexp sid s.sessions)) [
      | inl n ↦ rw (z, n) refl
      | inr (u, e) ↦ rw (z, e) refl
    ]
  ]

  after_handshake_next :
      (now : ℕ) (id sid : Text) (reverse : Bool) (host : Host) (request : Arrival)
      (s s1 : ServerState regexp) (user : Option (User regexp))
      → pull_user regexp sid s ≡ (s1, some user)
      → after_handshake regexp now id sid reverse host request s
        ≡ check_request regexp now id reverse host request user s1
  unfolding after_handshake
  after_handshake_next now id sid reverse host request s s1 user q =
      ap
        (λ (p : ServerState regexp × Option (Option (User regexp))). elim p.1 [
          | none ↦ (p.0, crashed)
          | some user ↦ check_request regexp now id reverse host request user p.0
        ])
        q

  after_handshake_panic :
      (now : ℕ) (id sid : Text) (reverse : Bool) (host : Host) (request : Arrival)
      (s s1 : ServerState regexp)
      → pull_user regexp sid s ≡ (s1, none)
      → after_handshake regexp now id sid reverse host request s ≡ (s1, crashed)
  unfolding after_handshake
  after_handshake_panic now id sid reverse host request s s1 q =
      ap
        (λ (p : ServerState regexp × Option (Option (User regexp))). elim p.1 [
          | none ↦ (p.0, crashed)
          | some user ↦ check_request regexp now id reverse host request user p.0
        ])
        q

  pub Finished :
      Text
      → Text
      → Bool
      → Host
      → Arrival
      → ServerState regexp
      → ServerState regexp × Outcome
      → Type 0
  Finished id sid reverse host request s (s', o) = Handled id sid reverse host request s s' o

  after_handshake-pulled :
      (now : ℕ) (id sid : Text) (reverse : Bool) (host : Host) (request : Arrival)
      (s s1 : ServerState regexp) (p : Option (Option (User regexp)))
      → pull_user regexp sid s ≡ (s1, p)
      → s1.monitor ≡ s.monitor
      → Finished id sid reverse host request s
          (after_handshake regexp now id sid reverse host request s)
  unfolding Finished Checked
  after_handshake-pulled now id sid reverse host request s s1 none q m =
      subst (Finished id sid reverse host request s)
        (sym (after_handshake_panic now id sid reverse host request s s1 q))
        (record {
          recorded = m;
          granted = λ user e. absurd (gone user (ap (λ p. p.1) (sym q) ∙ e));
          crashes = λ e. refl;
        })
    where
      gone : (a : Option (User regexp)) → none ≡ some a → ⊥
      gone a e = cc
  after_handshake-pulled now id sid reverse host request s s1 (some user) q m =
      subst (Finished id sid reverse host request s)
        (sym (after_handshake_next now id sid reverse host request s s1 user q))
        (let c = check_request-Checked regexp now id reverse host request user s1 in
          let o = (check_request regexp now id reverse host request user s1).1 in
          (record {
            recorded =
                subst
                  (λ b.
                    Recorded regexp id b o
                      (check_request regexp now id reverse host request user s1).0.monitor)
                  m c.1;
            granted = λ user' e.
                subst (λ w. Granted regexp request w reverse host o)
                  (same user user' (ap (λ p. p.1) (sym q) ∙ e)) c.0;
            crashes = λ e. absurd (apart user (ap (λ p. p.1) (sym q) ∙ e));
          }))
    where
      same : (a b : Option (User regexp)) → some a ≡ some b → a ≡ b
      same a b e = cc

      apart : (a : Option (User regexp)) → some a ≡ none → ⊥
      apart a e = cc

  -- Behind the handshake the outcome is recorded in the monitor, a served client asks only for what the
  -- user that was pulled is permitted, and without a user to pull the handler crashes.
  pub after_handshake-Handled :
      (now : ℕ) (id sid : Text) (reverse : Bool) (host : Host) (request : Arrival)
      (s : ServerState regexp)
      → Finished id sid reverse host request s
          (after_handshake regexp now id sid reverse host request s)
  after_handshake-Handled now id sid reverse host request s =
      after_handshake-pulled now id sid reverse host request s _ _ refl (pull_user-monitor sid s)

  -- What the whole handler comes to. Before the handshake only the upgrade can fail; otherwise the
  -- user is pulled from the state that the handshake left.
  pub Session :
      Bool → Host → Connection regexp → ServerState regexp → ServerState regexp × Outcome → Type 0
  Session reverse host c s (s', o) =
      let (s1, id) = begin_session regexp c.started c.remote_addr s in
      let s2 = c.handshake s1 in
      Recorded regexp id s2.monitor o s'.monitor
      × ((rs : List Remote)
          → o ≡ serving rs
          → (c.upgrade_error ≡ none)
            × (c.handshake_error ≡ none)
            × ((user : Option (User regexp))
                → Pulls c.ssh_session_id s2 user
                → Granted regexp c.request user reverse host o))
      × (o ≡ crashed
          → (c.upgrade_error ≡ none)
            × (c.handshake_error ≡ none)
            × ((user : Option (User regexp))
                → Pulls c.ssh_session_id s2 user
                → Granted regexp c.request user reverse host o))
      × ((e : Text)
          → o ≡ rejected e
          → (c.upgrade_error ≡ none)
            × (c.handshake_error ≡ none)
            × ((user : Option (User regexp))
                → Pulls c.ssh_session_id s2 user
                → Granted regexp c.request user reverse host o))

  -- However the handler of a client ends, the session that it began is connected in the monitor if the
  -- client is served, failed with the error's text if it is refused, and as the handshake left it after a
  -- panic. A client is served only if the upgrade and the handshake succeeded, its request was for the
  -- configuration, and each remote is permitted to the user pulled from the state after the handshake.
  -- Where a user is pulled, a request is rejected only if it is not such a one. A panic comes only behind
  -- the handshake, and where a user is pulled only if the client's channel was closed without a request, or
  -- over a nil remote.
  pub handle_websocket_lem :
      (reverse : Bool) (host : Host) (c : Connection regexp) (s : ServerState regexp)
      → Session reverse host c s (handle_websocket regexp reverse host c s)
  unfolding handle_websocket Session Finished
  handle_websocket_lem reverse host c s = elim (Option-cases c.upgrade_error) [
    | inr (e, q) ↦
        rw (handle_websocket, q)
          (
            mark_session_failed-HasStatus regexp c.decided _ e _,
            λ rs o. absurd cc,
            λ o. absurd cc,
            λ f o. absurd cc,
          )
    | inl q ↦ elim (Option-cases c.handshake_error) [
      | inr (e, p) ↦
          rw (handle_websocket, q, p)
            (
              mark_session_failed-HasStatus regexp c.decided _ e _,
              λ rs o. absurd cc,
              λ o. absurd cc,
              λ e' o. absurd cc,
            )
      | inl p ↦
          let (s1, id) = begin_session regexp c.started c.remote_addr s in
          let h =
            after_handshake-Handled c.decided id c.ssh_session_id reverse host c.request
              (c.handshake s1) in
          rw (handle_websocket, q, p)
            (
              h.recorded,
              λ rs o. (refl, refl, h.granted),
              λ o. (refl, refl, h.granted),
              λ e o. (refl, refl, h.granted),
            )
    ]
  ]

  get-set :
      (k : Text) (u : User regexp) (m : Users regexp) → get regexp k (set regexp k u m) ≡ some u
  unfolding get set
  get-set k u m = rw (lookup-insert, text_eq_refl k) refl

  get-set_other :
      (k j : Text) (u : User regexp) (m : Users regexp)
      → j ≢ k
      → get regexp j (set regexp k u m) ≡ get regexp j m
  unfolding get set
  get-set_other k j u m ne = ground (arith, lookup-insert k j u m, text_eq_iff k j)

  -- What the password callback does.
  pub Authenticated : Text → Text → Text → ServerState regexp → ServerState regexp × Bool → Type 0
  Authenticated sid name password s (s', false) =
      (s' ≡ s)
      × (len regexp s.users ≢ 0)
      × ((u : User regexp) → get regexp name s.users ≡ some u → u.pass ≢ password)
  Authenticated sid name password s (s', true) =
      ((len regexp s.users ≡ 0) × (s' ≡ s) × Pulls sid s' none)
      ⊎ ((u : User regexp) × (get regexp name s.users ≡ some u)
          × (u.pass ≡ password)
          × Pulls sid s' (some u)
          × ((other : Text)
              → other ≢ sid
              → get regexp other s'.sessions ≡ get regexp other s.sessions))

  -- Without users the callback accepts everybody and no user is pulled. With users it accepts a name
  -- exactly if that user's password is the one given, and the handler of the same connection pulls that
  -- user; the entries of the other connections stay. A rejection changes nothing.
  pub auth_user_lem :
      (sid name password : Text) (s : ServerState regexp)
      → Authenticated sid name password s (auth_user regexp sid name password s)
  unfolding auth_user Authenticated pull_user
  auth_user_lem sid name password s = elim (Bool-cases (len regexp s.users == 0)) [
    | inl z ↦ rw (auth_user, z) (inl (ground arith, refl, rw (pull_user, z) refl))
    | inr z ↦ elim (Option-cases (get regexp name s.users)) [
      | inl n ↦ rw (auth_user, z, n) (refl, λ e. ground arith, λ u e. ground arith)
      | inr (u, n) ↦ elim (Bool-cases (text_eq u.pass password)) [
        | inr b ↦
            rw (auth_user, z, n, b)
              (refl, λ e. ground arith, λ v e p. ground (arith, text_eq_iff u.pass password))
        | inl b ↦
            rw (auth_user, z, n, b)
              (inr (
                u,
                n,
                (text_eq_iff u.pass password).0 b,
                rw (pull_user, z, get-set sid u s.sessions) refl,
                λ other ne. get-set_other sid other u s.sessions ne,
              ))
      ]
    ]
  ]

  -- A client that was let in because there were no users crashes the handler, whatever it requests, if a
  -- reload adds users before the handler pulls its user; its session is then not marked as failed.
  pub reload-crashed :
      (now : ℕ) (id sid name password : Text) (reverse : Bool) (host : Host) (request : Arrival)
      (raw : AuthFile) (s : ServerState regexp)
      → len regexp s.users ≡ 0
      → get regexp sid s.sessions ≡ none
      → len regexp (load_user_index regexp raw s.users).0 ≢ 0
      → let s' = record s { users = (load_user_index regexp raw s.users).0 } in
        (auth_user regexp sid name password s ≡ (s, true))
        × (after_handshake regexp now id sid reverse host request s' ≡ (s', crashed))
  unfolding auth_user pull_user
  reload-crashed now id sid name password reverse host request raw s z n f = (
    rw (auth_user, z) refl,
    after_handshake_panic now id sid reverse host request _ _
        (rw (pull_user, test_none _ f, n) refl),
  )
    where
      test_none : (n : ℕ) → n ≢ 0 → n == 0 ≡ false
      test_none n h = ground arith
