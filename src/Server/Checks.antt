-- ===== src/Server/Checks.antt =====
-- server/server_handler.go: what the handler makes of a client's request, and what it records.
use chisel_uds.Prelude.{
  ℕ, Text, codes, Bool, true, false, Option, none, some, List, [], ◌≡◌, ◌⊎◌, inl, inr, refl, arith,
  map, text_eq, text_eq_iff, text_eq_refl, All, Bool-cases, Option-cases, sym, subst,
}
use chisel_uds.Prelude.Dict.{lookup, insert, lookup-insert}
use chisel_uds.Monitor.{
  MonitorState, SessionSnapshot, SessionStatus, mark_session_failed, mark_session_connected,
}
use chisel_uds.Settings.Users.{Regexp, User}
use chisel_uds.Settings.Remote.Types.{Remote}
use chisel_uds.Settings.Remote.Print.{Host}
use chisel_uds.Server.{
  Request, Arrival, arrives, times_out, channel_closed, Outcome, upgrade_failed, handshake_failed,
  timed_out, rejected, crashed, serving, Verdict, valid, denied, nil_remote, ServerState, validate,
  check_request, fail,
}
use chisel_uds.Server.Admission.{IsPermitted, validate-valid, validate-permitted}

module _ (regexp : Regexp) where
  -- What a served client shows: its request was for the configuration, it named no nil remote, and each
  -- of its remotes is permitted to the user. A rejected one does not show that. A handler that pulled a user panics only without a request
  -- or over a nil remote.
  abbrev pub Granted : Arrival → Option (User regexp) → Bool → Host → Outcome → Type 0
  Granted request user reverse host (upgrade_failed e) = Unit
  Granted request user reverse host (handshake_failed e) = Unit
  Granted request user reverse host timed_out = request ≡ times_out
  Granted request user reverse host (rejected e) =
      (rs : List Remote)
      → request ≡ arrives (record { kind = codes "config"; config = some (map some rs) })
      → ¬ All (IsPermitted regexp user reverse host) rs
  Granted request user reverse host crashed =
      (request ≡ channel_closed)
      ⊎ ((remotes : List (Option Remote)) × (request
            ≡ arrives (record { kind = codes "config"; config = some remotes }))
          × (validate regexp user reverse host remotes ≡ nil_remote))
  Granted request user reverse host (serving rs) =
      (request ≡ arrives (record { kind = codes "config"; config = some (map some rs) }))
      × All (IsPermitted regexp user reverse host) rs

  -- What a request shows that is rejected before the loop or in it
  other_kind :
      (r : Request) (user : Option (User regexp)) (reverse : Bool) (host : Host) (e : Text)
      → text_eq r.kind (codes "config") ≡ false
      → Granted (arrives r) user reverse host (rejected e)
  other_kind r user reverse host e k rs q a =
      let same : r.kind ≡ codes "config" = cc in
      absurd (ground (arith, (text_eq_iff r.kind (codes "config")).1 same))

  other_config :
      (r : Request) (user : Option (User regexp)) (reverse : Bool) (host : Host) (e : Text)
      → r.config ≡ none
      → Granted (arrives r) user reverse host (rejected e)
  other_config r user reverse host e c rs q a =
      let same : r.config ≡ some (map some rs) = cc in absurd cc

  denied_remotes :
      (r : Request) (user : Option (User regexp)) (reverse : Bool) (host : Host) (e : Text)
      (remotes : List (Option Remote))
      → r.config ≡ some remotes
      → validate regexp user reverse host remotes ≡ denied e
      → Granted (arrives r) user reverse host (rejected e)
  denied_remotes r user reverse host e remotes c d rs q a =
      let same : r.config ≡ some (map some rs) = cc in
      let v = validate-permitted regexp user reverse host rs a in
      let m : remotes ≡ map some rs = cc in absurd cc

  -- The session of `id` has this status and this error.
  pub record HasStatus (id : Text) (status : SessionStatus) (message : Text) (m : MonitorState)
      : Type 0 where
    pub session : SessionSnapshot
    pub found : lookup id m.sessions ≡ some session
    pub status_eq : session.status ≡ status
    pub error_eq : session.error ≡ message

  -- What the monitor holds after the handler came to an outcome: the session is connected when it is
  -- served, and failed with the text of the error when it is not; a crash leaves the monitor as it was.
  abbrev pub Recorded : Text → MonitorState → Outcome → MonitorState → Type 0
  Recorded id before (upgrade_failed e) m = HasStatus id SessionStatus.failed e m
  Recorded id before (handshake_failed e) m = HasStatus id SessionStatus.failed e m
  Recorded id before timed_out m =
      HasStatus id SessionStatus.failed (codes "Timeout waiting for configuration") m
  Recorded id before (rejected e) m = HasStatus id SessionStatus.failed e m
  Recorded id before crashed m = m ≡ before
  Recorded id before (serving rs) m = HasStatus id SessionStatus.connected [] m

  -- The entry that a mark put under its own key is found.
  put-HasStatus :
      (id : Text) (s : SessionSnapshot) (m : MonitorState) (status : SessionStatus) (message : Text)
      → s.status ≡ status
      → s.error ≡ message
      → HasStatus id status message (record m { sessions = insert id s m.sessions })
  put-HasStatus id s m status message p q = record {
    session = s;
    found = rw (lookup-insert, text_eq_refl id) refl;
    status_eq = p;
    error_eq = q;
  }

  pub mark_session_failed-HasStatus :
      (now : ℕ) (id message : Text) (m : MonitorState)
      → HasStatus id SessionStatus.failed message (mark_session_failed now id message m)
  unfolding mark_session_failed
  mark_session_failed-HasStatus now id message m = put-HasStatus id _ m _ message refl refl

  mark_session_connected-HasStatus :
      (now : ℕ) (id : Text) (m : MonitorState)
      → HasStatus id SessionStatus.connected [] (mark_session_connected now id m)
  unfolding mark_session_connected
  mark_session_connected-HasStatus now id m = put-HasStatus id _ m _ [] refl refl

  unfoldable pub Checked :
      ℕ
      → Text
      → Bool
      → Host
      → Arrival
      → Option (User regexp)
      → ServerState regexp
      → ServerState regexp × Outcome
      → Type 0
  Checked now id reverse host request user s (s', o) =
      Granted request user reverse host o × Recorded id s.monitor o s'.monitor

  -- what the handler does with the result of the loop
  conclude : ℕ → Text → ServerState regexp → Verdict → ServerState regexp × Outcome
  conclude now id s (valid rs) =
      (record s { monitor = mark_session_connected now id s.monitor }, serving rs)
  conclude now id s (denied e) = (fail regexp now id e s, rejected e)
  conclude now id s nil_remote = (s, crashed)

  check_request-conclude :
      (now : ℕ) (id : Text) (reverse : Bool) (host : Host) (r : Request)
      (user : Option (User regexp)) (s : ServerState regexp) (remotes : List (Option Remote))
      (v : Verdict)
      → text_eq r.kind (codes "config") ≡ true
      → r.config ≡ some remotes
      → validate regexp user reverse host remotes ≡ v
      → check_request regexp now id reverse host (arrives r) user s ≡ conclude now id s v
  unfolding check_request conclude
  check_request-conclude now id reverse host r user s remotes (valid rs) k c q =
      rw (check_request, k, c, q) refl
  check_request-conclude now id reverse host r user s remotes (denied e) k c q =
      rw (check_request, k, c, q) refl
  check_request-conclude now id reverse host r user s remotes nil_remote k c q =
      rw (check_request, k, c, q) refl

  conclude-Checked :
      (now : ℕ) (id : Text) (reverse : Bool) (host : Host) (r : Request)
      (user : Option (User regexp)) (s : ServerState regexp) (remotes : List (Option Remote))
      (v : Verdict)
      → text_eq r.kind (codes "config") ≡ true
      → r.config ≡ some remotes
      → validate regexp user reverse host remotes ≡ v
      → Checked now id reverse host (arrives r) user s (conclude now id s v)
  unfolding Checked conclude
  conclude-Checked now id reverse host r user s remotes (denied e) k c q = (
    denied_remotes r user reverse host e remotes c q,
    mark_session_failed-HasStatus now id e s.monitor,
  )
  conclude-Checked now id reverse host r user s remotes nil_remote k c q =
      let k' = (text_eq_iff r.kind (codes "config")).0 k in (inr (remotes, cc, q), refl)
  conclude-Checked now id reverse host r user s remotes (valid rs) k c q =
      let (e, a) = validate-valid regexp user reverse host remotes rs q in
      let k' = (text_eq_iff r.kind (codes "config")).0 k in
      ((cc, a), mark_session_connected-HasStatus now id s.monitor)

  check_request-no_config :
      (now : ℕ) (id : Text) (reverse : Bool) (host : Host) (r : Request)
      (user : Option (User regexp)) (s : ServerState regexp)
      → text_eq r.kind (codes "config") ≡ true
      → r.config ≡ none
      → check_request regexp now id reverse host (arrives r) user s ≡ (
        fail regexp now id (codes "server: invalid config") s,
        rejected (codes "server: invalid config"),
      )
  unfolding check_request
  check_request-no_config now id reverse host r user s k c = rw (check_request, k, c) refl

  pub check_request-Checked :
      (now : ℕ) (id : Text) (reverse : Bool) (host : Host) (request : Arrival)
      (user : Option (User regexp)) (s : ServerState regexp)
      → Checked now id reverse host request user s
          (check_request regexp now id reverse host request user s)
  unfolding check_request Checked
  check_request-Checked now id reverse host channel_closed user s = (inl refl, refl)
  check_request-Checked now id reverse host times_out user s = (
    refl,
    mark_session_failed-HasStatus now id (codes "Timeout waiting for configuration") s.monitor,
  )
  check_request-Checked now id reverse host (arrives r) user s =
      elim (Bool-cases (text_eq r.kind (codes "config"))) [
        | inr k ↦
            rw (check_request, k)
              (
                other_kind r user reverse host (codes "server: expecting config request") k,
                mark_session_failed-HasStatus now id _ s.monitor,
              )
        | inl k ↦ elim (Option-cases r.config) [
          | inl c ↦
              subst (Checked now id reverse host (arrives r) user s)
                (sym (check_request-no_config now id reverse host r user s k c))
                (
                  other_config r user reverse host (codes "server: invalid config") c,
                  mark_session_failed-HasStatus now id _ s.monitor,
                )
          | inr (remotes, c) ↦
              subst (Checked now id reverse host (arrives r) user s)
                (sym (check_request-conclude now id reverse host r user s remotes _ k c refl))
                (conclude-Checked now id reverse host r user s remotes _ k c refl)
        ]
      ]
