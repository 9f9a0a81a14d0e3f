-- ===== src/Cnet/HttpServer/Waits.antt =====
-- What the end of Wait shows of the HTTP server, and that a server that is to end does.
use chisel_uds.Prelude.{
  ℕ, zero, suc, Text, Bool, true, false, Option, none, some, List, [], ◌∷◌, text_eq, text_eq_iff,
  ◌≡◌, ◌≢◌, ◌||◌, inl, inr, refl, ap, ◌∙◌, arith, All, Bool-cases,
}
use chisel_uds.Prelude.ErrGroup.{ErrGroup, earlier, Waiting, waits, returned, wait_for}
use chisel_uds.Cnet.HttpServer.{
  Service, HttpServer, server_closed, go_serve, close, close_with, waited, wait_newest, wait,
  is_done, Moves, cancels, fails, ends, closes, MovesIn, newest, older, Reachable, begin, serves,
  is_closed, moves, Run, stay, then_moves,
}

module _ (errgroup : ErrGroup) where
  open errgroup use {Group, with_context, go, returns, running, error, cancelled}

  -- A service serves and its group has no error; or Serve has returned, with ErrServerClosed only if the
  -- server was closed. The second goroutine ends with a call of Close.
  pub record IsSound (b : Bool) (s : Service errgroup) : Type 0 where
    pub open_group :
        s.serving ≡ true
        → (running s.group ≡ 1) × (error s.group ≡ none) × (cancelled s.group ≡ false)
    pub ended_group :
        s.serving ≡ false
        → (running s.group ≡ 0)
          × (e : Text) × (error s.group ≡ some e)
          × (cancelled s.group ≡ true)
          × (e ≡ server_closed → b ≡ true)
    pub stopped : s.watching ≡ false → b ≡ true

  -- the group of a service whose Serve has returned
  abbrev GroupEnded : Text → Service errgroup → Type 0
  GroupEnded e s =
      (running (returns (some e) s.group) ≡ 0)
      × (error (returns (some e) s.group) ≡ some e)
      × (cancelled (returns (some e) s.group) ≡ true)

  group_ends :
      (e : Text) (b : Bool) (s : Service errgroup) (h : IsSound b s) (v : s.serving ≡ true)
      → GroupEnded e s
  group_ends e b s h v =
      let (r, f, g) = h.open_group v in
      (
        errgroup.running_returns (some e) s.group ∙ ground (arith, r),
        errgroup.error_returns (some e) s.group ∙ ap (λ x. earlier x (some e)) f,
        errgroup.cancelled_returns (some e) s.group ∙ ap (λ x. x || true) g,
      )

  closed-IsSound : (b : Bool) (s : Service errgroup) → IsSound b s → IsSound true s
  closed-IsSound b s h = record {
    open_group = h.open_group;
    ended_group = λ q. let (r, e, f, g, k) = h.ended_group q in (r, e, f, g, λ z. refl);
    stopped = λ q. refl;
  }

  Moves-IsSound :
      (b c : Bool) (s t : Service errgroup) → Moves errgroup b s c t → IsSound b s → IsSound c t
  Moves-IsSound b _ s _ cancels h = record {
    open_group = h.open_group;
    ended_group = h.ended_group;
    stopped = h.stopped;
  }
  Moves-IsSound _ _ s _ (fails e v n) h =
      let (r, f, g) = group_ends e false s h v in
      record {
        open_group = λ q. absurd cc;
        ended_group = λ q. (r, e, f, g, λ z. absurd (n z));
        stopped = h.stopped;
      }
  Moves-IsSound _ _ s _ (ends v) h =
      let (r, f, g) = group_ends server_closed true s h v in
      record {
        open_group = λ q. absurd cc;
        ended_group = λ q. (r, server_closed, f, g, λ z. refl);
        stopped = h.stopped;
      }
  Moves-IsSound b _ s _ (closes w d) h =
      let k = closed-IsSound b s h in
      record { open_group = k.open_group; ended_group = k.ended_group; stopped = λ q. refl }

  -- A move leaves the other services sound.
  spares-IsSound :
      (b c : Bool) (s t u : Service errgroup) → Moves errgroup b s c t → IsSound b u → IsSound c u
  spares-IsSound b _ s _ u cancels h = h
  spares-IsSound _ _ s _ u (fails e v n) h = h
  spares-IsSound _ _ s _ u (ends v) h = h
  spares-IsSound b _ s _ u (closes w d) h = closed-IsSound b u h

  All-map :
      {P Q : Service errgroup → Type 0} (ss : List (Service errgroup))
      → ((s : Service errgroup) → P s → Q s)
      → All P ss
      → All Q ss
  All-map [] f h = tt
  All-map (s ∷ ss) f h = (f s h.0, All-map ss f h.1)

  spares-All :
      (b c : Bool) (ss ts : List (Service errgroup)) (u : Service errgroup)
      → MovesIn errgroup b ss c ts
      → IsSound b u
      → IsSound c u
  spares-All b c _ _ u (newest {s = s} {t = t} m) h = spares-IsSound b c s t u m h
  spares-All b c _ _ u (older {ss = ss} {ts = ts} m) h = spares-All b c ss ts u m h

  MovesIn-IsSound :
      (b c : Bool) (ss ts : List (Service errgroup))
      → MovesIn errgroup b ss c ts
      → All (IsSound b) ss
      → All (IsSound c) ts
  MovesIn-IsSound b c _ _ (newest {s = s} {t = t} {ss = ss} m) h =
      (Moves-IsSound b c s t m h.0, All-map ss (λ u. spares-IsSound b c s t u m) h.1)
  MovesIn-IsSound b c _ _ (older {s = s} {ss = ss} {ts = ts} m) h =
      (spares-All b c ss ts s m h.0, MovesIn-IsSound b c ss ts m h.1)

  serve-IsSound :
      (b : Bool)
      → IsSound b
          (record { group = go with_context; parent_done = false; serving = true; watching = true })
  serve-IsSound b = record {
    open_group = λ q. (
      errgroup.running_go with_context ∙ ground (arith, errgroup.running_with_context),
      errgroup.error_go with_context ∙ errgroup.error_with_context,
      errgroup.cancelled_go with_context ∙ errgroup.cancelled_with_context,
    );
    ended_group = λ q. absurd cc;
    stopped = λ q. absurd cc;
  }

  close_with-IsSound :
      (ss : List (Service errgroup)) (e : Option Text) (h : HttpServer errgroup)
      → All (IsSound h.shutdown) h.services
      → let after = (close_with errgroup ss e h).0 in All (IsSound after.shutdown) after.services
  unfolding close_with
  close_with-IsSound [] e h a = a
  close_with-IsSound (s ∷ ss) e h a = All-map h.services (closed-IsSound h.shutdown) a

  Reachable-IsSound :
      (h : HttpServer errgroup) → Reachable errgroup h → All (IsSound h.shutdown) h.services
  unfolding go_serve close
  Reachable-IsSound _ begin = tt
  Reachable-IsSound _ (serves {h = h} true r) = (serve-IsSound h.shutdown, Reachable-IsSound h r)
  Reachable-IsSound _ (serves {h = h} false r) = Reachable-IsSound h r
  Reachable-IsSound _ (is_closed {h = h} e r) =
      close_with-IsSound h.services e h (Reachable-IsSound h r)
  Reachable-IsSound _ (moves {b} {c} {ss} {ts} r m) =
      MovesIn-IsSound b c ss ts m (Reachable-IsSound _ r)

  -- What Wait says of the newest service.
  pub data ServiceOutcome (b : Bool) (s : Service errgroup) : Waiting → Type 0 where
    still_serves : s.serving ≡ true → ServiceOutcome b s waits
    failed :
        (e : Text)
        → error s.group ≡ some e
        → e ≢ server_closed
        → ServiceOutcome b s (returned (some e))
    was_closed : error s.group ≡ some server_closed → b ≡ true → ServiceOutcome b s (returned none)

  wait-sound :
      (b : Bool) (s : Service errgroup)
      → IsSound b s
      → ServiceOutcome b s (wait_for (running s.group) (waited (error s.group)))
  unfolding wait_for waited
  wait-sound b s h = elim (Bool-cases s.serving) [
    | inl v ↦ rw (wait_for, (h.open_group v).0) (still_serves v)
    | inr v ↦
        let (r, e, f, g, k) = h.ended_group v in
        rw (wait_for, waited, r, f)
          (elim (Bool-cases (text_eq e server_closed)) [
            | inl q ↦ rw q (
                was_closed (f ∙ ap some ((text_eq_iff e server_closed).0 q))
                  (k ((text_eq_iff e server_closed).0 q)))
            | inr q ↦ rw q (failed e f (λ z. ground (arith, text_eq_iff e server_closed)))
          ])
  ]

  -- Whatever the calls and the goroutines did, Wait says how the newest service stands: it waits while
  -- Serve runs, it returns Serve's error if Serve failed by itself, and it returns nil only if the
  -- server was closed.
  pub Reachable-ServiceOutcome :
      (b : Bool) (s : Service errgroup) (ss : List (Service errgroup))
      → Reachable errgroup (record { shutdown = b; services = s ∷ ss })
      → ServiceOutcome b s (wait errgroup (record { shutdown = b; services = s ∷ ss }))
  unfolding wait wait_newest
  Reachable-ServiceOutcome b s ss r = wait-sound b s (Reachable-IsSound _ r).0

  -- The service has ended, after a close of the server.
  abbrev pub Ends : HttpServer errgroup → Type 0
  Ends h = (h.shutdown ≡ true) × (wait errgroup h ≢ waits)

  wait_for-zero : (n : ℕ) (e : Option Text) → n ≡ 0 → wait_for n e ≢ waits
  unfolding wait_for
  wait_for-zero zero e z = λ q. absurd cc
  wait_for-zero (suc n) e z = absurd cc

  -- A server can come to an end from a state.
  abbrev CanEnd : Bool → Service errgroup → List (Service errgroup) → Type 0
  CanEnd b s ss =
      (h : HttpServer errgroup) × Run errgroup (record { shutdown = b; services = s ∷ ss }) h
      × Ends h

  is_watching : (s : Service errgroup) → IsSound false s → s.watching ≡ true
  is_watching s h = elim (Bool-cases s.watching) [
    | inl w ↦ w
    | inr w ↦ absurd (let q = h.stopped w in cc)
  ]

  -- A service whose Serve has returned is closed by its second goroutine, at the latest.
  ended_closes :
      (b : Bool) (s : Service errgroup) (ss : List (Service errgroup))
      → IsSound b s
      → s.serving ≡ false
      → CanEnd b s ss
  unfolding wait wait_newest
  ended_closes true s ss h v = (
    _,
    stay,
    (refl, wait_for-zero (running s.group) (waited (error s.group)) (h.ended_group v).0),
  )
  ended_closes false s ss h v =
      let (r, e, f, g, k) = h.ended_group v in
      (
        _,
        then_moves stay (newest (closes (is_watching s h) (ground (arith, g)))),
        (refl, wait_for-zero (running s.group) (waited (error s.group)) r),
      )

  -- A service that serves when the server is closed ends.
  serving_ends :
      (b : Bool) (s : Service errgroup) (ss : List (Service errgroup))
      → IsSound b s
      → s.serving ≡ true
      → (is_done errgroup s || b) ≡ true
      → CanEnd b s ss
  unfolding wait wait_newest
  serving_ends true s ss h v d =
      let (r, f, g) = group_ends server_closed true s h v in
      (_, then_moves stay (newest (ends v)), (refl, wait_for-zero _ _ r))
  serving_ends false s ss h v d =
      let (r, f, g) = group_ends server_closed false s h v in
      (
        _,
        then_moves (then_moves stay (newest (closes (is_watching s h) (ground (arith, d)))))
            (newest (ends v)),
        (refl, wait_for-zero _ _ r),
      )

  -- If the context that GoServe was given is done, if Serve has failed or if the server was closed, its
  -- goroutines can bring it to its end: the server is closed and Wait returns.
  pub stops :
      (b : Bool) (s : Service errgroup) (ss : List (Service errgroup))
      → Reachable errgroup (record { shutdown = b; services = s ∷ ss })
      → (is_done errgroup s || b) ≡ true
      → (h : HttpServer errgroup) × Run errgroup (record { shutdown = b; services = s ∷ ss }) h
        × Ends h
  stops b s ss r d = elim (Bool-cases s.serving) [
    | inl v ↦ serving_ends b s ss (Reachable-IsSound _ r).0 v d
    | inr v ↦ ended_closes b s ss (Reachable-IsSound _ r).0 v
  ]
