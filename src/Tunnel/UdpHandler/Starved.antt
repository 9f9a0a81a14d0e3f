-- ===== src/Tunnel/UdpHandler/Starved.antt =====
-- When the table is full of connections that nobody reads, no reader is started any more.
use chisel_uds.Prelude.{
  ℕ, ◌≤◌, ◌<◌, Text, Bool, true, false, Option, none, some, List, [], ◌∷◌, length, ◌≡◌, refl, arith,
  Option-cases, Bool-cases, inl, inr, subst, sym,
}
use chisel_uds.Prelude.Dict.{lookup, remove}
use chisel_uds.Prelude.Dict.Weights.{weigh-insert, weigh-remove}
use chisel_uds.Tunnel.UdpHandler.{
  UdpConn, Phase, decoding, dialled, returned, UdpHandler, max_conns, dial, starts_reader,
  finish_write, Action, packet, write, decode_fails, reader_ends, decode, end_reader, step_at, step,
  run,
}
use chisel_uds.Tunnel.UdpHandler.Readers.{
  readers, unread, is_read, is_unread, IsBounded, weigh-length, decode_new, decode_known,
  step-IsBounded,
}

-- The handler returned, or more connections than readers are allowed stand unread in the table, and not
-- more than `n` goroutines read.
pub data IsStarved (n : ℕ) (h : UdpHandler) : Type 0 where
  over : h.phase ≡ returned → IsStarved n h
  full : max_conns < unread h → readers h ≤ n → IsStarved n h

decode-IsStarved :
    (n : ℕ) (id : Text) (e : Option Text) (h : UdpHandler)
    → max_conns < unread h
    → readers h ≤ n
    → IsStarved n (decode id e h)
unfolding decode
decode-IsStarved n id e h u r = elim (Option-cases (lookup id h.m)) [
  | inr (c, q) ↦ subst (IsStarved n) (sym (decode_known id e h c q)) (full u r)
  | inl q ↦ dialled_now e q
]
  where
    conn : UdpConn
    conn = record { id = id; socket = h.sockets; reading = false }

    dialled_now : (e : Option Text) → lookup id h.m ≡ none → IsStarved n (decode id e h)
    dialled_now (some err) q = rw (decode, dial, q) (over refl)
    dialled_now none q = subst (IsStarved n) (sym (decode_new id h q)) (
        full (ground (arith, weigh-insert is_unread id conn h.m))
          (ground (arith, weigh-insert is_read id conn h.m)))

finish_write-IsStarved :
    (n : ℕ) (conn : UdpConn) (exists : Bool) (e : Option Text) (h : UdpHandler)
    → max_conns < unread h
    → readers h ≤ n
    → IsStarved n (finish_write conn exists e h)
unfolding finish_write
finish_write-IsStarved n conn exists (some err) h u r = over refl
finish_write-IsStarved n conn exists none h u r = rw (finish_write, none_starts) (full u r)
  where
    none_starts : starts_reader exists (length h.m) ≡ false
    none_starts = ground (arith, weigh-length h.m, Bool-cases exists)

end_reader-IsStarved :
    (n : ℕ) (id : Text) (h h' : UdpHandler)
    → IsBounded h
    → max_conns < unread h
    → readers h ≤ n
    → end_reader id h ≡ some h'
    → IsStarved n h'
unfolding end_reader
end_reader-IsStarved n id h h' b u r s = elim (Option-cases (lookup id h.m)) [
  | inl q ↦ absurd (ground arith)
  | inr (conn, q) ↦ elim (Bool-cases conn.reading) [
    | inr t ↦ absurd (ground arith)
    | inl t ↦ subst (IsStarved n) (ended conn q t) (
        full (ground (arith, weigh-remove is_unread id h.m b.is_map))
          (ground (arith, weigh-remove is_read id h.m b.is_map)))
  ]
]
  where
    ended :
        (conn : UdpConn)
        → lookup id h.m ≡ some conn
        → conn.reading ≡ true
        → record h { m = remove id h.m } ≡ h'
    ended conn q t = ground arith

end_reader-returned :
    (id : Text) (h h' : UdpHandler)
    → h.phase ≡ returned
    → end_reader id h ≡ some h'
    → h'.phase ≡ returned
unfolding end_reader
end_reader-returned id h h' p s = elim (Option-cases (lookup id h.m)) [
  | inl q ↦ absurd (ground arith)
  | inr (conn, q) ↦ elim (Bool-cases conn.reading) [
    | inr t ↦ absurd (ground arith)
    | inl t ↦ subst (λ (g : UdpHandler). g.phase ≡ returned) (ended conn q t) p
  ]
]
  where
    ended :
        (conn : UdpConn)
        → lookup id h.m ≡ some conn
        → conn.reading ≡ true
        → record h { m = remove id h.m } ≡ h'
    ended conn q t = ground arith

step-IsStarved :
    (n : ℕ) (a : Action) (h h' : UdpHandler)
    → IsBounded h
    → step a h ≡ some h'
    → IsStarved n h
    → IsStarved n h'
unfolding step
step-IsStarved n a h h' b s (over p) = over (stays h.phase a p s)
  where
    stays : (q : Phase) (a : Action) → q ≡ returned → step_at q a h ≡ some h' → h'.phase ≡ returned
    stays decoding a e s = absurd cc
    stays (dialled c x) a e s = absurd cc
    stays returned (packet id e) q s = absurd cc
    stays returned (write e) q s = absurd cc
    stays returned decode_fails q s = absurd cc
    stays returned (reader_ends id) q s = end_reader-returned id h h' p s
step-IsStarved n a h h' b s (full u r) = at_phase h.phase a s
  where
    same : (g : UdpHandler) → some g ≡ some h' → IsStarved n g → IsStarved n h'
    same g e c = subst (IsStarved n) (cc) c

    at_phase : (p : Phase) (a : Action) → step_at p a h ≡ some h' → IsStarved n h'
    at_phase decoding (packet id e) s = same _ s (decode-IsStarved n id e h u r)
    at_phase decoding decode_fails s = same _ s (over refl)
    at_phase decoding (write e) s = absurd cc
    at_phase (dialled c x) (write e) s = same _ s (finish_write-IsStarved n c x e h u r)
    at_phase (dialled c x) (packet id e) s = absurd cc
    at_phase (dialled c x) decode_fails s = absurd cc
    at_phase returned (packet id e) s = absurd cc
    at_phase returned (write e) s = absurd cc
    at_phase returned decode_fails s = absurd cc
    at_phase decoding (reader_ends id) s = end_reader-IsStarved n id h h' b u r s
    at_phase (dialled c x) (reader_ends id) s = end_reader-IsStarved n id h h' b u r s
    at_phase returned (reader_ends id) s = end_reader-IsStarved n id h h' b u r s

run-IsStarved_from :
    (n : ℕ) (actions : List Action) (h h' : UdpHandler)
    → IsBounded h
    → IsStarved n h
    → run actions h ≡ some h'
    → IsStarved n h'
unfolding run
run-IsStarved_from n [] h h' b u s = subst (IsStarved n) (cc) u
run-IsStarved_from n (a ∷ rest) h h' b u s = elim (Option-cases (step a h)) [
  | inl q ↦ absurd (ground arith)
  | inr (g, q) ↦
      run-IsStarved_from n rest g h' (step-IsBounded a h g b q) (step-IsStarved n a h g b q u)
        (ground arith)
]

-- From a state with a bounded table, as every reachable one is: once more than 100 connections of the
-- table are read by nobody, the handler starts no reader until it
-- returns: however many packets come and readers stop, the unread connections stay, and the number of
-- goroutines that read never grows.
pub run-IsStarved :
    (actions : List Action) (h h' : UdpHandler)
    → IsBounded h
    → max_conns < unread h
    → run actions h ≡ some h'
    → IsStarved (readers h) h'
run-IsStarved actions h h' r u s =
    run-IsStarved_from (readers h) actions h h' r (full u (omega arith)) s
