-- ===== src/Tunnel/UdpHandler/Readers.antt =====
-- How many goroutines read, and when none is started any more.
use chisel_uds.Prelude.{
  ℕ, ◌+◌, ◌≤◌, Text, Bool, true, false, Option, none, some, [], ◌∷◌, leb, length, if◌then◌else◌,
  ◌≡◌, refl, arith, Option-cases, Bool-cases, inl, inr, subst, sym, text_eq_refl, text_eq_iff,
}
use chisel_uds.Prelude.Dict.{
  Dict, lookup, insert, remove, IsMap, insert-IsMap, remove-IsMap, lookup-insert, lookup-remove,
}
use chisel_uds.Prelude.Dict.Weights.{weigh, weigh-insert, weigh-remove}
use chisel_uds.Tunnel.UdpHandler.{
  UdpConn, Phase, decoding, dialled, returned, UdpHandler, max_conns, new_handler, dial, close_all,
  starts_reader, finish_write, Action, packet, write, decode_fails, reader_ends, decode, end_reader,
  step_at, step, Reachable, begin, next,
}

abbrev pub is_read : UdpConn → ℕ
is_read c = if c.reading then 1 else 0

abbrev pub is_unread : UdpConn → ℕ
is_unread c = if c.reading then 0 else 1

-- The goroutines that read a connection of the table, and the connections that none reads.
abbrev pub readers : UdpHandler → ℕ
readers h = weigh is_read h.m

abbrev pub unread : UdpHandler → ℕ
unread h = weigh is_unread h.m

abbrev total : UdpHandler → ℕ
total h = weigh (λ (c : UdpConn). 1) h.m

-- what is known behind the dial
abbrev Dialled : Phase → Dict UdpConn → Type 0
Dialled decoding m = Unit
Dialled (dialled conn true) m = Unit
Dialled (dialled conn false) m = (lookup conn.id m ≡ some conn) × (conn.reading ≡ false)
Dialled returned m = Unit

-- The table is a map, at most `max_conns` goroutines read, and a connection that was just dialled stands
-- in the table and is not read.
pub record IsBounded (h : UdpHandler) : Type 0 where
  pub is_map : IsMap h.m
  pub few : readers h ≤ max_conns
  pub fresh : Dialled h.phase h.m

pub weigh-length : (m : Dict UdpConn) → weigh is_read m + weigh is_unread m ≡ length m
unfolding weigh
weigh-length [] = refl
weigh-length ((k, c) ∷ m) = ground (arith, weigh-length m)

-- An empty table is bounded.
close_all-IsBounded : (h : UdpHandler) → IsBounded (close_all h)
unfolding close_all weigh
close_all-IsBounded h = record { is_map = tt; few = omega arith; fresh = tt }

-- A source that was not in the table, and whose dial succeeds.
pub decode_new :
    (id : Text) (h : UdpHandler)
    → lookup id h.m ≡ none
    → let conn : UdpConn = record { id = id; socket = h.sockets; reading = false } in
      decode id none h
      ≡ record h { m = insert id conn h.m; sockets = h.sockets + 1; phase = dialled conn false }
unfolding decode
decode_new id h q = ground arith

-- A source that is in the table.
pub decode_known :
    (id : Text) (e : Option Text) (h : UdpHandler) (c : UdpConn)
    → lookup id h.m ≡ some c
    → decode id e h ≡ record h { phase = dialled c true }
unfolding decode
decode_known id e h c q = ground arith

decode-IsBounded :
    (id : Text) (e : Option Text) (h : UdpHandler) → IsBounded h → IsBounded (decode id e h)
unfolding decode
decode-IsBounded id e h b = elim (Option-cases (lookup id h.m)) [
  | inr (c, q) ↦
      subst IsBounded (sym (decode_known id e h c q))
        (record { is_map = b.is_map; few = b.few; fresh = tt })
  | inl q ↦ dialled_now e q
]
  where
    conn : UdpConn
    conn = record { id = id; socket = h.sockets; reading = false }

    dialled_now : (e : Option Text) → lookup id h.m ≡ none → IsBounded (decode id e h)
    dialled_now (some err) q = rw (decode, dial, q) (close_all-IsBounded (dial id (some err) h).0)
    dialled_now none q = subst IsBounded (sym (decode_new id h q)) (record {
      is_map = insert-IsMap id conn h.m b.is_map;
      few = ground (arith, weigh-insert is_read id conn h.m, b.few);
      fresh = (ground (arith, lookup-insert id id conn h.m, text_eq_refl id), refl);
    })

-- The check behind the dial keeps the bound: the table's length counts the connection itself.
started-IsBounded :
    (conn : UdpConn) (h : UdpHandler)
    → IsBounded h
    → lookup conn.id h.m ≡ some conn
    → conn.reading ≡ false
    → length h.m ≤ max_conns
    → IsBounded
        (record h { m = insert conn.id (record conn { reading = true }) h.m; phase = decoding })
started-IsBounded conn h b l r few =
    let c : UdpConn = record conn { reading = true } in
    record {
      is_map = insert-IsMap conn.id c h.m b.is_map;
      few = ground (
        arith,
        weigh-insert is_read conn.id c h.m,
        weigh-remove is_unread conn.id h.m b.is_map,
        weigh-length h.m,
      );
      fresh = tt;
    }

finish_write-IsBounded :
    (conn : UdpConn) (exists : Bool) (e : Option Text) (h : UdpHandler)
    → IsBounded h
    → Dialled (dialled conn exists) h.m
    → IsBounded (finish_write conn exists e h)
unfolding finish_write
finish_write-IsBounded conn exists (some err) h b d = close_all-IsBounded (
    if starts_reader exists (length h.m)
    then record h { m = insert conn.id (record conn { reading = true }) h.m }
    else h)
finish_write-IsBounded conn true none h b d = record { is_map = b.is_map; few = b.few; fresh = tt }
finish_write-IsBounded conn false none h b d = elim (Bool-cases (leb (length h.m) max_conns)) [
  | inr l ↦ rw (finish_write, l) (record { is_map = b.is_map; few = b.few; fresh = tt })
  | inl l ↦ rw (finish_write, l) (started-IsBounded conn h b d.0 d.1 (ground arith))
]

end_reader-IsBounded :
    (id : Text) (h h' : UdpHandler) → IsBounded h → end_reader id h ≡ some h' → IsBounded h'
unfolding end_reader
end_reader-IsBounded id h h' b s = elim (Option-cases (lookup id h.m)) [
  | inl q ↦ absurd (ground arith)
  | inr (conn, q) ↦ elim (Bool-cases conn.reading) [
    | inr r ↦ absurd (ground arith)
    | inl r ↦ subst IsBounded (ended conn q r) (record {
      is_map = remove-IsMap id h.m b.is_map;
      few = omega (arith, weigh-remove is_read id h.m b.is_map, b.few);
      fresh = kept h.phase b.fresh conn q r;
    })
  ]
]
  where
    ended :
        (conn : UdpConn)
        → lookup id h.m ≡ some conn
        → conn.reading ≡ true
        → record h { m = remove id h.m } ≡ h'
    ended conn q r = ground arith

    kept :
        (p : Phase)
        → Dialled p h.m
        → (conn : UdpConn) → lookup id h.m ≡ some conn
        → conn.reading ≡ true
        → Dialled p (remove id h.m)
    kept decoding d conn q r = tt
    kept (dialled c true) d conn q r = tt
    kept (dialled c false) d conn q r =
        (ground (arith, lookup-remove id c.id h.m, text_eq_iff id c.id, d.0), d.1)
    kept returned d conn q r = tt

pub step-IsBounded :
    (a : Action) (h h' : UdpHandler) → IsBounded h → step a h ≡ some h' → IsBounded h'
unfolding step
step-IsBounded a h h' b s = at_phase h.phase a b.fresh s
  where
    same : (g : UdpHandler) → some g ≡ some h' → IsBounded g → IsBounded h'
    same g e c = subst IsBounded (cc) c

    at_phase : (p : Phase) (a : Action) → Dialled p h.m → step_at p a h ≡ some h' → IsBounded h'
    at_phase decoding (packet id e) d s = same _ s (decode-IsBounded id e h b)
    at_phase decoding decode_fails d s = same _ s (close_all-IsBounded h)
    at_phase decoding (write e) d s = absurd cc
    at_phase (dialled c x) (write e) d s = same _ s (finish_write-IsBounded c x e h b d)
    at_phase (dialled c x) (packet id e) d s = absurd cc
    at_phase (dialled c x) decode_fails d s = absurd cc
    at_phase returned (packet id e) d s = absurd cc
    at_phase returned (write e) d s = absurd cc
    at_phase returned decode_fails d s = absurd cc
    at_phase decoding (reader_ends id) d s = end_reader-IsBounded id h h' b s
    at_phase (dialled c x) (reader_ends id) d s = end_reader-IsBounded id h h' b s
    at_phase returned (reader_ends id) d s = end_reader-IsBounded id h h' b s

new_handler-IsBounded : IsBounded new_handler
unfolding weigh
new_handler-IsBounded = record { is_map = tt; few = omega arith; fresh = tt }

-- In every reachable state of a handler the table is a map, and at most 100 goroutines read: whatever
-- the order of packets, errors and readers that stop.
pub Reachable-IsBounded : {h : UdpHandler} → Reachable h → IsBounded h
Reachable-IsBounded begin = new_handler-IsBounded
Reachable-IsBounded (next a r s) = step-IsBounded a _ _ (Reachable-IsBounded r) s
