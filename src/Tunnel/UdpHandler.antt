-- ===== src/Tunnel/UdpHandler.antt =====
-- share/tunnel/tunnel_out_ssh_udp.go: the handler of one UDP channel, with the goroutine that decodes its
-- packets and one `handleRead` goroutine for each connection that is read.
-- A goroutine that reads is recorded with the connection that it holds. Sockets are numbered as they are
-- dialled; the decoder, the sockets and their errors are given by what they came to.
pub mod Readers
pub mod Starved
mod Examples
use chisel_uds.Prelude.{
  ℕ, ◌+◌, Text, Bool, true, false, not, ◌&&◌, Option, none, some, List, [], ◌∷◌, ◌++◌, leb, length,
  map, if◌then◌else◌, ◌≡◌,
}
use chisel_uds.Prelude.Dict.{Dict, lookup, insert, remove, values}

-- udpConn, and whether a goroutine reads it
pub record UdpConn : Type 0 where
  pub id : Text
  pub socket : ℕ
  pub reading : Bool

-- Where the goroutine of `handleUDP` stands: at the decoder, behind the dial of a packet's source, which
-- was in the table or not, or behind its return.
pub data Phase : Type 0 where
  decoding : Phase
  dialled : UdpConn → Bool → Phase
  returned : Phase

pub record UdpHandler : Type 0 where
  pub m : Dict UdpConn
  pub sockets : ℕ
  pub closed : List ℕ
  pub phase : Phase

-- const maxConns
abbrev pub max_conns : ℕ
max_conns = 100

abbrev pub new_handler : UdpHandler
new_handler = record { m = []; sockets = 0; closed = []; phase = decoding }

-- `dial`: the error of net.Dial, or the connection and whether it was in the table
unfoldable pub dial : Text → Option Text → UdpHandler → UdpHandler × (Option (UdpConn × Bool))
dial id dial_error h = elim (lookup id h.m) [
  | some conn ↦ (h, some (conn, true))
  | none ↦ (elim dial_error [
    | some e ↦ (h, none)
    | none ↦
        (let conn : UdpConn = record { id = id; socket = h.sockets; reading = false } in
          (record h { m = insert id conn h.m; sockets = h.sockets + 1 }, some (conn, false)))
  ])
]

-- `closeAll`, which is deferred by `handleUDP`
unfoldable pub close_all : UdpHandler → UdpHandler
close_all h = record h {
  m = [];
  closed = h.closed ++ map (λ c. c.socket) (values h.m);
  phase = returned;
}

-- whether `handleWrite` starts a reader for the connection that was dialled
unfoldable pub starts_reader : Bool → ℕ → Bool
starts_reader exists len = not exists && leb len max_conns

-- the rest of `handleWrite`: the check of the table's length, and the write
unfoldable pub finish_write : UdpConn → Bool → Option Text → UdpHandler → UdpHandler
unfolding starts_reader close_all
finish_write conn exists write_error h =
    let h' =
      if starts_reader exists (length h.m)
      then record h { m = insert conn.id (record conn { reading = true }) h.m }
      else h in
    elim write_error [ none ↦ record h' { phase = decoding } | some e ↦ close_all h' ]

pub data Action : Type 0 where
  -- a packet from the source is decoded, and its source is dialled
  packet : Text → Option Text → Action
  -- the handler goes on behind the dial, and this is the error of the write
  write : Option Text → Action
  -- the decoder fails
  decode_fails : Action
  -- the reader of the source's connection stops, and removes it
  reader_ends : Text → Action

-- `decode` and the start of `handleWrite`
unfoldable pub decode : Text → Option Text → UdpHandler → UdpHandler
unfolding dial close_all
decode id dial_error h =
    let (h', result) = dial id dial_error h in
    elim result [
      | none ↦ close_all h'
      | some (conn, exists) ↦ record h' { phase = dialled conn exists }
    ]

unfoldable pub end_reader : Text → UdpHandler → Option UdpHandler
end_reader id h = elim (lookup id h.m) [
  | none ↦ none
  | some conn ↦ if conn.reading then some (record h { m = remove id h.m }) else none
]

-- `none`: the action cannot happen in the state.
unfoldable pub step_at : Phase → Action → UdpHandler → Option UdpHandler
unfolding decode finish_write end_reader
step_at decoding (packet id dial_error) h = some (decode id dial_error h)
step_at decoding decode_fails h = some (close_all h)
step_at decoding (write e) h = none
step_at (dialled conn exists) (write e) h = some (finish_write conn exists e h)
step_at (dialled conn exists) (packet id e) h = none
step_at (dialled conn exists) decode_fails h = none
step_at returned (packet id e) h = none
step_at returned (write e) h = none
step_at returned decode_fails h = none
step_at decoding (reader_ends id) h = end_reader id h
step_at (dialled conn exists) (reader_ends id) h = end_reader id h
step_at returned (reader_ends id) h = end_reader id h

unfoldable pub step : Action → UdpHandler → Option UdpHandler
unfolding step_at
step a h = step_at h.phase a h

-- the states that one handler can reach
pub data Reachable : UdpHandler → Type 0 where
  begin : Reachable new_handler
  next : {h h' : UdpHandler} (a : Action) → Reachable h → step a h ≡ some h' → Reachable h'

-- The state after actions that happen in this order.
unfoldable pub run : List Action → UdpHandler → Option UdpHandler
unfolding step
run [] h = some h
run (a ∷ rest) h = elim (step a h) [ none ↦ none | some h' ↦ run rest h' ]
