-- ===== src/Cnet.antt =====
-- share/cnet/conn_ws.go: a WebSocket connection read and written as a stream of bytes.
-- The connection of the package `websocket` is the messages that ReadMessage will return, in order, and
-- the error after the last one.
pub mod Reads
pub mod Meter
pub mod HttpServer
mod Examples
use chisel_uds.Prelude.{
  ℕ, Text, Bool, true, false, Option, none, some, List, [], ◌∷◌, ◌++◌, length, take, drop, ltb,
  if◌then◌else◌,
}

pub record WsConn : Type 0 where
  pub buff : Text
  pub incoming : List Text
  pub final_error : Text

-- what Read returns: the bytes in dst[:n] with no error, or the error
pub data ReadResult : Type 0 where
  bytes : Text → ReadResult
  read_error : Text → ReadResult

-- the part of `Read` behind the choice of `src`
unfoldable pub deliver : ℕ → Text → WsConn → WsConn × ReadResult
deliver ldst src c =
    if ltb ldst (length src)
    then (record c { buff = drop ldst src }, bytes (take ldst src))
    else (c, bytes src)

-- `ldst` is len(dst)
unfoldable pub read : ℕ → WsConn → WsConn × ReadResult
unfolding deliver
read ldst c = elim c.buff [
  | b ∷ rest ↦ deliver ldst (b ∷ rest) (record c { buff = [] })
  | [] ↦ (elim c.incoming [
    | message ∷ later ↦ deliver ldst message (record c { incoming = later })
    | [] ↦ (c, read_error c.final_error)
  ])
]

-- The count and the error of `Write`, for the error of WriteMessage.
unfoldable pub write : Text → Option Text → ℕ × Option Text
write b none = (length b, none)
write b (some e) = (0, some e)
