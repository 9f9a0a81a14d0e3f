-- ===== src/Client/Connect.antt =====
-- client/client_connect.go: connectionOnce, one connection of the client from its dialer to its end.
-- What the dialer, the SSH handshake, the server's reply and BindSSH came to is given, and the time from the
-- configuration to the end of BindSSH. BindSSH ends with an error, at the least io.EOF.
pub mod Handshake
mod Examples
use chisel_uds.Prelude.{
  ℕ, ◌*◌, ◌^◌, Text, codes, Bool, true, false, Option, none, some, List, [], ◌∷◌, ◌++◌, ltb,
  if◌then◌else◌,
}
use chisel_uds.Prelude.Result.{Result, err, ok}
use chisel_uds.Client.{Turn}
use chisel_uds.Client.Setup.{Url, Client, ProxyDialer, set_proxy}

pub record Attempt : Type 0 where
  -- the context is done at the start
  pub cancelled : Bool
  pub socks_error : Option Text
  pub dial_error : Option Text
  pub handshake_error : Option Text
  -- SendRequest of the configuration: its error, or the reply's payload
  pub reply : Result Text Text
  pub bind_error : Text
  -- nanoseconds from just before the sending of the configuration to the end of BindSSH
  pub lasted : ℕ

-- What the client does on the way
pub data Call : Type 0 where
  -- the context of this connection, which is given to the dialer and to BindSSH
  makes_context : Call
  dials : Option ProxyDialer → Call
  shakes_hands : Call
  sends_config : Call
  binds : Call
  closes_ssh : Call
  cancels_context : Call

-- the results of connectionOnce, behind its calls
pub record Once : Type 0 where
  pub calls : List Call
  pub connected : Bool
  pub error : Text

-- A return with an error, not connected
abbrev pub failed : List Call → Text → Once
failed calls e = record { calls = calls; connected = false; error = e }

unfoldable pub prepend : Call → Once → Once
prepend c o = record o { calls = c ∷ o.calls }

-- Behind the SSH handshake, by the server's reply; the SSH connection is closed at each return.
unfoldable pub configure : Result Text Text → Attempt → Once
configure (err e) a = failed (sends_config ∷ closes_ssh ∷ []) e
configure (ok []) a = record {
  calls = sends_config ∷ binds ∷ closes_ssh ∷ [];
  connected = ltb (5 * 10 ^ 9) a.lasted;
  error = a.bind_error;
}
configure (ok (b ∷ payload)) a = failed (sends_config ∷ closes_ssh ∷ []) (b ∷ payload)

-- behind the connection of the WebSocket, by the error of the SSH handshake
unfoldable pub handshake : Option Text → Attempt → Once
unfolding configure prepend
handshake (some e) a = failed (shakes_hands ∷ []) e
handshake none a = prepend shakes_hands (configure a.reply a)

-- with the dialer that setProxy prepared, if there is a proxy, by the error of the dial
unfoldable pub dial_with : Option Text → Option ProxyDialer → Attempt → Once
unfolding handshake prepend
dial_with (some e) dialer a = failed (dials dialer ∷ []) e
dial_with none dialer a = prepend (dials dialer) (handshake a.handshake_error a)

-- by what setProxy returned
unfoldable pub dial_by : Result Text ProxyDialer → Attempt → Once
unfolding dial_with
dial_by (err e) a = failed [] e
dial_by (ok dialer) a = dial_with a.dial_error (some dialer) a

unfoldable pub dial : Option Url → Attempt → Once
unfolding dial_with dial_by
dial none a = dial_with a.dial_error none a
dial (some p) a = dial_by (set_proxy a.socks_error p) a

-- Between the creation of the context and its deferred cancel, the last of the deferred calls
unfoldable pub with_context : Once → Once
with_context o = record o { calls = makes_context ∷ o.calls ++ cancels_context ∷ [] }

unfoldable pub connection_once : Client → Attempt → Once
unfolding dial with_context
connection_once c a =
    if a.cancelled then failed [] (codes "Cancelled") else with_context (dial c.proxy_url a)

-- the turn of connectionLoop for an attempt and the wait behind it
unfoldable pub turn_of : Client → Attempt → Bool → Turn
unfolding connection_once
turn_of c a cancelled = record {
  connected = (connection_once c a).connected;
  cancelled = cancelled;
}
