-- ===== src/Tunnel/Outbound.antt =====
-- share/tunnel/tunnel_out_ssh.go: what the other end does with a request and with a channel, and the counts
-- of share/cnet/connstats.go. The services themselves are what they came to.
pub mod Serves
use chisel_uds.Prelude.{
  ℕ, ◌+◌, ◌-◌, ◌%◌, ◌^◌, ◌<◌, Text, codes, Bool, true, false, not, ◌&&◌, Option, none, some, [],
  ◌∷◌, ◌++◌, ◌≡◌, refl, arith, text_eq, text_eq_iff, text_eq_refl, has_byte, has_suffix,
  if◌then◌else◌, inl, inr, Bool-cases, ap, sym, ◌∙◌,
}
use chisel_uds.Prelude.Result.{Result, err, ok}
use chisel_uds.Prelude.Strings.Laws.{has_byte-append}
use chisel_uds.Settings.Remote.Types.{Remote, or_default}
use chisel_uds.Settings.Remote.Print.{remote}
use chisel_uds.Settings.Remote.Tokens.{l4_proto}
use chisel_uds.Settings.Remote.Tokens.Laws.{l4_proto_none}

-- The reply to a request, if there is one.
unfoldable pub handle_ssh_request : Text → Option Text
handle_ssh_request kind = if text_eq kind (codes "ping") then some (codes "pong") else none

pub record ConnCount : Type 0 where
  pub count : ℕ
  pub open_now : ℕ

-- the methods of ConnCount, on int32 as numbers below 2^32
abbrev pub new_conn : ConnCount → ConnCount
new_conn c = record c { count = (c.count + 1) % 2 ^ 32 }

abbrev pub open_conn : ConnCount → ConnCount
open_conn c = record c { open_now = (c.open_now + 1) % 2 ^ 32 }

abbrev pub close_conn : ConnCount → ConnCount
close_conn c = record c { open_now = (c.open_now + (2 ^ 32 - 1)) % 2 ^ 32 }

pub data Service : Type 0 where
  socks_service : Service
  udp_service tcp_service : Text → Service

pub data ChannelEnd : Type 0 where
  rejected : Text → ChannelEnd
  not_accepted : Text → ChannelEnd
  served : Service → ChannelEnd

abbrev pub service_for : Text → Text → Service
service_for host_port proto =
    if text_eq host_port (codes "socks")
    then socks_service
    else if text_eq proto (codes "udp")
    then udp_service host_port
    else tcp_service host_port

-- The counts after the channel, and its end. `socks` says that there is a SOCKS server.
unfoldable pub handle_ssh_channel :
    Bool → Bool → Option Text → Text → ConnCount → ConnCount × ChannelEnd
handle_ssh_channel outbound socks accept_error extra_data c =
    let (host_port, proto) = l4_proto extra_data in
    if not outbound
    then (c, rejected (codes "Denied outbound connection"))
    else if text_eq host_port (codes "socks") && not socks
    then (c, rejected (codes "SOCKS5 is not enabled"))
    else (elim accept_error [
      | some e ↦ (c, not_accepted e)
      | none ↦ (close_conn (open_conn (new_conn c)), served (service_for host_port proto))
    ])

-- `handleTCP`, with the error of net.Dial and what cio.Pipe moved
unfoldable pub handle_tcp : Option Text → ℕ × ℕ → Result Text (ℕ × ℕ)
handle_tcp (some e) piped = err e
handle_tcp none piped = ok piped

-- what the log says of the end of a channel: an error that ends in EOF is left out
unfoldable pub close_message : Option Text → Text
close_message none = []
close_message (some e) =
    if has_suffix e (codes "EOF") then [] else codes " (error " ++ e ++ codes ")"
